-- ===== src/Text/Join.antt =====
-- `splitString` undoes a join by one byte, and does not end on an empty delimiter.
use elite_robots_cs_sdk.Shared.{
  ℕ, zero, suc, ◌+◌, ◌≤◌, ◌<◌, ◌≡◌, refl, sym, ap, ◌∙◌, List, [], ◌∷◌, ◌++◌, Bytes, none, some,
  le→leb, length, drop, All, arith, Option-cases, drop-drop, length-append, take-length-append,
  drop-length-append,
}
use elite_robots_cs_sdk.Text.{begins, find_first, find, split_loop, split_fuel, split_string}
use elite_robots_cs_sdk.Text.Split.{pieces, join, split_string-pieces}

module _ (c : ℕ) where
  abbrev Lacks : Bytes → Type 0
  Lacks t = find_first (c ∷ []) t ≡ none

  find_first_end : (t r : Bytes) → Lacks t → find_first (c ∷ []) (t ++ (c ∷ r)) ≡ some (length t)
  unfolding find_first begins
  find_first_end [] r h = ground arith
  find_first_end (x ∷ t) r h =
      ground (arith, find_first_end t r, Option-cases (find_first (c ∷ []) t))

  rest_after : (t r : Bytes) → drop (length t + 1) (t ++ (c ∷ r)) ≡ r
  rest_after t r =
      sym (drop-drop 1 (length t) (t ++ (c ∷ r))) ∙ ap (drop 1) (drop-length-append t (c ∷ r))

  pieces-join :
      (fuel : ℕ) (t : Bytes) (ts : List Bytes)
      → All Lacks (t ∷ ts)
      → length (join (c ∷ []) (t ∷ ts)) < fuel
      → pieces fuel (c ∷ []) (join (c ∷ []) (t ∷ ts)) ≡ t ∷ ts
  unfolding pieces join
  pieces-join zero t ts h f = absurd (omega arith)
  pieces-join (suc fuel) t [] (h, _) f = rw (h, pieces)
  pieces-join (suc fuel) t (u ∷ ts) (h, hs) f =
      rw (find_first_end t (join (c ∷ []) (u ∷ ts)) h, pieces, take-length-append, rest_after)
        (ap (◌∷◌ t)
          (pieces-join fuel u ts hs (omega (arith, length-append t (c ∷ join (c ∷ []) (u ∷ ts))))))

  -- Tokens that lack the byte `c`, joined by it, are what `splitString` gives back.
  pub split_string-join :
      (t : Bytes) (ts : List Bytes)
      → All (λ u. find_first (c ∷ []) u ≡ none) (t ∷ ts)
      → split_string (join (c ∷ []) (t ∷ ts)) (c ∷ []) ≡ some (t ∷ ts)
  split_string-join t ts h =
      split_string-pieces (join (c ∷ []) (t ∷ ts)) (c ∷ []) (λ e. cc)
      ∙ ap some (pieces-join _ t ts h (omega arith))

find_first-empty : (s : Bytes) → find_first [] s ≡ some 0
unfolding find_first begins
find_first-empty [] = refl
find_first-empty (x ∷ s) = refl

split_loop-empty :
    (fuel : ℕ) (input : Bytes) (start : ℕ) (tokens : List Bytes)
    → start ≤ length input
    → split_loop fuel input [] start (some start) tokens ≡ none
unfolding split_loop find
split_loop-empty zero input start tokens h = refl
split_loop-empty (suc fuel) input start tokens h =
    let same : start + 0 ≡ start = omega arith in
    rw (split_loop, same, le→leb _ _ h, find_first-empty, same)
      (split_loop-empty fuel input start _ h)

-- With an empty delimiter no number of rounds is enough: `splitString` does not return.
pub split_fuel_diverges : (fuel : ℕ) (input : Bytes) → split_fuel fuel input [] ≡ none
unfolding split_fuel find
split_fuel_diverges fuel input =
    rw (le→leb 0 (length input) (omega arith), find_first-empty)
      (split_loop-empty fuel input 0 [] (omega arith))
