-- ===== src/Text/Split.antt =====
-- `splitString` against a recursive specification on what is left of the input.
use mathlib.Core.List.{append_assoc}
use elite_robots_cs_sdk.Shared.{
  ℕ, zero, suc, ◌+◌, ◌-◌, ◌≤◌, ◌<◌, ◌≡◌, refl, sym, ap, ◌∙◌, ◌≢◌, inl, inr, List, [], ◌∷◌, ◌++◌,
  Bytes, none, some, true, le→leb, length, take, drop, All, arith, Option-cases, drop-drop,
  length-drop,
}
use elite_robots_cs_sdk.Text.{begins, find_first, find, split_loop, split_string}

pub begins-append : (d s : Bytes) → begins d s ≡ true → s ≡ d ++ drop (length d) s
unfolding begins
begins-append [] s h = refl
begins-append (d ∷ ds) [] h = cc
begins-append (d ∷ ds) (x ∷ s) h = ground (arith, begins-append ds s)

begins-le : (d s : Bytes) → begins d s ≡ true → length d ≤ length s
unfolding begins
begins-le [] s h = omega arith
begins-le (d ∷ ds) [] h = cc
begins-le (d ∷ ds) (x ∷ s) h = ground (arith, begins-le ds s)

begins-take : (d s : Bytes) (i : ℕ) → begins d (take i s) ≡ true → begins d s ≡ true
unfolding begins
begins-take [] s i h = refl
begins-take (d ∷ ds) s zero h = cc
begins-take (d ∷ ds) [] (suc i) h = cc
begins-take (d ∷ ds) (x ∷ s) (suc i) h = ground (arith, begins-take ds s i)

-- Where `find` finds the needle: the text is what stands before it, the needle, and the rest.
pub find_first-append :
    (d s : Bytes) (i : ℕ) → find_first d s ≡ some i → s ≡ take i s ++ (d ++ drop (i + length d) s)
unfolding find_first
find_first-append d [] zero h = ground (arith, begins-append d [])
find_first-append d [] (suc i) h = ground arith
find_first-append d (x ∷ s) zero h =
    ground (arith, begins-append d (x ∷ s), Option-cases (find_first d s))
find_first-append d (x ∷ s) (suc i) h =
    let e : suc i + length d ≡ suc (i + length d) = omega arith in
    rw e (ground (arith, find_first-append d s i, Option-cases (find_first d s)))

-- The needle does not stand before the position that `find` gives.
pub find_first_least :
    (d s : Bytes) (i : ℕ) → d ≢ [] → find_first d s ≡ some i → find_first d (take i s) ≡ none
unfolding find_first
find_first_least [] s i ne h = absurd (ne refl)
find_first_least (d ∷ ds) s zero ne h = unfold begins in refl
find_first_least (d ∷ ds) [] (suc i) ne h = ground arith
find_first_least (d ∷ ds) (x ∷ s) (suc i) ne h = ground (
  arith,
  find_first_least (d ∷ ds) s i ne,
  Option-cases (find_first (d ∷ ds) s),
  begins-take (d ∷ ds) (x ∷ s) (suc i),
)

-- The pieces of a text, with fuel for the delimiters in it.
unfoldable pub pieces : ℕ → Bytes → Bytes → List Bytes
pieces zero delimiter s = s ∷ []
pieces (suc fuel) delimiter s = elim (find_first delimiter s) [
  | none ↦ s ∷ []
  | some i ↦ take i s ∷ pieces fuel delimiter (drop (i + length delimiter) s)
]

pub find_first-lt : (d s : Bytes) (i : ℕ) → find_first d s ≡ some i → i + length d ≤ length s
unfolding find_first
find_first-lt d [] zero h = ground (arith, begins-le d [])
find_first-lt d [] (suc i) h = ground arith
find_first-lt d (x ∷ s) zero h = ground (arith, begins-le d (x ∷ s), Option-cases (find_first d s))
find_first-lt d (x ∷ s) (suc i) h =
    ground (arith, find_first-lt d s i, Option-cases (find_first d s))

nonempty : (d : Bytes) → d ≢ [] → 0 < length d
nonempty [] ne = absurd (ne refl)
nonempty (x ∷ d) ne = omega arith

-- The loop, from any position in the input, appends the pieces of what is left.
split_loop-pieces :
    (fuel : ℕ) (input d : Bytes) (start : ℕ) (tokens : List Bytes)
    → d ≢ []
    → start ≤ length input
    → length input < start + fuel
    → split_loop fuel input d start (find d input start) tokens
      ≡ some (tokens ++ pieces fuel d (drop start input))
unfolding split_loop find pieces
split_loop-pieces zero input d start tokens ne h f = absurd (omega arith)
split_loop-pieces (suc fuel) input d start tokens ne h f =
    elim (Option-cases (find_first d (drop start input))) [
      | inl e ↦ rw (le→leb _ _ h, e, pieces)
      | inr (i, e) ↦
          let room = find_first-lt d (drop start input) i e in
          let next : start + i + length d ≤ length input =
            omega (arith, room, length-drop start input) in
          let some_byte : 0 < length d = nonempty d ne in
          let cut : start + i - start ≡ i = omega arith in
          let rest : drop (i + length d) (drop start input) ≡ drop (start + i + length d) input =
            drop-drop (i + length d) start input ∙ ap (λ k. drop k input) (omega arith) in
          let ih =
            split_loop-pieces fuel input d (start + i + length d)
              (tokens ++ (take i (drop start input) ∷ [])) ne next (omega arith) in
          rw (le→leb _ _ h, e, pieces, rest, split_loop, cut)
            (ih ∙ ap some (append_assoc tokens _ _))
    ]

pub split_string-pieces :
    (input d : Bytes) → d ≢ [] → split_string input d ≡ some (pieces (suc (length input)) d input)
unfolding split_string
split_string-pieces input d ne =
    split_loop-pieces (suc (length input)) input d 0 [] ne (omega arith) (omega arith)

-- The text that the pieces make with the delimiter between them.
unfoldable pub join : Bytes → List Bytes → Bytes
join d [] = []
join d (t ∷ []) = t
join d (t ∷ u ∷ ts) = t ++ (d ++ join d (u ∷ ts))

pieces-cons :
    (fuel : ℕ) (d s : Bytes) → (u : Bytes) × (us : List Bytes) × (pieces fuel d s ≡ u ∷ us)
unfolding pieces
pieces-cons zero d s = (s, [], refl)
pieces-cons (suc fuel) d s = elim (Option-cases (find_first d s)) [
  | inl e ↦ (s, [], rw (e, pieces))
  | inr (i, e) ↦ (take i s, pieces fuel d (drop (i + length d) s), rw (e, pieces))
]

join-pieces : (fuel : ℕ) (d s : Bytes) → join d (pieces fuel d s) ≡ s
unfolding join pieces
join-pieces zero d s = refl
join-pieces (suc fuel) d s = elim (Option-cases (find_first d s)) [
  | inl e ↦ rw (e, pieces)
  | inr (i, e) ↦
      let (u, us, split) = pieces-cons fuel d (drop (i + length d) s) in
      let ih = rw split at (join-pieces fuel d (drop (i + length d) s)) in
      rw (e, pieces, split, ih) (sym (find_first-append d s i e))
]

pieces-none :
    (fuel : ℕ) (d s : Bytes)
    → d ≢ []
    → length s < fuel
    → All (λ t. find_first d t ≡ none) (pieces fuel d s)
unfolding pieces
pieces-none zero d s ne h = absurd (omega arith)
pieces-none (suc fuel) d s ne h = elim (Option-cases (find_first d s)) [
  | inl e ↦ rw (e, pieces) (e, tt)
  | inr (i, e) ↦
      let room = find_first-lt d s i e in
      let some_byte = nonempty d ne in
      rw (e, pieces)
        (
          find_first_least d s i ne e,
          pieces-none fuel d (drop (i + length d) s) ne
              (omega (arith, length-drop (i + length d) s)),
        )
]

-- `splitString` ends on every input if the delimiter is not empty. Its tokens, joined by the
-- delimiter, are the input, and the delimiter stands in none of them.
pub split_string_total :
    (input delimiter : Bytes)
    → delimiter ≢ []
    → (tokens : List Bytes) × (split_string input delimiter ≡ some tokens)
      × (join delimiter tokens ≡ input)
      × All (λ t. find_first delimiter t ≡ none) tokens
split_string_total input d ne = (
  pieces (suc (length input)) d input,
  split_string-pieces input d ne,
  join-pieces (suc (length input)) d input,
  pieces-none (suc (length input)) d input ne (omega arith),
)
