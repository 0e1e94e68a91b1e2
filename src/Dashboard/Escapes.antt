-- ===== src/Dashboard/Escapes.antt =====
-- The loop that escapes one byte, against one pass over the text.
use mathlib.Core.List.{append_assoc}
use elite_robots_cs_sdk.Shared.{
  ℕ, zero, suc, ◌+◌, ◌≤◌, ◌≡◌, refl, sym, ap, ◌∙◌, [], ◌∷◌, ◌++◌, Bytes, false, none, some, ◌==◌,
  ==_refl, if◌then◌else◌, length, take, drop, arith, Bool-cases, inl, inr, ◌⊎◌, length-append,
  take-length-append, drop-length-append, le→leb,
}
use elite_robots_cs_sdk.Text.{find, find_first, begins, shift_pos}
use elite_robots_cs_sdk.Dashboard.Commands.{escape_loop, escape}

-- How often a byte stands in a text.
unfoldable pub count : ℕ → Bytes → ℕ
count b [] = 0
count b (c ∷ cs) = if c == b then suc (count b cs) else count b cs

-- The bytes one by one, with a text for each that is to be escaped.
unfoldable pub replaced : ℕ → Bytes → Bytes → Bytes
replaced b by [] = []
replaced b by (c ∷ cs) = (if c == b then by else c ∷ []) ++ replaced b by cs

pub count-append : (b : ℕ) (xs ys : Bytes) → count b (xs ++ ys) ≡ count b xs + count b ys
unfolding count
count-append b [] ys = omega arith
count-append b (c ∷ cs) ys = ground (arith, count-append b cs ys)

replaced-append :
    (b : ℕ) (by xs ys : Bytes) → replaced b by (xs ++ ys) ≡ replaced b by xs ++ replaced b by ys
unfolding replaced
replaced-append b by [] ys = refl
replaced-append b by (c ∷ cs) ys = rw (replaced-append b by cs ys, append_assoc)

replaced-without : (b : ℕ) (by xs : Bytes) → count b xs ≡ 0 → replaced b by xs ≡ xs
unfolding replaced count
replaced-without b by [] h = refl
replaced-without b by (c ∷ cs) h = elim (Bool-cases (c == b)) [
  | inl same ↦ absurd (let bad = rw same at h in omega arith)
  | inr other ↦ rw (other, replaced-without b by cs (rw other at h))
]

-- The first place of a byte, if it is there.
find_first-byte :
    (b : ℕ) (rest : Bytes)
    → ((find_first (b ∷ []) rest ≡ none) × (count b rest ≡ 0))
      ⊎ ((pre : Bytes) × (post : Bytes) × (rest ≡ pre ++ (b ∷ post))
          × (find_first (b ∷ []) rest ≡ some (length pre))
          × (count b pre ≡ 0))
unfolding find_first begins count
find_first-byte b [] = inl (refl, refl)
find_first-byte b (c ∷ cs) = elim (Bool-cases (b == c)) [
  | inl same ↦
      let eq : b ≡ c = ground arith in inr ([], cs, ap (λ x. x ∷ cs) (sym eq), rw same refl, refl)
  | inr other ↦
      let other' : (c == b) ≡ false = ground arith in
      elim (find_first-byte b cs) [
        | inl (missing, none_left) ↦ inl (rw (other, missing) refl, rw other' none_left)
        | inr (pre, post, e, f, n) ↦
            inr (c ∷ pre, post, ap (◌∷◌ c) e, rw (other, f) refl, rw other' n)
      ]
]

find-behind :
    (needle front rest : Bytes)
    → find needle (front ++ rest) (length front) ≡ shift_pos (length front) (find_first needle rest)
unfolding find
find-behind needle front rest =
    let inside : length front ≤ length (front ++ rest) = omega (arith, length-append front rest) in
    rw (le→leb (length front) (length (front ++ rest)) inside, drop-length-append front rest)

-- A round's text, and what is left of it to look at.
put-in :
    (b : ℕ) (by front pre post : Bytes)
    → take (length front + length pre) (front ++ (pre ++ (b ∷ post)))
        ++ (by ++ drop (suc (length front + length pre)) (front ++ (pre ++ (b ∷ post))))
      ≡ (front ++ pre) ++ (by ++ post)
put-in b by front pre post =
    let len : length front + length pre ≡ length (front ++ pre) =
      omega (arith, length-append front pre) in
    let assoc : front ++ (pre ++ (b ∷ post)) ≡ (front ++ pre) ++ (b ∷ post) =
      sym (append_assoc front pre (b ∷ post)) in
    let next : drop (suc (length (front ++ pre))) ((front ++ pre) ++ (b ∷ post)) ≡ post =
      drop-suc (front ++ pre) b post in
    rw (len, assoc, take-length-append (front ++ pre) (b ∷ post), next) refl
  where
    drop-suc : (xs : Bytes) (b : ℕ) (ys : Bytes) → drop (suc (length xs)) (xs ++ (b ∷ ys)) ≡ ys
    drop-suc [] b ys = refl
    drop-suc (x ∷ xs) b ys = drop-suc xs b ys

replaced-first :
    (b : ℕ) (by front pre post : Bytes)
    → count b by ≡ 0
    → count b pre ≡ 0
    → (front ++ pre) ++ replaced b by (by ++ post) ≡ front ++ replaced b by (pre ++ (b ∷ post))
unfolding replaced
replaced-first b by front pre post clean n =
    rw
      (
        append_assoc,
        replaced-append b by by post,
        replaced-append b by pre (b ∷ post),
        replaced-without b by by clean,
        replaced-without b by pre n,
        ==_refl b,
      )
      refl

abbrev Replaces : ℕ → ℕ → Bytes → Type 0
Replaces fuel b by =
    (front rest : Bytes)
    → count b rest ≤ fuel
    → escape_loop fuel b by (front ++ rest) (find (b ∷ []) (front ++ rest) (length front))
      ≡ some (front ++ replaced b by rest)

loop-done :
    (fuel b : ℕ) (by front rest : Bytes)
    → find_first (b ∷ []) rest ≡ none
    → count b rest ≡ 0
    → escape_loop fuel b by (front ++ rest) (find (b ∷ []) (front ++ rest) (length front))
      ≡ some (front ++ replaced b by rest)
unfolding escape_loop
loop-done fuel b by front rest missing n =
    rw (find-behind (b ∷ []) front rest, missing, replaced-without b by rest n) refl

loop-round :
    (fuel b : ℕ) (by front pre post : Bytes)
    → Replaces fuel b by
    → count b by ≡ 0
    → count b pre ≡ 0
    → count b (pre ++ (b ∷ post)) ≤ suc fuel
    → escape_loop (suc fuel) b by (front ++ (pre ++ (b ∷ post))) (some (length front + length pre))
      ≡ some (front ++ replaced b by (pre ++ (b ∷ post)))
unfolding escape_loop count
loop-round fuel b by front pre post replaces clean n room =
    let len : length front + length pre ≡ length (front ++ pre) =
      omega (arith, length-append front pre) in
    let one_less : count b (by ++ post) ≤ fuel =
      let whole = count-append b pre (b ∷ post) in
      let single : count b (b ∷ post) ≡ suc (count b post) = rw (==_refl b) refl in
      omega (arith, count-append b by post) in
    let later = replaces (front ++ pre) (by ++ post) one_less in
    ap (λ t. escape_loop fuel b by t (find (b ∷ []) t (length front + length pre)))
      (put-in b by front pre post)
    ∙ ap
        (λ i.
          escape_loop fuel b by ((front ++ pre) ++ (by ++ post))
            (find (b ∷ []) ((front ++ pre) ++ (by ++ post)) i))
        len
    ∙ later
    ∙ ap some (replaced-first b by front pre post clean n)

loop-Replaces : (fuel b : ℕ) (by : Bytes) → count b by ≡ 0 → Replaces fuel b by
unfolding count
loop-Replaces zero b by clean front rest room = elim (find_first-byte b rest) [
  | inl (missing, n) ↦ loop-done zero b by front rest missing n
  | inr (pre, post, e, f, n) ↦ absurd (
      let single : count b (b ∷ post) ≡ suc (count b post) = rw (==_refl b) refl in
      omega (arith, count-append b pre (b ∷ post), ap (count b) e))
]
loop-Replaces (suc fuel) b by clean front rest room = elim (find_first-byte b rest) [
  | inl (missing, n) ↦ loop-done (suc fuel) b by front rest missing n
  | inr (pre, post, e, f, n) ↦
      rw (find-behind (b ∷ []) front rest, f, e)
        (loop-round fuel b by front pre post (loop-Replaces fuel b by clean) clean n (rw e at room))
]

count-length : (b : ℕ) (xs : Bytes) → count b xs ≤ length xs
unfolding count
count-length b [] = omega arith
count-length b (c ∷ cs) = ground (arith, count-length b cs)

pub escape-replaced :
    (b : ℕ) (by message : Bytes)
    → count b by ≡ 0
    → escape b by message ≡ some (replaced b by message)
unfolding escape
escape-replaced b by message clean =
    loop-Replaces (length message) b by clean [] message (count-length b message)
