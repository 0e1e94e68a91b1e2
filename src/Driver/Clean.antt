-- ===== src/Driver/Clean.antt =====
-- Where a placeholder begins in a text, and texts in which none begins.
use mathlib.Core.List.{append_assoc}
use elite_robots_cs_sdk.Shared.{
  ℕ, ◌+◌, ◌≡◌, refl, sym, ap, ◌∙◌, [], ◌∷◌, ◌++◌, Bytes, true, false, none, some, length, ◌==◌,
  arith, Bool-cases, inl, inr, ◌⊎◌, All,
}
use elite_robots_cs_sdk.Text.{begins, find_first}

-- No placeholder begins within the front of a text.
abbrev pub IsClean : Bytes → Bytes → Bytes → Type 0
IsClean needle [] rest = Unit {0}
IsClean needle (x ∷ front) rest =
    (begins needle ((x ∷ front) ++ rest) ≡ false) × IsClean needle front rest

pub find_first-behind :
    (needle front rest : Bytes) (i : ℕ)
    → IsClean needle front rest
    → find_first needle rest ≡ some i
    → find_first needle (front ++ rest) ≡ some (length front + i)
unfolding find_first
find_first-behind needle [] rest i h e = e ∙ ap some (omega arith)
find_first-behind needle (x ∷ front) rest i (b, h) e =
    rw (b, find_first-behind needle front rest i h e) (ap some (omega arith))

pub find_first-none :
    (needle front rest : Bytes)
    → IsClean needle front rest
    → find_first needle rest ≡ none
    → find_first needle (front ++ rest) ≡ none
unfolding find_first
find_first-none needle [] rest h e = e
find_first-none needle (x ∷ front) rest (b, h) e =
    rw (b, find_first-none needle front rest h e) refl

-- A text that begins with another is that text and a rest.
begins-rest : (needle s : Bytes) → begins needle s ≡ true → (post : Bytes) × (s ≡ needle ++ post)
unfolding begins
begins-rest [] s h = (s, refl)
begins-rest (d ∷ ds) [] h = absurd (cc)
begins-rest (d ∷ ds) (x ∷ s) h =
    let same : d ≡ x = ground arith in
    let later : begins ds s ≡ true = ground arith in
    let (post, e) = begins-rest ds s later in (post, rw same (ap (◌∷◌ x) e))

-- Where the first placeholder stands.
pub first-place :
    (needle rest : Bytes)
    → ((find_first needle rest ≡ none))
      ⊎ ((pre : Bytes) × (post : Bytes) × (rest ≡ pre ++ (needle ++ post))
          × (find_first needle rest ≡ some (length pre))
          × IsClean needle pre (needle ++ post))
unfolding find_first
first-place needle [] = elim (Bool-cases (begins needle [])) [
  | inr b ↦ inl (rw b refl)
  | inl b ↦ let (post, e) = begins-rest needle [] b in inr ([], post, e, rw b refl, tt)
]
first-place needle (x ∷ rest) = elim (Bool-cases (begins needle (x ∷ rest))) [
  | inl b ↦ let (post, e) = begins-rest needle (x ∷ rest) b in inr ([], post, e, rw b refl, tt)
  | inr b ↦ elim (first-place needle rest) [
    | inl missing ↦ inl (rw (b, missing) refl)
    | inr (pre, post, e, f, h) ↦ inr (x ∷ pre, post, ap (◌∷◌ x) e, rw (b, f) refl, (rw e at b, h))
  ]
]

-- A placeholder does not begin before a text whose first byte it lacks, and reach into it.
begins-through :
    (needle u : Bytes) (c : ℕ) (s t : Bytes)
    → All (λ d. (d == c) ≡ false) needle
    → begins needle (u ++ (c ∷ s)) ≡ true
    → begins needle (u ++ t) ≡ true
unfolding begins
begins-through [] u c s t h b = refl
begins-through (d ∷ ds) [] c s t (h, hs) b = absurd (let bad = rw h at b in cc)
begins-through (d ∷ ds) (x ∷ u) c s t (h, hs) b =
    let same : (d == x) ≡ true = ground arith in
    let later : begins ds (u ++ (c ∷ s)) ≡ true = ground arith in
    rw (same, begins-through ds u c s t hs later) refl

pub IsClean-through :
    (needle u : Bytes) (c : ℕ) (s t : Bytes)
    → All (λ d. (d == c) ≡ false) needle
    → IsClean needle u t
    → IsClean needle u (c ∷ s)
IsClean-through needle [] c s t h k = tt
IsClean-through needle (x ∷ u) c s t h (b, k) = (
  elim (Bool-cases (begins needle ((x ∷ u) ++ (c ∷ s)))) [
    | inr e ↦ e
    | inl e ↦ absurd (let bad = sym b ∙ begins-through needle (x ∷ u) c s t h e in cc)
  ],
  IsClean-through needle u c s t h k,
)

pub IsClean-append :
    (needle u v rest : Bytes)
    → IsClean needle u (v ++ rest)
    → IsClean needle v rest
    → IsClean needle (u ++ v) rest
IsClean-append needle [] v rest h k = k
IsClean-append needle (x ∷ u) v rest (b, h) k =
    (rw (append_assoc u v rest) b, IsClean-append needle u v rest h k)

-- A text without the placeholder's first byte.
pub IsClean-without :
    (d : ℕ) (ds by rest : Bytes) → All (λ c. (d == c) ≡ false) by → IsClean (d ∷ ds) by rest
unfolding begins
IsClean-without d ds [] rest h = tt
IsClean-without d ds (c ∷ by) rest (e, h) = (rw e refl, IsClean-without d ds by rest h)
