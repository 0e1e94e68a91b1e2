-- ===== src/Dashboard/Matches.antt =====
-- What the patterns of plain texts match.
use mathlib.Core.List.{append-nil, append_assoc}
use elite_robots_cs_sdk.Shared.{
  ℕ, ◌-◌, ◌≡◌, refl, sym, ap, ◌∙◌, [], ◌∷◌, ◌++◌, Bytes, true, List, some, ◌==◌, ==_refl,
  if◌then◌else◌, length, take, arith, Bool-cases, inl, inr, length-append, take-length-append, All,
}
use elite_robots_cs_sdk.Dashboard.Regex.{
  Pattern, empty, many, dot, in_class, many_rests, rests, has_empty, literal, text, regex_match,
  regex_search,
}

rests-literal-cons :
    (c x : ℕ) (cs s : Bytes) (p : Pattern)
    → rests (literal (c ∷ cs) p) (x ∷ s) ≡ (if x == c then rests (literal cs p) s else [])
unfolding rests in_class
rests-literal-cons c x cs s p = elim (Bool-cases (x == c)) [
  | inl same ↦ rw same (append-nil (rests (literal cs p) s))
  | inr other ↦ rw other refl
]

text-only : (cs s : Bytes) → has_empty (rests (text cs) s) ≡ true → s ≡ cs
unfolding rests
text-only [] [] h = refl
text-only [] (x ∷ s) h = absurd (cc)
text-only (c ∷ cs) [] h = absurd (cc)
text-only (c ∷ cs) (x ∷ s) h = elim (Bool-cases (x == c)) [
  | inl same ↦
      let later = rw (rests-literal-cons c x cs s empty, same) at h in
      let first : x ≡ c = ground arith in rw (first, text-only cs s later)
  | inr other ↦ absurd (let none = rw (rests-literal-cons c x cs s empty, other) at h in cc)
]

-- A plain text matches itself alone.
pub regex_match-text : (cs s : Bytes) → regex_match s (text cs) ≡ true → s ≡ cs
unfolding regex_match
regex_match-text cs s h = text-only cs s h

pub rests-literal : (cs s : Bytes) (p : Pattern) → rests (literal cs p) (cs ++ s) ≡ rests p s
rests-literal [] s p = refl
rests-literal (c ∷ cs) s p =
    rests-literal-cons c c cs (cs ++ s) p ∙ (rw (==_refl c) (rests-literal cs s p))

-- A text without line terminators.
abbrev pub IsLine : Bytes → Type 0
IsLine cs = All (λ c. in_class dot c ≡ true) cs

many_rests-line :
    (cs s : Bytes)
    → IsLine cs
    → (more : List Bytes) × (many_rests dot (cs ++ (13 ∷ s)) ≡ (13 ∷ s) ∷ more)
unfolding many_rests in_class
many_rests-line [] s h = ([], refl)
many_rests-line (c ∷ cs) s (h, hs) =
    let (more, e) = many_rests-line cs s hs in (more ++ ((c ∷ (cs ++ (13 ∷ s))) ∷ []), rw (h, e))

search-first :
    (c : ℕ) (s : Bytes) (p : Pattern) (rest : Bytes) (more : List Bytes)
    → rests p (c ∷ s) ≡ rest ∷ more
    → regex_search (c ∷ s) p ≡ some (take (length (c ∷ s) - length rest) (c ∷ s))
unfolding regex_search
search-first c s p rest more e = rw e refl

take-front : (xs ys whole : Bytes) → whole ≡ xs ++ ys → take (length whole - length ys) whole ≡ xs
take-front xs ys whole e =
    let n : length whole - length ys ≡ length xs =
      omega (arith, length-append xs ys, ap length e) in
    rw (n, e) (take-length-append xs ys)

-- The answer to a pattern of a text and `.*`: the line without its end.
pub regex_search-line :
    (c : ℕ) (front cs s : Bytes)
    → IsLine cs
    → regex_search ((c ∷ front) ++ (cs ++ (13 ∷ s))) (literal (c ∷ front) (many dot))
      ≡ some ((c ∷ front) ++ cs)
unfolding rests
regex_search-line c front cs s h =
    let (more, e) = many_rests-line cs s h in
    let whole = (c ∷ front) ++ (cs ++ (13 ∷ s)) in
    let found =
      search-first c (front ++ (cs ++ (13 ∷ s))) (literal (c ∷ front) (many dot)) (13 ∷ s) more
        (rests-literal (c ∷ front) (cs ++ (13 ∷ s)) (many dot) ∙ e) in
    let parts : whole ≡ ((c ∷ front) ++ cs) ++ (13 ∷ s) =
      sym (append_assoc (c ∷ front) cs (13 ∷ s)) in
    found ∙ ap some (take-front ((c ∷ front) ++ cs) (13 ∷ s) whole parts)
