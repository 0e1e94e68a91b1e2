-- ===== src/Version/RoundTrip.antt =====
-- `fromString` reads what `toString` prints.
use elite_robots_cs_sdk.Shared.{
  ℕ, zero, suc, ◌+◌, ◌-◌, ◌*◌, ◌/◌, ◌%◌, ◌^◌, ◌≤◌, ◌<◌, ◌≡◌, refl, sym, ap, ◌∙◌, subst, [], ◌∷◌,
  ◌++◌, Bytes, true, false, none, some, ok, ltb, lt→ltb, ltb→lt, ◌==◌, if◌then◌else◌, Bool-cases,
  inl, inr, arith, All, All-append, pos,
}
use elite_robots_cs_sdk.Text.{begins, find_first, split_string}
use elite_robots_cs_sdk.Text.Split.{join}
use elite_robots_cs_sdk.Text.Join.{split_string-join}
use elite_robots_cs_sdk.Version.{VersionInfo, to_string, number, from_components, from_string}
use elite_robots_cs_sdk.Version.Decimal.{
  digits, u32_to_string, is_digit, is_space, value_from, stoi_positive, stoi_signed, stoi,
}

-- A byte from '0' to '9'.
abbrev IsDigit : ℕ → Type 0
IsDigit c = (48 ≤ c) × (c ≤ 57)

digits-All : (count n : ℕ) → All IsDigit (digits count n)
unfolding digits
digits-All zero n = tt
digits-All (suc count) n = elim (Bool-cases (ltb n 10)) [
  | inl e ↦ let small = ltb→lt n 10 e in rw e ((omega arith, omega arith), tt)
  | inr e ↦ rw e (
      All-append IsDigit (digits count (n / 10)) ((48 + n % 10) ∷ []) (digits-All count (n / 10))
        ((omega arith, omega arith), tt))
]

value_from-append :
    (ds : Bytes) (n d : ℕ)
    → All IsDigit ds
    → IsDigit d
    → value_from n (ds ++ (d ∷ [])) ≡ 10 * value_from n ds + (d - 48)
unfolding value_from
value_from-append [] n d h (low, high) = ground arith
value_from-append (c ∷ ds) n d ((low, high), hs) k =
    ground (arith, value_from-append ds (10 * n + (c - 48)) d hs k)

value_from-digits : (count n : ℕ) → n < 10 ^ count → value_from 0 (digits count n) ≡ n
unfolding digits value_from
value_from-digits zero n h = omega arith
value_from-digits (suc count) n h = elim (Bool-cases (ltb n 10)) [
  | inl e ↦ let small = ltb→lt n 10 e in rw e (ground arith)
  | inr e ↦
      let inner = value_from-digits count (n / 10) (omega arith) in
      let last =
        value_from-append (digits count (n / 10)) 0 (48 + n % 10) (digits-All count (n / 10))
          (omega arith, omega arith) in
      rw (e, last, inner) (omega arith)
]

-- There is a first digit.
digits-cons : (count n : ℕ) → (c : ℕ) × (s : Bytes) × (digits (suc count) n ≡ c ∷ s)
unfolding digits
digits-cons count n = elim (Bool-cases (ltb n 10)) [
  | inl e ↦ (48 + n, [], rw e)
  | inr e ↦
      elim (digits count (n / 10))
        as (λ ds.
          (c : ℕ) × (s : Bytes) × ((if ltb n 10 then (48 + n) ∷ [] else ds ++ ((48 + n % 10) ∷ []))
            ≡ c ∷ s)) [
              | [] ↦ (48 + n % 10, [], rw e)
              | d ∷ ds ↦ (d, ds ++ ((48 + n % 10) ∷ []), rw e)
            ]
]

stoi-digit :
    (c : ℕ) (s : Bytes)
    → IsDigit c
    → value_from 0 (c ∷ s) < 2147483648
    → stoi (c ∷ s) ≡ ok (pos (value_from 0 (c ∷ s)))
unfolding stoi stoi_signed stoi_positive
stoi-digit c s (low, high) h =
    let not_space : is_space c ≡ false = ground arith in
    let not_minus : (c == 45) ≡ false = ground arith in
    let not_plus : (c == 43) ≡ false = ground arith in
    let digit : is_digit c ≡ true = ground arith in
    rw (
      not_space,
      stoi_signed,
      not_minus,
      not_plus,
      lt→ltb (value_from 0 (c ∷ s)) 2147483648 h,
      digit,
    )

-- A number that fits an int is read back as it was printed.
pub stoi-u32_to_string : (n : ℕ) → n < 2 ^ 31 → stoi (u32_to_string n) ≡ ok (pos n)
unfolding u32_to_string
stoi-u32_to_string n h =
    let (c, s, e) = digits-cons 9 n in
    let value : value_from 0 (c ∷ s) ≡ n =
      sym (ap (value_from 0) e) ∙ value_from-digits 10 n (omega arith) in
    let (digit, _) : All IsDigit (c ∷ s) = subst (All IsDigit) e (digits-All 10 n) in
    rw e (stoi-digit c s digit (omega (arith, value)) ∙ ap (λ x. ok (pos x)) value)

number-u32_to_string : (n : ℕ) → n < 2 ^ 31 → number (u32_to_string n) ≡ ok n
number-u32_to_string n h =
    let small : n % 2 ^ 32 ≡ n = omega arith in rw (stoi-u32_to_string n h, small)

-- No digit is a dot.
lacks-dot : (ds : Bytes) → All IsDigit ds → find_first (b'.' ∷ []) ds ≡ none
unfolding find_first begins
lacks-dot [] h = refl
lacks-dot (d ∷ ds) ((low, high), h) = ground (arith, lacks-dot ds h)

u32_to_string-lacks-dot : (n : ℕ) → find_first (b'.' ∷ []) (u32_to_string n) ≡ none
unfolding u32_to_string
u32_to_string-lacks-dot n = lacks-dot (digits 10 n) (digits-All 10 n)

to_string-split :
    (v : VersionInfo)
    → split_string (to_string v) (b'.' ∷ [])
      ≡ some (
          u32_to_string v.major
          ∷ u32_to_string v.minor
          ∷ u32_to_string v.bugfix
          ∷ u32_to_string v.build
          ∷ [])
unfolding to_string join
to_string-split v =
    split_string-join b'.' (u32_to_string v.major)
      (u32_to_string v.minor ∷ u32_to_string v.bugfix ∷ u32_to_string v.build ∷ [])
      (
        u32_to_string-lacks-dot v.major,
        (
          u32_to_string-lacks-dot v.minor,
          (u32_to_string-lacks-dot v.bugfix, (u32_to_string-lacks-dot v.build, tt)),
        ),
      )

-- `fromString` gives back a version that `toString` printed, if its numbers fit an int.
pub from_string-to_string :
    (v : VersionInfo)
    → v.major < 2 ^ 31
    → v.minor < 2 ^ 31
    → v.bugfix < 2 ^ 31
    → v.build < 2 ^ 31
    → from_string (to_string v) ≡ ok v
unfolding from_string from_components
from_string-to_string v h0 h1 h2 h3 = rw (
  to_string-split v,
  number-u32_to_string v.major h0,
  number-u32_to_string v.minor h1,
  number-u32_to_string v.bugfix h2,
  number-u32_to_string v.build h3,
)
