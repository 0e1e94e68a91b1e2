-- ===== src/Server/Attempts.antt =====
-- The constructor's attempts to bind the port.
use elite_robots_cs_sdk.Shared.{
  ℕ, zero, suc, ◌+◌, ◌≤◌, ◌<◌, ◌≡◌, ◌≢◌, ◌↔◌, refl, sym, ap, ◌∙◌, ok, arith, ◌⊎◌, inl, inr,
}
use elite_robots_cs_sdk.Server.{BindOutcome, bind_from, bind}

-- The first round that binds, with the port in use in those before.
abbrev pub IsFirst : ℕ → ℕ → (ℕ → BindOutcome) → Type 0
IsFirst first i tries =
    (tries i ≡ BindOutcome.bound) × ((j : ℕ) → first ≤ j → j < i → tries j ≡ BindOutcome.in_use)

Outcome-cases :
    (b : BindOutcome)
    → (b ≡ BindOutcome.bound) ⊎ ((b ≡ BindOutcome.in_use) ⊎ (b ≡ BindOutcome.failed))
Outcome-cases BindOutcome.bound = inl refl
Outcome-cases BindOutcome.in_use = inr (inl refl)
Outcome-cases BindOutcome.failed = inr (inr refl)

Nat-cases : (a b : ℕ) → (a ≡ b) ⊎ (a ≢ b)
Nat-cases a b = ground arith

bind_from-ok :
    (n first i : ℕ) (tries : ℕ → BindOutcome)
    → bind_from n first tries ≡ ok i
    → (first ≤ i) × (i ≤ first + n) × IsFirst first i tries
unfolding bind_from
bind_from-ok zero first i tries h = elim (Outcome-cases (tries first)) [
  | inl e ↦
      let k = rw (e, bind_from) at h in
      let same : first ≡ i = ground arith in
      (omega arith, omega arith, (ap tries (sym same) ∙ e, λ j a b. absurd (omega arith)))
  | inr (inl e) ↦ absurd (let k = rw (e, bind_from) at h in cc)
  | inr (inr e) ↦ absurd (let k = rw (e, bind_from) at h in cc)
]
bind_from-ok (suc n) first i tries h = elim (Outcome-cases (tries first)) [
  | inl e ↦
      let k = rw (e, bind_from) at h in
      let same : first ≡ i = ground arith in
      (omega arith, omega arith, (ap tries (sym same) ∙ e, λ j a b. absurd (omega arith)))
  | inr (inl e) ↦
      let (low, high, (found, before)) =
        bind_from-ok n (suc first) i tries (rw (e, bind_from) at h) in
      (
        omega arith,
        omega arith,
        (
          found,
          λ j a b. elim (Nat-cases first j) [
            | inl same ↦ ap tries (sym same) ∙ e
            | inr differs ↦ before j (omega arith) b
          ],
        ),
      )
  | inr (inr e) ↦ absurd (let k = rw (e, bind_from) at h in cc)
]

bind_from-first :
    (n first i : ℕ) (tries : ℕ → BindOutcome)
    → first ≤ i
    → i ≤ first + n
    → IsFirst first i tries
    → bind_from n first tries ≡ ok i
unfolding bind_from
bind_from-first zero first i tries low high (found, before) =
    let same : i ≡ first = omega arith in
    let here : tries first ≡ BindOutcome.bound = ap tries (sym same) ∙ found in
    rw (here, bind_from) (ap ok (sym same))
bind_from-first (suc n) first i tries low high (found, before) = elim (Nat-cases first i) [
  | inl same ↦
      let here : tries first ≡ BindOutcome.bound = ap tries same ∙ found in
      rw (here, bind_from) (ap ok same)
  | inr differs ↦
      rw (before first (omega arith) (omega arith), bind_from)
        (bind_from-first n (suc first) i tries (omega arith) (omega arith)
          (found, λ j a b. before j (omega arith) b))
]

-- The constructor binds the port in a round exactly if that is one of the first thirty, its attempt
-- succeeds, and the port is in use in every round before.
bind_first :
    (tries : ℕ → BindOutcome) (i : ℕ)
    → (bind tries ≡ ok i) ↔ (
        (i < 30) × (tries i ≡ BindOutcome.bound) × ((j : ℕ) → j < i → tries j ≡ BindOutcome.in_use))
unfolding bind
bind_first tries i = (
  (λ h.
      let (low, high, (found, before)) = bind_from-ok 29 0 i tries h in
      (omega arith, found, λ j b. before j (omega arith) b)),
  λ (small, found, before).
      bind_from-first 29 0 i tries (omega arith) (omega arith) (found, λ j a b. before j b),
)
