-- ===== src/Primary/Requests/Waits.antt =====
-- A wait returns true only on a package that passes its test.
use elite_robots_cs_sdk.Shared.{
  ℕ, zero, suc, ◌≡◌, refl, sym, ap, ◌∙◌, List, [], ◌∷◌, ◌++◌, Bytes, Bool, true, false, Option,
  none, some, Bool-cases, inl, inr, ◌⊎◌,
}
use elite_robots_cs_sdk.Primary.Packages.{RobotModeData}
use elite_robots_cs_sdk.Primary.Requests.{
  World, Act, ◌>>=◌, return, send_script, robot_mode_package, wait_for, wait_mode, and_wait,
}

-- The last package that was asked for between the two worlds passed the test.
unfoldable pub Seen : (Option RobotModeData → Bool) → World → World → Type 0
Seen test w later =
    (d : RobotModeData) × (test (some d) ≡ true)
    × (before : List (Option RobotModeData)) × (w.robot_modes
        ≡ before ++ (some d ∷ later.robot_modes))

-- One round of a wait.
abbrev poll : (Option RobotModeData → Bool) → Act Bool
poll test = robot_mode_package >>= λ d. return (test d)

poll-on :
    (test : Option RobotModeData → Bool) (w : World) (answer : Option RobotModeData)
    (later : List (Option RobotModeData))
    → w.robot_modes ≡ answer ∷ later
    → poll test w ≡ (test answer, record w { robot_modes = later })
unfolding robot_mode_package
poll-on test w answer later e = rw e

poll-off :
    (test : Option RobotModeData → Bool) (w : World)
    → w.robot_modes ≡ []
    → poll test w ≡ (test none, w)
unfolding robot_mode_package
poll-off test w e = rw e

pub List-cases {ℓ} :
    {A : Type ℓ} (xs : List A) → (xs ≡ []) ⊎ ((x : A) × (ys : List A) × (xs ≡ x ∷ ys))
List-cases [] = inl refl
List-cases (x ∷ xs) = inr (x, xs, refl)

Option-is-some :
    (test : Option RobotModeData → Bool) (o : Option RobotModeData)
    → test none ≡ false
    → test o ≡ true
    → (d : RobotModeData) × (o ≡ some d)
Option-is-some test none blind h = absurd cc
Option-is-some test (some d) blind h = (d, refl)

poll-Seen :
    (test : Option RobotModeData → Bool) (w : World)
    → test none ≡ false
    → (poll test w).0 ≡ true
    → Seen test w (poll test w).1
unfolding Seen
poll-Seen test w blind h = elim (List-cases w.robot_modes) [
  | inl e ↦ absurd (let k = ap (λ x. x.0) (poll-off test w e) in cc)
  | inr (answer, later, e) ↦
      let run = poll-on test w answer later e in
      let (d, same) = Option-is-some test answer blind (sym (ap (λ x. x.0) run) ∙ h) in
      (
        d,
        ap test (sym same) ∙ sym (ap (λ x. x.0) run) ∙ h,
        [],
        e ∙ ap (λ x. x ∷ later) same ∙ ap (λ x. some d ∷ x) (sym (ap (λ x. x.1.robot_modes) run)),
      )
]

-- A package that is seen after a round is seen.
poll-then :
    (test seen : Option RobotModeData → Bool) (w later : World)
    → Seen seen (poll test w).1 later
    → Seen seen w later
unfolding Seen
poll-then test seen w later (d, good, before, e) = elim (List-cases w.robot_modes) [
  | inl none_left ↦
      (d, good, before, sym (ap (λ x. x.1.robot_modes) (poll-off test w none_left)) ∙ e)
  | inr (answer, others, f) ↦ (
    d,
    good,
    answer ∷ before,
    f ∙ ap (λ x. answer ∷ x) (sym (ap (λ x. x.1.robot_modes) (poll-on test w answer others f)) ∙ e),
  )
]

wait_for-Seen :
    (test : Option RobotModeData → Bool) (rounds : ℕ) (w : World)
    → test none ≡ false
    → (wait_for rounds (poll test) w).0 ≡ true
    → Seen test w (wait_for rounds (poll test) w).1
unfolding wait_for
wait_for-Seen test zero w blind h = poll-Seen test w blind h
wait_for-Seen test (suc rounds) w blind h = elim (Bool-cases (poll test w).0) [
  | inl e ↦ rw e (poll-Seen test w blind e)
  | inr e ↦
      rw e (poll-then test test w _ (wait_for-Seen test rounds (poll test w).1 blind (rw e at h)))
]

send_script-keeps :
    (script : Bytes) (w : World) → (send_script script w).1.robot_modes ≡ w.robot_modes
unfolding send_script
send_script-keeps script w = elim (Bool-cases w.has_socket) [
  | inr e ↦ rw e
  | inl e ↦ elim (List-cases w.writes) [
    | inl f ↦ rw (e, f)
    | inr (none, later, f) ↦ rw (e, f)
    | inr (some n, later, f) ↦ rw (e, f)
  ]
]

pub and_wait-sends :
    (script : Bytes) (wait : Act Bool) (w : World) (b : Bool)
    → (send_script script w).0 ≡ b
    → and_wait script wait w
      ≡ (elim b as (λ _. Act Bool) [ false ↦ return false | true ↦ wait ]) (send_script script w).1
unfolding and_wait
and_wait-sends script wait w b e =
    ap
      (λ b.
        (elim b as (λ _. Act Bool) [ false ↦ return false | true ↦ wait ]) (send_script script w).1)
      e

pub and_wait-Seen :
    (script : Bytes) (test : Option RobotModeData → Bool) (w : World)
    → test none ≡ false
    → (and_wait script (wait_mode test) w).0 ≡ true
    → Seen test w (and_wait script (wait_mode test) w).1
unfolding Seen wait_mode
and_wait-Seen script test w blind h = elim (Bool-cases (send_script script w).0) [
  | inr e ↦ absurd (
      let run = and_wait-sends script (wait_mode test) w false e in
      let k = sym (ap (λ x. x.0) run) ∙ h in cc)
  | inl e ↦
      let sent = (send_script script w).1 in
      let run = and_wait-sends script (wait_mode test) w true e in
      let (d, good, before, f) =
        wait_for-Seen test sent.rounds sent blind (sym (ap (λ x. x.0) run) ∙ h) in
      (
        d,
        good,
        before,
        sym (send_script-keeps script w)
            ∙ f
            ∙ ap (λ x. before ++ (some d ∷ x.1.robot_modes)) (sym run),
      )
]

-- A request reads a package first: what is seen behind that is seen, and so is the package itself.
pub first_read :
    (test : Option RobotModeData → Bool) (next : Option RobotModeData → Act Bool) (w : World)
    → test none ≡ false
    → ((d : Option RobotModeData) (v : World)
        → (next d v).0 ≡ true
        → ((test d ≡ true) × ((next d v).1 ≡ v)) ⊎ Seen test v (next d v).1)
    → ((robot_mode_package >>= next) w).0 ≡ true
    → Seen test w ((robot_mode_package >>= next) w).1
unfolding Seen
first_read test next w blind each h =
    let answer = (robot_mode_package w).0 in
    let v = (robot_mode_package w).1 in
    elim (each answer v h) [
      | inr seen ↦ poll-then test test w ((robot_mode_package >>= next) w).1 seen
      | inl (good, still) ↦
          let (d, g, before, f) = poll-Seen test w blind good in
          (d, g, before, f ∙ ap (λ x. before ++ (some d ∷ x.robot_modes)) (sym still))
    ]
