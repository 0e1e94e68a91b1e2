-- ===== src/Driver/Stopping.antt =====
-- What `stopControl` has seen where it returns true.
use elite_robots_cs_sdk.Shared.{
  ℕ, zero, suc, ◌+◌, ◌≡◌, refl, sym, ap, subst, ◌∙◌, Bool, true, false, not, List, Result, ok,
  throws, fault, Bool-cases, inl, inr, arith,
}
use elite_robots_cs_sdk.Shared.Action.{followed, ◌>>=◌, return}
use elite_robots_cs_sdk.Control.Commands.{stop_control}
use elite_robots_cs_sdk.Driver.Session.{
  Link, reverse, trajectory, script_command, Driver, Act, still_connected, stop_loop,
  is_robot_connected, stop_driver,
}

-- Three answers in a row: none of the servers has a robot.
abbrev pub AllLeft : (ℕ → Link → Bool) → ℕ → Type 0
AllLeft links n =
    (links n script_command ≡ false)
    × (links (n + 1) reverse ≡ false)
    × (links (n + 2) trajectory ≡ false)

-- What a question changes: the answers that are to come.
abbrev Moved : ℕ → Driver → Driver → Type 0
Moved n w v = (j : ℕ) → v.links j ≡ w.links (n + j)

-- A wait that returns true.
abbrev Leaves : Driver → Result Bool × Driver → Type 0
Leaves w (ok true, v) = (n : ℕ) × AllLeft w.links n
Leaves w (ok false, v) = Unit {0}
Leaves w (throws e, v) = Unit {0}
Leaves w (fault, v) = Unit {0}

-- What the questions of a round have found.
abbrev Asked : Driver → Result Bool × Driver → Type 0
Asked w (ok true, v) = (n : ℕ) × Moved n w v
Asked w (ok false, v) = AllLeft w.links 0
Asked w (throws e, v) = Unit {0}
Asked w (fault, v) = Unit {0}

still-Asked : (w : Driver) → Asked w (still_connected w)
still-Asked w = elim (Bool-cases (w.links 0 script_command)) [
  | inl a ↦ rw a (1, λ j. ap w.links (omega arith))
  | inr a ↦ elim (Bool-cases (w.links 1 reverse)) [
    | inl b ↦ rw (a, b) (2, λ j. ap w.links (omega arith))
    | inr b ↦ elim (Bool-cases (w.links 2 trajectory)) [
      | inl c ↦ rw (a, b, c) (3, λ j. ap w.links (omega arith))
      | inr c ↦ rw (a, b, c) (a, b, c)
    ]
  ]
]

Leaves-later :
    (n : ℕ) (w v : Driver) (r : Result Bool × Driver) → Moved n w v → Leaves v r → Leaves w r
Leaves-later n w v (ok true, x) m (i, (a, b, c)) = (
  n + i,
  (
    ap (λ f. f script_command) (sym (m i)) ∙ a,
    ap (λ f. f reverse) (ap w.links (omega arith) ∙ sym (m (i + 1))) ∙ b,
    ap (λ f. f trajectory) (ap w.links (omega arith) ∙ sym (m (i + 2))) ∙ c,
  ),
)
Leaves-later n w v (ok false, x) m h = tt
Leaves-later n w v (throws e, x) m h = tt
Leaves-later n w v (fault, x) m h = tt

Asked-Leaves :
    (w : Driver) (later : Act Bool) (r : Result Bool × Driver)
    → Asked w r
    → ((v : Driver) → Leaves v (later v))
    → Leaves w (followed (λ x. elim x as (λ _. Act Bool) [ true ↦ later | false ↦ return true ]) r)
Asked-Leaves w later (ok true, v) (n, m) h = Leaves-later n w v (later v) m (h v)
Asked-Leaves w later (ok false, v) a h = (0, a)
Asked-Leaves w later (throws e, v) a h = tt
Asked-Leaves w later (fault, v) a h = tt

stop_loop-Leaves : (n : ℕ) (w : Driver) → Leaves w (stop_loop n w)
unfolding stop_loop
stop_loop-Leaves zero w = Asked-Leaves w (return false) (still_connected w) (still-Asked w) λ v. tt
stop_loop-Leaves (suc n) w =
    Asked-Leaves w (stop_loop n) (still_connected w) (still-Asked w) (stop_loop-Leaves n)

-- The reverse server after the stop frame, and a write that was taken.
abbrev Stops : List ℕ → Driver → Result Bool × Driver → Type 0
Stops stack w (ok true, v) =
    ((stop_control stack w.whole w.reverse_server).0 ≡ true) × ((n : ℕ) × AllLeft w.links n)
Stops stack w (ok false, v) = Unit {0}
Stops stack w (throws e, v) = Unit {0}
Stops stack w (fault, v) = Unit {0}

ends-Stops :
    (stack : List ℕ) (w : Driver) (r : Result Bool × Driver)
    → (stop_control stack w.whole w.reverse_server).0 ≡ true
    → Leaves w r
    → Stops stack w (
        followed
          (λ left. elim left as (λ _. Act Bool) [
            | false ↦ return false
            | true ↦ is_robot_connected >>= λ b. return (not b)
          ])
          r)
ends-Stops stack w (ok true, v) e h = last (is_robot_connected v)
  where
    last : (r : Result Bool × Driver) → Stops stack w (followed (λ b. return (not b)) r)
    last (ok true, x) = tt
    last (ok false, x) = (e, h)
    last (throws c, x) = tt
    last (fault, x) = tt
ends-Stops stack w (ok false, v) e h = tt
ends-Stops stack w (throws c, v) e h = tt
ends-Stops stack w (fault, v) e h = tt

-- `stopControl` returns true only after the stop frame was written to the robot, and after three answers in a
-- row, in the order of the loop, by which no robot was connected to the script command, the reverse
-- and the trajectory server. This holds however the connections come and go.
pub stop_driver-seen :
    (stack : List ℕ) (w v : Driver)
    → stop_driver stack w ≡ (ok true, v)
    → ((stop_control stack w.whole w.reverse_server).0 ≡ true) × ((n : ℕ) × AllLeft w.links n)
unfolding stop_driver
stop_driver-seen stack w v e = subst (Stops stack w) e (by_write _ refl)
  where
    after_stop : Driver
    after_stop = record w { reverse_server = (stop_control stack w.whole w.reverse_server).1 }

    by_write :
        (sent : Bool)
        → (stop_control stack w.whole w.reverse_server).0 ≡ sent
        → Stops stack w (
            elim sent as (λ _. Act Bool) [
              | false ↦ return false
              | true ↦ (λ w. stop_loop w.rounds w) >>= λ left. elim left as (λ _. Act Bool) [
                | false ↦ return false
                | true ↦ is_robot_connected >>= λ b. return (not b)
              ]
            ]
              after_stop)
    by_write true f = ends-Stops stack w (stop_loop w.rounds after_stop) f (
        Leaves-later 0 w after_stop (stop_loop w.rounds after_stop) (λ j. ap w.links (omega arith))
          (stop_loop-Leaves w.rounds after_stop))
    by_write false f = tt
