-- ===== src/Primary/Requests/Sends.antt =====
-- When `brakeRelease` and `setSpeedScaling` write to the robot.
use elite_robots_cs_sdk.Shared.{
  ℕ, ◌≤◌, ◌≡◌, ◌≢◌, refl, ◌∙◌, Bool, true, false, ◌||◌, none, ltb, ltb→le, inl, inr, ◌⊎◌, ℤ, pos,
  negsuc, codes,
}
use elite_robots_cs_sdk.Primary.Requests.{
  World, ◌>>=◌, return, robot_mode_package, master_board_package, wait_mode, and_wait, is_mode,
  mode_of, safety_of, is_unknown, is_released, release_idle, release_mode, release_known, release,
  brake_release,
}
use elite_robots_cs_sdk.Primary.Requests.Scaling.{scale_known, scale_in_range, set_speed_scaling}
use elite_robots_cs_sdk.Primary.Requests.Waits.{List-cases}
use elite_robots_cs_sdk.Primary.Requests.Guards.{by_bool}

mode_quiet : (w : World) → (robot_mode_package w).1.sent ≡ w.sent
unfolding robot_mode_package
mode_quiet w = elim (List-cases w.robot_modes) [ inl e ↦ rw e | inr (b, bs, e) ↦ rw e ]

board_quiet : (w : World) → (master_board_package w).1.sent ≡ w.sent
unfolding master_board_package
board_quiet w = elim (List-cases w.master_boards) [ inl e ↦ rw e | inr (b, bs, e) ↦ rw e ]

-- `brakeRelease` writes nothing, unless it read the mode IDLE and a safety mode NORMAL, REDUCED or
-- RECOVERY.
pub brake_release-sends :
    (w : World)
    → ((brake_release w).1.sent ≡ w.sent)
      ⊎ (((robot_mode_package w).0 ≢ none)
          × (is_mode 5 (mode_of (robot_mode_package w).0) ≡ true)
          × ((is_mode 1 (safety_of (master_board_package (robot_mode_package w).1).0)
                || is_mode 2 (safety_of (master_board_package (robot_mode_package w).1).0)
                || is_mode 4 (safety_of (master_board_package (robot_mode_package w).1).0))
              ≡ true))
unfolding brake_release release release_known release_mode release_idle
brake_release-sends w =
    let m = mode_of (robot_mode_package w).0 in
    let v = (robot_mode_package w).1 in
    let s = safety_of (master_board_package v).0 in
    let goal = λ (r : Bool × World).
      (r.1.sent ≡ w.sent)
      ⊎ (((robot_mode_package w).0 ≢ none)
          × (is_mode 5 m ≡ true)
          × ((is_mode 1 s || is_mode 2 s || is_mode 4 s) ≡ true)) in
    by_bool (is_unknown m) (return false) (release_known m) v goal (λ _. inl (mode_quiet w))
      (λ _.
        by_bool (is_mode 7 m) (return true) (release_mode m) v goal (λ _. inl (mode_quiet w))
          (λ _.
            by_bool (is_mode 5 m) release_idle (return false) v goal
              (λ idle.
                by_bool (is_mode 1 s || is_mode 2 s || is_mode 4 s)
                  (and_wait (codes "set robotmode run") (wait_mode is_released)) (return false)
                  (master_board_package v).1 goal
                  (λ safe. inr ((λ e. absurd (let k = rw e at idle in cc)), idle, safe))
                  (λ _. inl (board_quiet v ∙ mode_quiet w)))
              (λ _. inl (mode_quiet w))))

-- `setSpeedScaling` writes nothing, unless the scaling is from 0 to 100 and the robot's mode was read.
pub set_speed_scaling-sends :
    (percent : ℕ → ℤ) (scaling : ℤ) (w : World)
    → ((set_speed_scaling percent scaling w).1.sent ≡ w.sent)
      ⊎ ((n : ℕ) × (scaling ≡ pos n)
          × (n ≤ 100)
          × (is_unknown (mode_of (robot_mode_package w).0) ≡ false))
unfolding set_speed_scaling scale_in_range
set_speed_scaling-sends percent (negsuc n) w = inl refl
set_speed_scaling-sends percent (pos n) w =
    let m = mode_of (robot_mode_package w).0 in
    let v = (robot_mode_package w).1 in
    let goal = λ (r : Bool × World).
      (r.1.sent ≡ w.sent) ⊎ ((k : ℕ) × (pos n ≡ pos k) × (k ≤ 100) × (is_unknown m ≡ false)) in
    by_bool (ltb 100 n) (return false) (robot_mode_package >>= scale_in_range percent n) w goal
      (λ _. inl refl)
      (λ small.
        by_bool (is_unknown m) (return false) (scale_known percent n) v goal
          (λ _. inl (mode_quiet w)) (λ known. inr (n, refl, ltb→le 100 n small, known)))
