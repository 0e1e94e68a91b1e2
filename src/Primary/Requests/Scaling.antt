-- ===== src/Primary/Requests/Scaling.antt =====
-- `setSpeedScaling` of PrimaryPort (source/Primary/PrimaryPort.cpp).
use elite_robots_cs_sdk.Shared.{
  ℕ, ◌+◌, ◌/◌, ◌%◌, [], ◌∷◌, ◌++◌, Bytes, codes, Bool, true, false, Option, none, some, ltb, ◌==◌,
  ℤ, pos, negsuc,
}
use elite_robots_cs_sdk.Primary.Packages.{RobotModeData}
use elite_robots_cs_sdk.Primary.Requests.{
  Act, ◌>>=◌, return, robot_mode_package, wait_mode, and_wait, is_unknown, mode_of,
}

-- A scaling from 0 to 100 over 100.0, with two digits behind the point.
abbrev pub fraction : ℕ → Bytes
fraction scaling = (48 + scaling / 100) ∷ b'.' ∷ (48 + scaling / 10 % 10) ∷ (48 + scaling % 10) ∷ []

abbrev pub is_int : ℕ → ℤ → Bool
is_int n (pos m) = m == n
is_int n (negsuc m) = false

-- `percent` is `static_cast<int>(std::round(x * 100.0))` on the pattern of a double.
module _ (percent : ℕ → ℤ) where
  abbrev pub is_scaled : ℕ → Option RobotModeData → Bool
  is_scaled scaling none = false
  is_scaled scaling (some d) = is_int scaling (percent d.target_speed_fraction)

  unfoldable pub scale_known : ℕ → Act Bool
  unfolding and_wait wait_mode
  scale_known scaling =
      and_wait (codes "set speed " ++ fraction scaling) (wait_mode (is_scaled scaling))

  unfoldable pub scale_in_range : ℕ → Option RobotModeData → Act Bool
  unfolding scale_known
  scale_in_range scaling d = elim (is_unknown (mode_of d)) as (λ _. Act Bool) [
    | true ↦ return false
    | false ↦ scale_known scaling
  ]

  unfoldable pub set_speed_scaling : ℤ → Act Bool
  unfolding scale_in_range robot_mode_package
  set_speed_scaling (negsuc n) = return false
  set_speed_scaling (pos scaling) = elim (ltb 100 scaling) as (λ _. Act Bool) [
    | true ↦ return false
    | false ↦ robot_mode_package >>= scale_in_range scaling
  ]
