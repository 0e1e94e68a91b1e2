-- ===== src/Primary/Requests/Tests.antt =====
-- Properties of the requests at a concrete robot.
use elite_robots_cs_sdk.Shared.{
  ℕ, ◌≤◌, ◌≡◌, ◌≢◌, refl, [], ◌∷◌, true, false, ◌||◌, none, some, ◌⊎◌, ℤ, pos,
}
use elite_robots_cs_sdk.Primary.Packages.{RobotModeData}
use elite_robots_cs_sdk.Primary.Requests.{
  World, robot_mode_package, master_board_package, send_script, wait_for, wait_mode, is_mode,
  is_unknown, mode_of, safety_of, power_on, brake_release,
}
use elite_robots_cs_sdk.Primary.Requests.Scaling.{set_speed_scaling}
use elite_robots_cs_sdk.Primary.Requests.Waits.{Seen}
use elite_robots_cs_sdk.Primary.Requests.Guards.{Request, request, aim, requests-Seen}
use elite_robots_cs_sdk.Primary.Requests.Sends.{brake_release-sends, set_speed_scaling-sends}

abbrev in_mode : ℕ → RobotModeData
in_mode n = record {
  timestamp = 0;
  is_robot_power_on = true;
  is_emergency_stopped = false;
  is_robot_protective_stopped = false;
  is_task_running = false;
  is_task_paused = false;
  robot_mode = pos n;
  robot_control_mode = 0;
  target_speed_fraction = 0;
  speed_scaling = 0;
  target_speed_fraction_limit = 0;
  robot_speed_mode = 0;
  is_in_package_mode = false;
}

-- The robot is off, and after two packages it is idle.
abbrev waking : World
waking = record {
  robot_modes = some (in_mode 3) ∷ none ∷ some (in_mode 4) ∷ some (in_mode 5) ∷ [];
  master_boards = [];
  has_socket = true;
  writes = [];
  sent = [];
  rounds = 5;
}

-- The robot is idle, its safety mode is normal, and it starts to run.
abbrev releasing : World
releasing = record waking {
  robot_modes = some (in_mode 5) ∷ some (in_mode 5) ∷ some (in_mode 7) ∷ [];
  master_boards =
      some (record {
        safety_mode = pos 1;
        is_robot_in_reduced_mode = false;
        operational_mode_selector_input = false;
        threeposition_enabling_device_input = false;
        internal_use = 0;
      })
      ∷ [];
}

-- A stand-in for the rounded percentage.
abbrev percent_of : ℕ → ℤ
percent_of x = pos x

wakes : (request percent_of Request.on waking).0 ≡ true
unfolding power_on robot_mode_package send_script wait_mode wait_for
wakes = refl

requests-Seen_example :
    Seen (aim percent_of Request.on) waking (request percent_of Request.on waking).1
requests-Seen_example = requests-Seen percent_of Request.on waking wakes

brake_release-sends_example :
    ((brake_release releasing).1.sent ≡ releasing.sent)
    ⊎ (((robot_mode_package releasing).0 ≢ none)
        × (is_mode 5 (mode_of (robot_mode_package releasing).0) ≡ true)
        × ((is_mode 1 (safety_of (master_board_package (robot_mode_package releasing).1).0)
              || is_mode 2 (safety_of (master_board_package (robot_mode_package releasing).1).0)
              || is_mode 4 (safety_of (master_board_package (robot_mode_package releasing).1).0))
            ≡ true))
brake_release-sends_example = brake_release-sends releasing

set_speed_scaling-sends_example :
    ((set_speed_scaling percent_of (pos 50) releasing).1.sent ≡ releasing.sent)
    ⊎ ((n : ℕ) × (pos 50 ≡ pos n)
        × (n ≤ 100)
        × (is_unknown (mode_of (robot_mode_package releasing).0) ≡ false))
set_speed_scaling-sends_example = set_speed_scaling-sends percent_of (pos 50) releasing
