-- ===== src/Primary/Requests.antt =====
-- The requests of PrimaryPort: `sendScript` and `powerOn` to `setSpeedScaling`.
pub mod Scaling
pub mod Waits
pub mod Guards
pub mod Sends
mod Tests
use elite_robots_cs_sdk.Shared.{
  ℕ, zero, suc, ◌+◌, ◌/◌, ◌%◌, List, [], ◌∷◌, ◌++◌, Bytes, codes, Bool, true, false, not, ◌&&◌,
  ◌||◌, Option, none, some, leb, ltb, ◌==◌, if◌then◌else◌, take, ℤ, pos, negsuc,
}
use elite_robots_cs_sdk.Primary.Packages.{RobotModeData, MasterBoardData}

-- What a request meets: the answer of each `getPackage` for the robot's mode and for the master board
-- (`none` where it returns false, and behind the end), whether a socket is there, how many bytes each
-- `write_some` takes (`none` for an error; behind the end all), what was written, and how many rounds
-- the clock gives a wait before its deadline.
pub record World : Type 0 where
  pub robot_modes : List (Option RobotModeData)
  pub master_boards : List (Option MasterBoardData)
  pub has_socket : Bool
  pub writes : List (Option ℕ)
  pub sent : Bytes
  pub rounds : ℕ

abbrev pub Act : Type 0 → Type 0
Act A = World → A × World

infixl 5 ◌>>=◌
abbrev pub ◌>>=◌ : {A B : Type 0} → Act A → (A → Act B) → Act B
◌>>=◌ m f w = f (m w).0 (m w).1

abbrev pub return : {A : Type 0} → A → Act A
return a w = (a, w)

unfoldable pub send_script : Bytes → Act Bool
send_script script w =
    if w.has_socket
    then (elim w.writes [
      | [] ↦ (true, record w { sent = w.sent ++ (script ++ (10 ∷ [])) })
      | none ∷ later ↦ (false, record w { writes = later })
      | some n ∷ later ↦
          (true, record w { writes = later; sent = w.sent ++ take n (script ++ (10 ∷ [])) })
    ])
    else (false, w)

-- `getPackage` with a new package.
unfoldable pub robot_mode_package : Act (Option RobotModeData)
robot_mode_package w = elim w.robot_modes [
  | [] ↦ (none, w)
  | answer ∷ later ↦ (answer, record w { robot_modes = later })
]

unfoldable pub master_board_package : Act (Option MasterBoardData)
master_board_package w = elim w.master_boards [
  | [] ↦ (none, w)
  | answer ∷ later ↦ (answer, record w { master_boards = later })
]

-- RobotMode and SafetyMode.
abbrev pub is_mode : ℕ → ℤ → Bool
is_mode n (pos m) = m == n
is_mode n (negsuc m) = false

abbrev pub unknown_mode : ℤ
unknown_mode = negsuc 1

abbrev pub is_unknown : ℤ → Bool
is_unknown (pos m) = false
is_unknown (negsuc m) = m == 1

abbrev pub is_on : ℤ → Bool
is_on m = is_mode 5 m || is_mode 7 m

abbrev pub mode_of : Option RobotModeData → ℤ
mode_of none = unknown_mode
mode_of (some d) = d.robot_mode

abbrev pub safety_of : Option MasterBoardData → ℤ
safety_of none = unknown_mode
safety_of (some d) = d.safety_mode

pub data TaskStatus : Type 0 where
  unknown playing paused stopped : TaskStatus

abbrev pub status_of : Option RobotModeData → TaskStatus
status_of none = TaskStatus.unknown
status_of (some d) =
    if d.is_task_paused
    then TaskStatus.paused
    else (if d.is_task_running then TaskStatus.playing else TaskStatus.stopped)

abbrev pub is_paused : TaskStatus → Bool
is_paused TaskStatus.paused = true
is_paused _ = false

abbrev pub is_stopped : TaskStatus → Bool
is_stopped TaskStatus.stopped = true
is_stopped _ = false

-- `waitFor`, while the clock gives rounds.
unfoldable pub wait_for : ℕ → Act Bool → Act Bool
wait_for zero predicate w = predicate w
wait_for (suc rounds) predicate w =
    let later = wait_for rounds predicate (predicate w).1 in
    if (predicate w).0 then (true, (predicate w).1) else later

-- `waitFor` on a test of the robot's mode package, or on the master board's.
unfoldable pub wait_mode : (Option RobotModeData → Bool) → Act Bool
unfolding robot_mode_package wait_for
wait_mode test w = wait_for w.rounds (robot_mode_package >>= λ d. return (test d)) w

unfoldable pub wait_board : (Option MasterBoardData → Bool) → Act Bool
unfolding master_board_package wait_for
wait_board test w = wait_for w.rounds (master_board_package >>= λ d. return (test d)) w

-- A script, and then a wait if it was sent.
abbrev pub and_wait : Bytes → Act Bool → Act Bool
unfolding send_script
and_wait script wait =
    send_script script >>= λ done. elim done [ false ↦ return false | true ↦ wait ]

unfoldable pub power_on : Act Bool
unfolding and_wait wait_mode robot_mode_package
power_on = robot_mode_package >>= λ d. elim (is_on (mode_of d)) [
  | true ↦ return true
  | false ↦ and_wait (codes "power on") (wait_mode λ d'. is_on (mode_of d'))
]

unfoldable pub power_off : Act Bool
unfolding and_wait wait_mode
power_off = and_wait (codes "power off") (wait_mode λ d. is_mode 3 (mode_of d))

-- `brakeRelease` once the mode is IDLE, and for the modes before.
abbrev pub is_released : Option RobotModeData → Bool
is_released d = is_mode 7 (mode_of d)

unfoldable pub release_idle : Act Bool
unfolding and_wait wait_mode master_board_package
release_idle = master_board_package >>= λ b.
    elim (is_mode 1 (safety_of b) || is_mode 2 (safety_of b) || is_mode 4 (safety_of b))
      as (λ _. Act Bool) [
        | true ↦ and_wait (codes "set robotmode run") (wait_mode is_released)
        | false ↦ return false
      ]

unfoldable pub release_mode : ℤ → Act Bool
unfolding release_idle
release_mode m = elim (is_mode 5 m) as (λ _. Act Bool) [
  | true ↦ release_idle
  | false ↦ return false
]

unfoldable pub release_known : ℤ → Act Bool
unfolding release_mode
release_known m = elim (is_mode 7 m) as (λ _. Act Bool) [
  | true ↦ return true
  | false ↦ release_mode m
]

unfoldable pub release : ℤ → Act Bool
unfolding release_known
release m = elim (is_unknown m) as (λ _. Act Bool) [ true ↦ return false | false ↦ release_known m ]

unfoldable pub brake_release : Act Bool
unfolding robot_mode_package release
brake_release = robot_mode_package >>= λ d. release (mode_of d)

unfoldable pub pause_as : TaskStatus → Act Bool
unfolding and_wait wait_mode
pause_as TaskStatus.unknown = return false
pause_as TaskStatus.paused = return true
pause_as TaskStatus.stopped = return false
pause_as TaskStatus.playing = and_wait (codes "pause task") (wait_mode λ d. is_paused (status_of d))

unfoldable pub pause_program : Act Bool
unfolding pause_as robot_mode_package
pause_program = robot_mode_package >>= λ d. pause_as (status_of d)

unfoldable pub stop_as : TaskStatus → Act Bool
unfolding and_wait wait_mode
stop_as TaskStatus.unknown = return false
stop_as TaskStatus.stopped = return true
stop_as _ = and_wait (codes "stop task") (wait_mode λ d. is_stopped (status_of d))

unfoldable pub stop_program : Act Bool
unfolding stop_as robot_mode_package
stop_program = robot_mode_package >>= λ d. stop_as (status_of d)

abbrev pub is_unlocked : Option RobotModeData → Bool
is_unlocked none = false
is_unlocked (some d) = not d.is_robot_protective_stopped

unfoldable pub unlock_with : Option RobotModeData → Act Bool
unfolding and_wait wait_mode
unlock_with none = return false
unlock_with (some _) = and_wait (codes "set unlock protective stop") (wait_mode is_unlocked)

unfoldable pub unlock_protective_stop : Act Bool
unfolding unlock_with robot_mode_package
unlock_protective_stop = robot_mode_package >>= unlock_with

unfoldable pub safety_system_restart : Act Bool
unfolding and_wait wait_board
safety_system_restart =
    and_wait (codes "restart safetyboard") (wait_board λ b. is_mode 1 (safety_of b))
