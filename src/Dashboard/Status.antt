-- ===== src/Dashboard/Status.antt =====
-- The dashboard's commands that ask for the robot's state.
use elite_robots_cs_sdk.Shared.{
  ℕ, ◌+◌, ◌-◌, ◌++◌, Bytes, Bool, true, false, Option, none, some, Result, ok, throws,
  if◌then◌else◌, leb, bytes_eq, codes, drop, length, out_of_range, ℤ, pos, negsuc, ltb_ℤ, not, ◌&&◌,
}
use elite_robots_cs_sdk.Shared.Action.{◌>>=◌, return, lift}
use elite_robots_cs_sdk.Text.{find}
use elite_robots_cs_sdk.Version.Decimal.{stoi, int_to_string}
use elite_robots_cs_sdk.Primary.Requests.{TaskStatus, unknown_mode}
use elite_robots_cs_sdk.Dashboard.Regex.{many, dot, literal}
use elite_robots_cs_sdk.Dashboard.{Act, send_and_request}
use elite_robots_cs_sdk.Dashboard.Commands.{line}

-- `substr(pos)`.
abbrev pub substr_from : Bytes → ℕ → Result Bytes
substr_from s start = if leb start (length s) then ok (drop start s) else throws out_of_range

-- `pos + n` for a position that `find` gives: npos is the largest size_t, so that the sum wraps.
abbrev pub pos_plus : ℕ → Option ℕ → ℕ
pos_plus n none = n - 1
pos_plus n (some i) = i + n

-- What stands behind ": " in an answer.
unfoldable pub behind_colon : Bytes → Result Bytes
unfolding find
behind_colon request = substr_from request (pos_plus 2 (find (codes ": ") request 0))

-- A request for an answer that begins with a text, up to the end of the line.
abbrev pub ask : Bytes → Bytes → Act Bytes
ask cmd front = send_and_request (line cmd) (some (literal front (many dot)))

-- A request without an expectation.
abbrev pub ask_all : Bytes → Act Bytes
ask_all cmd = send_and_request (line cmd) none

unfoldable pub help : Bytes → Act Bytes
help cmd = ask_all (codes "help " ++ cmd)

unfoldable pub usage : Bytes → Act Bytes
usage cmd = ask_all (codes "usage " ++ cmd)

-- `robot` and `robotType`.
unfoldable pub robot_type : Act Bytes
robot_type = ask_all (codes "robot -t")

unfoldable pub robot_serial_number : Act Bytes
robot_serial_number = ask_all (codes "robot -s")

unfoldable pub robot_id : Act Bytes
robot_id = ask_all (codes "robot -id")

unfoldable pub version : Act Bytes
version = ask_all (codes "version")

unfoldable pub speed_scaling : Act ℤ
unfolding behind_colon stoi
speed_scaling = do
  request ← ask (codes "status") (codes "Target Speed Fraction:")
  value ← lift (behind_colon request)
  lift (stoi value)

abbrev eq_ℤ : ℤ → ℤ → Bool
eq_ℤ a b = not (ltb_ℤ a b) && not (ltb_ℤ b a)

unfoldable pub request_speed_scaling : ℤ → Act Bool
unfolding speed_scaling int_to_string
request_speed_scaling scaling = do
  response ← ask_all (codes "speed -v " ++ int_to_string scaling)
  value ← speed_scaling
  return (eq_ℤ value scaling)

-- The modes by number, as in RobotMode and SafetyMode; -2 is UNKNOWN.
unfoldable pub robot_mode_of : Bytes → ℤ
robot_mode_of mode =
    if bytes_eq mode (codes "NO_CONTROLLER")
    then negsuc 0
    else if bytes_eq mode (codes "DISCONNECTED")
    then pos 0
    else if bytes_eq mode (codes "CONFIRM_SAFETY")
    then pos 1
    else if bytes_eq mode (codes "BOOTING")
    then pos 2
    else if bytes_eq mode (codes "POWER_OFF")
    then pos 3
    else if bytes_eq mode (codes "POWER_ON")
    then pos 4
    else if bytes_eq mode (codes "IDLE")
    then pos 5
    else if bytes_eq mode (codes "BACK_DRIVE")
    then pos 6
    else if bytes_eq mode (codes "RUNNING")
    then pos 7
    else if bytes_eq mode (codes "UPDATING")
    then pos 8
    else if bytes_eq mode (codes "WAITING_CALIBRATION")
    then pos 9
    else unknown_mode

unfoldable pub robot_mode : Act ℤ
unfolding behind_colon robot_mode_of
robot_mode = do
  request ← ask (codes "robotMode") (codes "robotMode:")
  mode ← lift (behind_colon request)
  return (robot_mode_of mode)

unfoldable pub safety_mode_of : Bytes → ℤ
safety_mode_of status =
    if bytes_eq status (codes "NORMAL")
    then pos 1
    else if bytes_eq status (codes "REDUCED")
    then pos 2
    else if bytes_eq status (codes "PROTECTIVE_STOP")
    then pos 3
    else if bytes_eq status (codes "RECOVERY")
    then pos 4
    else if bytes_eq status (codes "SAFEGUARD_STOP")
    then pos 5
    else if bytes_eq status (codes "SYSTEM_EMERGENCY_STOP")
    then pos 6
    else if bytes_eq status (codes "ROBOT_EMERGENCY_STOP")
    then pos 7
    else if bytes_eq status (codes "VIOLATION")
    then pos 8
    else if bytes_eq status (codes "FAULT")
    then pos 9
    else if bytes_eq status (codes "VALIDATE_JOINT_ID")
    then pos 10
    else if bytes_eq status (codes "UNDEFINED_SAFETY_MODE")
    then pos 11
    else if bytes_eq status (codes "AUTOMATIC_MODE_SAFEGUARD_STOP")
    then pos 12
    else if bytes_eq status (codes "SYSTEM_THREE_POSITION_ENABLING_STOP")
    then pos 13
    else if bytes_eq status (codes "TP_THREE_POSITION_ENABLING_STOP")
    then pos 14
    else unknown_mode

unfoldable pub safety_mode : Act ℤ
unfolding behind_colon safety_mode_of
safety_mode = do
  request ← ask (codes "safety -s") (codes "Safety status:")
  status ← lift (behind_colon request)
  return (safety_mode_of status)

-- `find` of a text that is there.
abbrev pub has : Bytes → Bytes → Bool
has needle s = elim (find needle s 0) [ none ↦ false | some i ↦ true ]

unfoldable pub running_status_of : Bytes → TaskStatus
running_status_of status =
    if has (codes "STOP") status
    then TaskStatus.stopped
    else if has (codes "RUNNING") status
    then TaskStatus.playing
    else if has (codes "PAUSE") status
    then TaskStatus.paused
    else TaskStatus.stopped

unfoldable pub running_status : Act TaskStatus
unfolding behind_colon running_status_of
running_status = do
  request ← ask (codes "status") (codes "RunningStatus:")
  status ← lift (behind_colon request)
  return (running_status_of status)
