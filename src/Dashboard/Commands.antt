-- ===== src/Dashboard/Commands.antt =====
-- The dashboard's commands that act on the robot.
use elite_robots_cs_sdk.Shared.{
  ℕ, zero, suc, [], ◌∷◌, ◌++◌, Bytes, Bool, false, Option, none, some, if◌then◌else◌, bytes_eq,
  codes, illegal_param, length, take, drop, or_fault,
}
use elite_robots_cs_sdk.Shared.Action.{◌>>=◌, return, throw, lift}
use elite_robots_cs_sdk.Text.{find}
use elite_robots_cs_sdk.Dashboard.Regex.{Pattern, one, many, seq, either, dot, space, literal, text}
use elite_robots_cs_sdk.Dashboard.{
  Act, send_and_request, wait_for_reply, disconnect_dashboard, is_answer,
}

-- A text that ends a line, and one that ends it as the robot does.
abbrev pub line : Bytes → Bytes
line cs = cs ++ (10 ∷ [])

abbrev pub crlf : Bytes → Bytes
crlf cs = cs ++ (13 ∷ 10 ∷ [])

-- A request whose answer must not be empty.
abbrev pub answered : Bytes → Pattern → Act Bool
answered cmd expected = do
  response ← send_and_request cmd (some expected)
  return (is_answer response)

-- A command that goes on only with an answer.
abbrev pub if_answered : Bytes → Pattern → Act Bool → Act Bool
if_answered cmd expected next = do
  response ← send_and_request cmd (some expected)
  if is_answer response then next else return false

abbrev pub releasing : Pattern
releasing =
    literal (codes "Brake ") (
      seq (either (literal (codes "Releasing") (many dot)) (text (codes "is released"))) (many dot))

unfoldable pub brake_release : Act Bool
unfolding wait_for_reply
brake_release =
    if_answered (line (codes "brakeRelease")) releasing
      (wait_for_reply (line (codes "robotMode")) (text (crlf (codes "robotMode: RUNNING"))))

unfoldable pub close_safety_dialog : Act Bool
close_safety_dialog =
    answered (line (codes "closeSafetyDialog"))
      (literal (codes "closing ") (seq (many dot) (text (crlf (codes " dialog")))))

-- The dots of these three answers are dots of the pattern.
unfoldable pub echo : Act Bool
echo =
    answered (line (codes "echo"))
      (literal (codes "Hello ELITE ROBOTS") (seq (one dot) (text (crlf []))))

-- The loop that replaces a byte by a backslash and a letter, from the position of the first on.
-- The fuel bounds the rounds, and `none` means that it ran out.
unfoldable pub escape_loop : ℕ → ℕ → Bytes → Bytes → Option ℕ → Option Bytes
unfolding find
escape_loop fuel byte by text_ none = some text_
escape_loop zero byte by text_ (some found) = none
escape_loop (suc fuel) byte by text_ (some found) =
    let replaced = take found text_ ++ (by ++ drop (suc found) text_) in
    escape_loop fuel byte by replaced (find (byte ∷ []) replaced found)

unfoldable pub escape : ℕ → Bytes → Bytes → Option Bytes
unfolding escape_loop
escape byte by message = escape_loop (length message) byte by message (find (byte ∷ []) message 0)

-- The two loops of `log`.
unfoldable pub escaped : Bytes → Option Bytes
unfolding escape
escaped message = elim (escape 10 (codes "\\n") message) [
  | none ↦ none
  | some text_ ↦ escape 13 (codes "\\r") text_
]

-- The request of `log`; the dot of the answer is a dot of the pattern.
abbrev pub log_added : Pattern
log_added = literal (codes "Log has been added") (seq (one dot) (text (crlf [])))

unfoldable pub log : Bytes → Act Bool
unfolding escaped
log message = do
  message_cpy ← lift (or_fault (escaped message))
  answered (line (codes "log -a " ++ message_cpy)) log_added

unfoldable pub popup : Bytes → Bytes → Act Bool
popup arg message =
    if bytes_eq arg (codes "-c")
    then popped (codes "popup " ++ line arg)
    else if bytes_eq arg (codes "-s")
    then popped (codes "popup " ++ (arg ++ line message))
    else throw illegal_param
  where
    popped : Bytes → Act Bool
    popped cmd = answered cmd (
        either (text (crlf (codes "Closing popup")))
          (literal (codes "Showing popup with text:") (seq (many dot) (many space))))

-- `quit`, `reboot` and `shutdown`.
abbrev pub leave : Bytes → Act (Unit {0})
leave cmd = send_and_request (line cmd) none >>= λ _. disconnect_dashboard

unfoldable pub quit : Act (Unit {0})
quit = leave (codes "quit")

unfoldable pub reboot : Act (Unit {0})
reboot = leave (codes "reboot")

unfoldable pub shutdown : Act (Unit {0})
shutdown = leave (codes "shutdown")

unfoldable pub power_on_robot : Act Bool
unfolding send_and_request wait_for_reply
power_on_robot = do
  response ←
      send_and_request (line (codes "robotControl -on")) (some (text (crlf (codes "Powering on"))))
  wait_for_reply (line (codes "robotMode")) (
      literal (codes "robotMode: ")
        (seq (either (text (codes "RUNNING")) (text (codes "IDLE"))) (text (crlf []))))

unfoldable pub power_off_robot : Act Bool
unfolding send_and_request wait_for_reply
power_off_robot = do
  response ←
      send_and_request (line (codes "robotControl -off"))
        (some (text (crlf (codes "Powering off"))))
  wait_for_reply (line (codes "robotMode")) (text (crlf (codes "robotMode: POWER_OFF")))

abbrev pub restarting : Pattern
restarting = literal (codes "Restarting safety board") (many dot)

unfoldable pub restart_safety_system : Act Bool
unfolding send_and_request wait_for_reply
restart_safety_system = do
  response ← send_and_request (line (codes "safety -r")) (some restarting)
  wait_for_reply (line (codes "safety -m")) (text (crlf (codes "Safety mode: NORMAL")))

-- The dots of the answer are dots of the pattern.
unfoldable pub unlock_stop : Act Bool
unlock_stop = answered (line (codes "unlockProtectiveStop")) (
    literal (codes "Protective stop unlocking")
      (seq (one dot) (seq (one dot) (seq (one dot) (text (crlf []))))))

-- `playProgram`, `pauseProgram` and `stopProgram`: the answer is compared as a whole.
abbrev pub task_command : Bytes → Bytes → Bytes → Act Bool
task_command cmd answer state = do
  request ← send_and_request (line cmd) none
  if bytes_eq request (crlf answer)
      then wait_for_reply (line (codes "task -s")) (text (crlf state))
      else return false

unfoldable pub play_task : Act Bool
play_task = task_command (codes "play") (codes "Starting task") (codes "Task is running")

unfoldable pub pause_task : Act Bool
pause_task = task_command (codes "pause") (codes "Pausing task") (codes "Task is paused")

unfoldable pub stop_task : Act Bool
stop_task = task_command (codes "stop") (codes "Stopping task") (codes "Task is stopped")
