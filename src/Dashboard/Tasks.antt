-- ===== src/Dashboard/Tasks.antt =====
-- The dashboard's commands on configurations and tasks.
use elite_robots_cs_sdk.Shared.{
  ℕ, ◌+◌, ◌-◌, ◌%◌, ◌^◌, [], ◌∷◌, ◌++◌, Bytes, Bool, true, false, not, ◌||◌, ◌==◌, none, some,
  if◌then◌else◌, bytes_eq, codes, length,
}
use elite_robots_cs_sdk.Shared.Action.{◌>>=◌, return, lift}
use elite_robots_cs_sdk.Text.{find, substr}
use elite_robots_cs_sdk.Primary.Requests.{TaskStatus}
use elite_robots_cs_sdk.Dashboard.Regex.{Pattern, empty, one, many, seq, dot, exactly, literal}
use elite_robots_cs_sdk.Dashboard.{Act, wait_for_reply}
use elite_robots_cs_sdk.Dashboard.Commands.{line, crlf, if_answered}
use elite_robots_cs_sdk.Dashboard.Status.{ask, ask_all, has, substr_from, pos_plus}

-- A path stands in a pattern as it is: its dots are dots of the pattern. What its other special
-- characters mean is a parameter.
abbrev pub is_special : ℕ → Bool
is_special c =
    (c == 92)
    || (c == 94)
    || (c == 36)
    || (c == 42)
    || (c == 43)
    || (c == 63)
    || (c == 40)
    || (c == 41)
    || (c == 91)
    || (c == 93)
    || (c == 123)
    || (c == 125)
    || (c == 124)

abbrev pub is_plain : Bytes → Bool
is_plain [] = true
is_plain (c ∷ cs) = if is_special c then false else is_plain cs

abbrev pub dotted : Bytes → Pattern → Pattern
dotted [] p = p
dotted (c ∷ cs) p = seq (one (if c == 46 then dot else exactly c)) (dotted cs p)

unfoldable pub pattern_of : (Bytes → Pattern) → Bytes → Pattern
pattern_of special s = if is_plain s then dotted s empty else special s

unfoldable pub load_configuration : (Bytes → Pattern) → Bytes → Act Bool
unfolding pattern_of wait_for_reply
load_configuration special path =
    if_answered (codes "configuration -p " ++ line path)
      (literal (codes "Loading Configuration :") (many dot))
      (wait_for_reply (line (codes "configuration"))
        (pattern_of special (codes "configuration: Relative path:" ++ crlf path)))

unfoldable pub configuration_path : Act Bytes
unfolding find
configuration_path = do
  request ← ask (codes "configuration") (codes "configuration: Relative path:")
  lift (substr_from request (pos_plus 14 (find (codes "Relative path:") request 0)))

unfoldable pub is_configuration_modify : Act Bool
is_configuration_modify = do
  request ← ask_all (codes "configuration -s")
  return (not (has (codes "not modified") request))

-- `request.length() - kw_size - 2` is a size_t.
unfoldable pub task_path_of : Bytes → Bytes
unfolding find
task_path_of request = elim (find (codes "Relative path:") request 0) [
  | none ↦ request
  | some i ↦ substr request (i + 14) ((length request + 2 ^ 64 - 16) % 2 ^ 64)
]

unfoldable pub get_task_path : Act Bytes
unfolding task_path_of
get_task_path = do request ← ask_all (codes "task"); return (task_path_of request)

unfoldable pub load_task : (Bytes → Pattern) → Bytes → Act Bool
unfolding pattern_of wait_for_reply
load_task special path = do
  response ← ask (codes "task -p " ++ path) (codes "Loaded task: ")
  wait_for_reply (line (codes "task")) (pattern_of special (codes "Relative path:" ++ crlf path))

unfoldable pub get_task_status : Act TaskStatus
get_task_status = do
  status ← ask (codes "task -s") (codes "Task is ")
  return (
      if has (codes "stopped") status
      then TaskStatus.stopped
      else if has (codes "paused") status
      then TaskStatus.paused
      else if has (codes "running") status
      then TaskStatus.playing
      else TaskStatus.stopped)

unfoldable pub task_is_running : Act Bool
task_is_running = do
  request ← ask (codes "task -r") (codes "Task is ")
  return (if has (codes "not running") request then false else has (codes "is running") request)

unfoldable pub is_task_saved : Act Bool
is_task_saved = do
  response ← ask (codes "task -ss") (codes "Task is ")
  return (bytes_eq response (codes "Task is saved"))
