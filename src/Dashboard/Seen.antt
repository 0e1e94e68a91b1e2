-- ===== src/Dashboard/Seen.antt =====
-- What the robot has answered where a command returns true.
use elite_robots_cs_sdk.Shared.{
  ℕ, suc, ◌+◌, ◌≡◌, refl, sym, ap, subst, ◌∙◌, [], Bytes, Bool, true, false, Option, none, some,
  Result, ok, throws, fault, if◌then◌else◌, codes, arith, Bool-cases, inl, inr, bytes_eq,
}
use elite_robots_cs_sdk.Shared.Action.{followed, ◌>>=◌, return}
use elite_robots_cs_sdk.Dashboard.Regex.{Pattern, text, has_empty, rests}
use elite_robots_cs_sdk.Dashboard.Matches.{regex_match-text}
use elite_robots_cs_sdk.Dashboard.{Dashboard, Act, send_and_request, wait_for_reply, is_answer}
use elite_robots_cs_sdk.Dashboard.Commands.{
  line, crlf, releasing, restarting, brake_release, power_off_robot, restart_safety_system,
  task_command, play_task, pause_task, stop_task,
}
use elite_robots_cs_sdk.Dashboard.Waits.{
  Behind, LastReply, Reads, request-Reads, Waits, wait_loop-Waits, request-closed, wait_loop-closed,
}

-- A command that returns true has read a line last.
abbrev Shows : Bytes → Dashboard → Result Bool × Dashboard → Type 0
Shows response w (ok true, v) = LastReply response w v
Shows response w (ok false, v) = Unit {0}
Shows response w (throws e, v) = Unit {0}
Shows response w (fault, v) = Unit {0}

Waits-Shows :
    (cs : Bytes) (w : Dashboard) (r : Result Bool × Dashboard) → Waits (text cs) w r → Shows cs w r
Waits-Shows cs w (ok true, v) (i, response, e, m, h, b) =
    (i, e ∙ ap some (regex_match-text cs response m), b)
Waits-Shows cs w (ok false, v) h = tt
Waits-Shows cs w (throws e, v) h = tt
Waits-Shows cs w (fault, v) h = tt

wait-Shows :
    (cmd cs : Bytes) (w : Dashboard)
    → has_empty (rests (text cs) []) ≡ false
    → Shows cs w (wait_for_reply cmd (text cs) w)
unfolding wait_for_reply
wait-Shows cmd cs w f = elim (Bool-cases w.has_socket) [
  | inl e ↦ Waits-Shows cs w _ (wait_loop-Waits w.rounds cmd (text cs) w e)
  | inr e ↦ rw (wait_loop-closed w.rounds cmd (text cs) w e f) tt
]

-- A request before it only reads further.
Shows-later :
    (n : ℕ) (response : Bytes) (w v : Dashboard) (r : Result Bool × Dashboard)
    → Behind n w v
    → Shows response v r
    → Shows response w r
Shows-later n response w v (ok true, x) (s, b) (i, e, c) =
    (n + i, sym (b i) ∙ e, λ j. c j ∙ b (suc i + j) ∙ ap w.replies (omega arith))
Shows-later n response w v (ok false, x) b h = tt
Shows-later n response w v (throws e, x) b h = tt
Shows-later n response w v (fault, x) b h = tt

request-Shows :
    (cmd : Bytes) (expected : Option Pattern) (response : Bytes) (w : Dashboard)
    (next : Bytes → Act Bool)
    → ((answer : Bytes) (v : Dashboard) → Shows response v (next answer v))
    → Shows response w ((send_and_request cmd expected >>= next) w)
request-Shows cmd expected response w next h = elim (Bool-cases w.has_socket) [
  | inl e ↦ by_read (send_and_request cmd expected w) (request-Reads cmd expected w e)
  | inr e ↦ rw (request-closed cmd expected w e) (h [] w)
]
  where
    by_read :
        (r : Result Bytes × Dashboard) → Reads w expected r → Shows response w (followed next r)
    by_read (ok answer, v) (b, first) = Shows-later 1 response w v (next answer v) b (h answer v)
    by_read (throws e, v) b = tt
    by_read (fault, v) b = tt

if-Shows :
    (b : Bool) (response : Bytes) (w : Dashboard) (m : Act Bool)
    → Shows response w (m w)
    → Shows response w ((if b then m else return false) w)
if-Shows true response w m h = h
if-Shows false response w m h = tt

brake_release-Shows :
    (w : Dashboard) → Shows (crlf (codes "robotMode: RUNNING")) w (brake_release w)
unfolding brake_release rests
brake_release-Shows w =
    let shown : Bytes = crlf (codes "robotMode: RUNNING") in
    request-Shows (line (codes "brakeRelease")) (some releasing) shown w
      (λ answer.
        if is_answer answer
        then wait_for_reply (line (codes "robotMode")) (text shown)
        else return false)
      λ answer v.
        if-Shows (is_answer answer) shown v (wait_for_reply (line (codes "robotMode")) (text shown))
          (wait-Shows (line (codes "robotMode")) shown v refl)

-- A request, whatever its answer, and a wait.
wait_after-Shows :
    (cmd ask : Bytes) (expected : Option Pattern) (shown : Bytes) (w : Dashboard)
    → has_empty (rests (text shown) []) ≡ false
    → Shows shown w
        ((send_and_request cmd expected >>= λ answer. wait_for_reply ask (text shown)) w)
wait_after-Shows cmd ask expected shown w f =
    request-Shows cmd expected shown w (λ answer. wait_for_reply ask (text shown))
      λ answer v. wait-Shows ask shown v f

power_off-Shows :
    (w : Dashboard) → Shows (crlf (codes "robotMode: POWER_OFF")) w (power_off_robot w)
unfolding power_off_robot rests
power_off-Shows w =
    wait_after-Shows (line (codes "robotControl -off")) (line (codes "robotMode"))
      (some (text (crlf (codes "Powering off")))) (crlf (codes "robotMode: POWER_OFF")) w refl

restart-Shows :
    (w : Dashboard) → Shows (crlf (codes "Safety mode: NORMAL")) w (restart_safety_system w)
unfolding restart_safety_system rests
restart-Shows w =
    wait_after-Shows (line (codes "safety -r")) (line (codes "safety -m")) (some restarting)
      (crlf (codes "Safety mode: NORMAL")) w refl

task_command-Shows :
    (cmd answer state : Bytes) (w : Dashboard)
    → has_empty (rests (text (crlf state)) []) ≡ false
    → Shows (crlf state) w (task_command cmd answer state w)
task_command-Shows cmd answer state w f =
    request-Shows (line cmd) none (crlf state) w
      (λ request.
        if bytes_eq request (crlf answer)
        then wait_for_reply (line (codes "task -s")) (text (crlf state))
        else return false)
      λ request v.
        if-Shows (bytes_eq request (crlf answer)) (crlf state) v
          (wait_for_reply (line (codes "task -s")) (text (crlf state)))
          (wait-Shows (line (codes "task -s")) (crlf state) v f)

-- `brakeRelease`, `powerOff`, `safetySystemRestart`, `playProgram`, `pauseProgram` and `stopProgram` return
-- true only if the last line that they have read is the answer that says that the robot is where
-- it was to go, and this exactly. This holds whatever the robot answers and however the writes
-- go, with and without a connection.
pub commands-seen :
    (w v : Dashboard)
    → (brake_release w ≡ (ok true, v) → LastReply (crlf (codes "robotMode: RUNNING")) w v)
      × (power_off_robot w ≡ (ok true, v) → LastReply (crlf (codes "robotMode: POWER_OFF")) w v)
      × (restart_safety_system w ≡ (ok true, v)
          → LastReply (crlf (codes "Safety mode: NORMAL")) w v)
      × (play_task w ≡ (ok true, v) → LastReply (crlf (codes "Task is running")) w v)
      × (pause_task w ≡ (ok true, v) → LastReply (crlf (codes "Task is paused")) w v)
      × (stop_task w ≡ (ok true, v) → LastReply (crlf (codes "Task is stopped")) w v)
unfolding play_task pause_task stop_task rests
commands-seen w v = (
  λ e. subst (Shows (crlf (codes "robotMode: RUNNING")) w) e (brake_release-Shows w),
  λ e. subst (Shows (crlf (codes "robotMode: POWER_OFF")) w) e (power_off-Shows w),
  λ e. subst (Shows (crlf (codes "Safety mode: NORMAL")) w) e (restart-Shows w),
  λ e.
      subst (Shows (crlf (codes "Task is running")) w) e (
        task_command-Shows (codes "play") (codes "Starting task") (codes "Task is running") w refl),
  λ e.
      subst (Shows (crlf (codes "Task is paused")) w) e
        (task_command-Shows (codes "pause") (codes "Pausing task") (codes "Task is paused") w refl),
  λ e.
      subst (Shows (crlf (codes "Task is stopped")) w) e (
        task_command-Shows (codes "stop") (codes "Stopping task") (codes "Task is stopped") w refl),
)
