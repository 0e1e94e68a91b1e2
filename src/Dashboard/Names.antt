-- ===== src/Dashboard/Names.antt =====
-- What the commands that ask make of the robot's answers.
use elite_robots_cs_sdk.Shared.{
  ℕ, zero, suc, ◌+◌, ◌-◌, ◌%◌, ◌^◌, ◌<◌, ◌≤◌, le→leb, if◌then◌else◌, Option, ◌≡◌, refl, ap, subst,
  get_elem?, ◌∙◌, [], ◌∷◌, ◌++◌, Bytes, Bool, true, List, none, some, ok, codes, All, bytes_eq,
  length, drop, arith, ℤ, pos, negsuc, length-append, take-length-append,
}
use elite_robots_cs_sdk.Shared.Action.{followed, ◌>>=◌, lift, return}
use elite_robots_cs_sdk.Text.{find, find_first, begins}
use elite_robots_cs_sdk.Dashboard.Regex.{Pattern, many, dot, literal, in_class}
use elite_robots_cs_sdk.Dashboard.Matches.{IsLine, regex_search-line}
use elite_robots_cs_sdk.Dashboard.{
  Dashboard, send_taken, send_command, async_read_line, send_and_request, after_reply,
  found_or_throw, expect,
}
use elite_robots_cs_sdk.Dashboard.Commands.{line, crlf}
use elite_robots_cs_sdk.Dashboard.Status.{
  ask, behind_colon, robot_mode, robot_mode_of, safety_mode, safety_mode_of,
}
use elite_robots_cs_sdk.Dashboard.Tasks.{get_task_path, task_path_of}

-- A connection that takes every write whole, with the next line that comes.
abbrev pub Answers : Dashboard → Bytes → Type 0
Answers w response = (w.has_socket ≡ true) × (w.writes ≡ []) × (w.replies 0 ≡ some response)

-- The connection after a command and its answer.
abbrev pub heard : Dashboard → Bytes → Dashboard
heard w cmd = record w { sent = w.sent ++ line cmd; replies = λ n. w.replies (suc n) }

send-whole :
    (w : Dashboard) (cmd : Bytes)
    → w.writes ≡ []
    → send_command cmd w ≡ (ok tt, record w { sent = w.sent ++ cmd })
unfolding send_command
send-whole w cmd f = ap (λ l. send_taken l cmd w) f

read-line :
    (w : Dashboard) (response : Bytes)
    → w.replies 0 ≡ some response
    → async_read_line w ≡ (ok response, after_reply w)
unfolding async_read_line
read-line w response g = rw (g, async_read_line) refl

pub request-heard :
    (w : Dashboard) (cmd : Bytes) (expected : Option Pattern) (response : Bytes)
    → Answers w response
    → send_and_request (line cmd) expected w ≡ expect expected response (heard w cmd)
unfolding send_and_request
request-heard w cmd expected response (e, f, g) =
    if-true w.has_socket _ _ e
    ∙ ap (followed λ _. async_read_line >>= λ line_. expect expected line_)
        (send-whole w (line cmd) f)
    ∙ ap (followed λ line_. expect expected line_)
        (read-line (record w { sent = w.sent ++ line cmd }) response g)
  where
    if-true : {A : Type 0} (b : Bool) (x y : A) → b ≡ true → (if b then x else y) ≡ x
    if-true b x y e = rw e

ask-heard :
    (w : Dashboard) (cmd : Bytes) (c : ℕ) (front cs : Bytes)
    → Answers w ((c ∷ front) ++ crlf cs)
    → IsLine cs
    → ask cmd (c ∷ front) w ≡ (ok ((c ∷ front) ++ cs), heard w cmd)
ask-heard w cmd c front cs a plain =
    request-heard w cmd (some (literal (c ∷ front) (many dot))) ((c ∷ front) ++ crlf cs) a
    ∙ ap (λ o. found_or_throw o (heard w cmd)) (regex_search-line c front cs (10 ∷ []) plain)

find-start : (needle s : Bytes) (i : ℕ) → find_first needle s ≡ some i → find needle s 0 ≡ some i
unfolding find
find-start needle s i e = rw (le→leb 0 (length s) (omega arith), e) (ap some (omega arith))

behind_colon-ok :
    (s cs : Bytes) (i : ℕ)
    → find_first (codes ": ") s ≡ some i
    → i + 2 ≤ length s
    → drop (i + 2) s ≡ cs
    → behind_colon s ≡ ok cs
unfolding behind_colon
behind_colon-ok s cs i f small e =
    rw (find-start (codes ": ") s i f, behind_colon, le→leb (i + 2) (length s) small, e) refl

robot_mode-line :
    (w : Dashboard) (name : Bytes)
    → Answers w (codes "robotMode: " ++ crlf name)
    → IsLine name
    → robot_mode w ≡ (ok (robot_mode_of name), heard w (codes "robotMode"))
unfolding robot_mode find_first begins in_class
robot_mode-line w name a plain =
    ap (followed λ request. lift (behind_colon request) >>= λ mode. return (robot_mode_of mode))
      (ask-heard w (codes "robotMode") b'r' (codes "obotMode:") (32 ∷ name) a (refl, plain))
    ∙ ap (λ r. followed (λ mode. return (robot_mode_of mode)) (r, heard w (codes "robotMode")))
        (behind_colon-ok (codes "robotMode: " ++ name) name 9 refl (omega arith) refl)

safety_mode-line :
    (w : Dashboard) (name : Bytes)
    → Answers w (codes "Safety status: " ++ crlf name)
    → IsLine name
    → safety_mode w ≡ (ok (safety_mode_of name), heard w (codes "safety -s"))
unfolding safety_mode find_first begins in_class
safety_mode-line w name a plain =
    ap
      (followed λ request. lift (behind_colon request) >>= λ status. return (safety_mode_of status))
      (ask-heard w (codes "safety -s") b'S' (codes "afety status:") (32 ∷ name) a (refl, plain))
    ∙ ap (λ r. followed (λ status. return (safety_mode_of status)) (r, heard w (codes "safety -s")))
        (behind_colon-ok (codes "Safety status: " ++ name) name 13 refl (omega arith) refl)

-- The names of the modes by number. CONFIRM_SAFETY and the others are those of the dashboard.
abbrev pub robot_modes : List (Bytes × ℤ)
robot_modes =
    (codes "NO_CONTROLLER", negsuc 0)
    ∷ (codes "DISCONNECTED", pos 0)
    ∷ (codes "CONFIRM_SAFETY", pos 1)
    ∷ (codes "BOOTING", pos 2)
    ∷ (codes "POWER_OFF", pos 3)
    ∷ (codes "POWER_ON", pos 4)
    ∷ (codes "IDLE", pos 5)
    ∷ (codes "BACK_DRIVE", pos 6)
    ∷ (codes "RUNNING", pos 7)
    ∷ (codes "UPDATING", pos 8)
    ∷ (codes "WAITING_CALIBRATION", pos 9)
    ∷ []

abbrev pub safety_modes : List (Bytes × ℤ)
safety_modes =
    (codes "NORMAL", pos 1)
    ∷ (codes "REDUCED", pos 2)
    ∷ (codes "PROTECTIVE_STOP", pos 3)
    ∷ (codes "RECOVERY", pos 4)
    ∷ (codes "SAFEGUARD_STOP", pos 5)
    ∷ (codes "SYSTEM_EMERGENCY_STOP", pos 6)
    ∷ (codes "ROBOT_EMERGENCY_STOP", pos 7)
    ∷ (codes "VIOLATION", pos 8)
    ∷ (codes "FAULT", pos 9)
    ∷ (codes "VALIDATE_JOINT_ID", pos 10)
    ∷ (codes "UNDEFINED_SAFETY_MODE", pos 11)
    ∷ (codes "AUTOMATIC_MODE_SAFEGUARD_STOP", pos 12)
    ∷ (codes "SYSTEM_THREE_POSITION_ENABLING_STOP", pos 13)
    ∷ (codes "TP_THREE_POSITION_ENABLING_STOP", pos 14)
    ∷ []

-- The listed names have no line terminator, and each gives its mode.
abbrev Gives : (Bytes → ℤ) → Bytes × ℤ → Type 0
Gives mode_of e = IsLine e.0 × (mode_of e.0 ≡ e.1)

robot_modes-Gives : All (Gives robot_mode_of) robot_modes
unfolding robot_mode_of in_class bytes_eq
robot_modes-Gives = ground arith

safety_modes-Gives : All (Gives safety_mode_of) safety_modes
unfolding safety_mode_of in_class bytes_eq
safety_modes-Gives = ground arith

All-get_elem :
    {A : Type 0} (P : A → Type 0) (xs : List A) (i : ℕ) (x : A)
    → All P xs
    → get_elem? xs i ≡ some x
    → P x
All-get_elem P [] i x h e = absurd (cc)
All-get_elem P (y ∷ xs) zero x (p, h) e = let same : y ≡ x = cc in subst P same p
All-get_elem P (y ∷ xs) (suc i) x (p, h) e = All-get_elem P xs i x h e

-- `robotMode` reads back every mode that has a name, when the robot answers `robotMode: ` and the
-- name, over an open socket that takes the command whole: that command is sent, and one answer
-- is read.
pub robot_mode-read :
    (w : Dashboard) (i : ℕ) (name : Bytes) (mode : ℤ)
    → get_elem? robot_modes i ≡ some (name, mode)
    → Answers w (codes "robotMode: " ++ crlf name)
    → robot_mode w ≡ (ok mode, heard w (codes "robotMode"))
robot_mode-read w i name mode e a =
    let (plain, gives) =
      All-get_elem (Gives robot_mode_of) robot_modes i (name, mode) robot_modes-Gives e in
    robot_mode-line w name a plain ∙ ap (λ m. (ok m, heard w (codes "robotMode"))) gives

-- `safetyMode` reads back every mode that has a name, when the robot answers `Safety status: ` and
-- the name, over an open socket that takes the command whole: that command is sent, and one answer
-- is read.
safety_mode-read :
    (w : Dashboard) (i : ℕ) (name : Bytes) (mode : ℤ)
    → get_elem? safety_modes i ≡ some (name, mode)
    → Answers w (codes "Safety status: " ++ crlf name)
    → safety_mode w ≡ (ok mode, heard w (codes "safety -s"))
safety_mode-read w i name mode e a =
    let (plain, gives) =
      All-get_elem (Gives safety_mode_of) safety_modes i (name, mode) safety_modes-Gives e in
    safety_mode-line w name a plain ∙ ap (λ m. (ok m, heard w (codes "safety -s"))) gives

task_path_of-line :
    (path : Bytes)
    → length path < 2 ^ 63
    → task_path_of (codes "Relative path:" ++ crlf path) ≡ path
unfolding task_path_of find_first begins
task_path_of-line path small =
    let request = codes "Relative path:" ++ crlf path in
    let found : find (codes "Relative path:") request 0 ≡ some 0 =
      find-start (codes "Relative path:") request 0 refl in
    let len : (length request + 2 ^ 64 - 16) % 2 ^ 64 ≡ length path =
      omega (arith, length-append path (13 ∷ 10 ∷ [])) in
    rw (found, task_path_of, len) (take-length-append path (13 ∷ 10 ∷ []))

-- `getTaskPath` gives the path of an answer that is `Relative path:`, a path shorter than 2 ^ 63 and the end
-- of the line, over an open socket that takes the command whole.
get_task_path-read :
    (w : Dashboard) (path : Bytes)
    → Answers w (codes "Relative path:" ++ crlf path)
    → length path < 2 ^ 63
    → get_task_path w ≡ (ok path, heard w (codes "task"))
unfolding get_task_path
get_task_path-read w path a small =
    ap (followed λ request. return (task_path_of request))
      (request-heard w (codes "task") none (codes "Relative path:" ++ crlf path) a)
    ∙ ap (λ p. (ok p, heard w (codes "task"))) (task_path_of-line path small)
