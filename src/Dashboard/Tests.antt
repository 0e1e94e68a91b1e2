-- ===== src/Dashboard/Tests.antt =====
-- Runs of the dashboard's commands, and their properties at concrete answers.
use elite_robots_cs_sdk.Shared.{
  ◌≡◌, refl, List, [], ◌∷◌, ◌++◌, Bytes, true, false, none, some, ok, throws, codes, pos, get_or,
  map, out_of_range,
}
use elite_robots_cs_sdk.Text.{find_first}
use elite_robots_cs_sdk.Dashboard.Regex.{regex_match, regex_search, rests, in_class}
use elite_robots_cs_sdk.Dashboard.{
  Dashboard, send_command, send_and_request, async_read_line, wait_loop,
}
use elite_robots_cs_sdk.Dashboard.Commands.{
  line, crlf, brake_release, power_off_robot, restart_safety_system, play_task, pause_task,
  stop_task, escaped, log,
}
use elite_robots_cs_sdk.Dashboard.Status.{robot_mode, behind_colon}
use elite_robots_cs_sdk.Dashboard.Seen.{commands-seen}
use elite_robots_cs_sdk.Dashboard.Waits.{LastReply}
use elite_robots_cs_sdk.Dashboard.Names.{heard, robot_mode-read}
use elite_robots_cs_sdk.Dashboard.Escapes.{count}
use elite_robots_cs_sdk.Dashboard.Logging.{one_pass, escaped-one_pass, log-line}

-- A connection to a robot that gives these answers, and then an error.
abbrev talking : List Bytes → Dashboard
talking answers = record {
  has_socket = true;
  writes = [];
  sent = [];
  replies = λ n. get_or (map some answers) n none;
  rounds = 3;
}

abbrev closed : Dashboard
closed = record (talking []) { has_socket = false }

-- Without a connection the answer is empty, and `substr` throws.
asks_closed : (robot_mode closed).0 ≡ throws out_of_range
unfolding robot_mode send_and_request behind_colon find_first
asks_closed = refl

abbrev releasing_answers : List Bytes
releasing_answers =
    crlf (codes "Brake is released")
    ∷ crlf (codes "robotMode: IDLE")
    ∷ crlf (codes "robotMode: RUNNING")
    ∷ []

-- The mode is asked for a second time.
releases : (brake_release (talking releasing_answers)).0 ≡ ok true
unfolding brake_release send_and_request send_command async_read_line wait_loop regex_match
    regex_search rests in_class
releases = refl

abbrev after_release : Dashboard
after_release = (brake_release (talking releasing_answers)).1

commands-seen_example :
    (brake_release (talking releasing_answers) ≡ (ok true, after_release)
      → LastReply (crlf (codes "robotMode: RUNNING")) (talking releasing_answers) after_release)
    × (power_off_robot (talking releasing_answers) ≡ (ok true, after_release)
        → LastReply (crlf (codes "robotMode: POWER_OFF")) (talking releasing_answers) after_release)
    × (restart_safety_system (talking releasing_answers) ≡ (ok true, after_release)
        → LastReply (crlf (codes "Safety mode: NORMAL")) (talking releasing_answers) after_release)
    × (play_task (talking releasing_answers) ≡ (ok true, after_release)
        → LastReply (crlf (codes "Task is running")) (talking releasing_answers) after_release)
    × (pause_task (talking releasing_answers) ≡ (ok true, after_release)
        → LastReply (crlf (codes "Task is paused")) (talking releasing_answers) after_release)
    × (stop_task (talking releasing_answers) ≡ (ok true, after_release)
        → LastReply (crlf (codes "Task is stopped")) (talking releasing_answers) after_release)
commands-seen_example = commands-seen (talking releasing_answers) after_release

robot_mode-read_example :
    robot_mode (talking (crlf (codes "robotMode: BACK_DRIVE") ∷ []))
    ≡ (ok (pos 6), heard (talking (crlf (codes "robotMode: BACK_DRIVE") ∷ [])) (codes "robotMode"))
robot_mode-read_example =
    robot_mode-read (talking (crlf (codes "robotMode: BACK_DRIVE") ∷ [])) 7 (codes "BACK_DRIVE")
      (pos 6) refl (refl, refl, refl)

abbrev two_lines : Bytes
two_lines = 97 ∷ 10 ∷ 98 ∷ 13 ∷ []

escaped-one_pass_example :
    (escaped two_lines ≡ some (one_pass two_lines))
    × (count 10 (one_pass two_lines) ≡ 0)
    × (count 13 (one_pass two_lines) ≡ 0)
escaped-one_pass_example = escaped-one_pass two_lines

log-line_example :
    (log two_lines (talking (crlf (codes "Log has been added.") ∷ [])) ≡ (
      ok true,
      heard
          (talking (crlf (codes "Log has been added.") ∷ []))
          (codes "log -a " ++ one_pass two_lines),
    ))
    × (count 10 (codes "log -a " ++ line (one_pass two_lines)) ≡ 1)
log-line_example =
    log-line (talking (crlf (codes "Log has been added.") ∷ [])) two_lines (refl, refl, refl)
