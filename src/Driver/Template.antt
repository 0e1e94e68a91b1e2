-- ===== src/Driver/Template.antt =====
-- The control script: its placeholders, and how headless mode wraps it.
use elite_robots_cs_sdk.Shared.{
  ℕ, zero, suc, ◌+◌, [], ◌∷◌, ◌++◌, Bytes, Bool, true, false, List, Option, none, some, codes,
  length, take, drop, ◌==◌, if◌then◌else◌, ℤ, pos,
}
use elite_robots_cs_sdk.Text.{find_first}
use elite_robots_cs_sdk.Version.Decimal.{int_to_string}

-- What the driver's configuration gives the script. A float is its bit pattern.
pub record Config : Type 0 where
  pub reverse_port : ℤ
  pub trajectory_port : ℤ
  pub script_command_port : ℤ
  pub servoj_time : ℕ
  pub servoj_lookahead_time : ℕ
  pub servoj_gain : ℤ
  pub stopj_acc : ℕ
  pub servoj_extrapolate_max_time : ℕ
  pub servoj_decelerate_time : ℕ
  pub servoj_hold_velocity_threshold : ℕ
  pub servoj_hold_stable_time : ℕ

-- How the standard library prints a float: `std::to_string`, and `<<` into a stream.
pub record Printing : Type 0 where
  pub to_string : ℕ → Bytes
  pub shown : ℕ → Bytes

-- `while (s.find(needle) != npos) s.replace(s.find(needle), needle.length(), by)`. The fuel bounds the
-- rounds, and `none` means that it ran out.
unfoldable pub replace_loop : ℕ → Bytes → Bytes → Bytes → Option Bytes
unfolding find_first
replace_loop zero needle by s = elim (find_first needle s) [ none ↦ some s | some i ↦ none ]
replace_loop (suc fuel) needle by s = elim (find_first needle s) [
  | none ↦ some s
  | some i ↦ replace_loop fuel needle by (take i s ++ (by ++ drop (i + length needle) s))
]

-- No more rounds than bytes are needed, where the loop ends (`Driver.OnePass.replace-one_pass`).
unfoldable pub replace : Bytes → Bytes → Bytes → Option Bytes
unfolding replace_loop
replace needle by s = replace_loop (length s) needle by s

-- The placeholders and what they stand for, in the order of `scriptParamWrite`. The sizes and zoom
-- ratios are constants of the interfaces.
unfoldable pub parameters : Printing → Bytes → Config → List (Bytes × Bytes)
unfolding int_to_string
parameters p local_ip c =
    (codes "{{SERVER_IP_REPLACE}}", local_ip)
    ∷ (codes "{{TRAJECTORY_SERVER_PORT_REPLACE}}", int_to_string c.trajectory_port)
    ∷ (codes "{{REVERSE_PORT_REPLACE}}", int_to_string c.reverse_port)
    ∷ (codes "{{SCRIPT_COMMAND_PORT_REPLACE}}", int_to_string c.script_command_port)
    ∷ (
      codes "{{SERVO_J_REPLACE}}",
      codes "lookahead_time = "
          ++ (p.shown c.servoj_lookahead_time ++ (codes ", gain=" ++ int_to_string c.servoj_gain)),
    )
    ∷ (codes "{{SERVOJ_TIME_REPLACE}}", p.to_string c.servoj_time)
    ∷ (codes "{{SERVOJ_EXTRAPOLATE_MAX_TIME_REPLACE}}", p.to_string c.servoj_extrapolate_max_time)
    ∷ (codes "{{SERVOJ_DECELERATE_TIME_REPLACE}}", p.to_string c.servoj_decelerate_time)
    ∷ (
      codes "{{SERVOJ_HOLD_VELOCITY_THRESHOLD_REPLACE}}",
      p.to_string c.servoj_hold_velocity_threshold,
    )
    ∷ (codes "{{SERVOJ_HOLD_STABLE_TIME_REPLACE}}", p.to_string c.servoj_hold_stable_time)
    ∷ (codes "{{POS_ZOOM_RATIO_REPLACE}}", int_to_string (pos 1000000))
    ∷ (codes "{{TIME_ZOOM_RATIO_REPLACE}}", int_to_string (pos 1000))
    ∷ (codes "{{COMMON_ZOOM_RATIO_REPLACE}}", int_to_string (pos 1000000))
    ∷ (codes "{{REVERSE_DATA_SIZE_REPLACE}}", int_to_string (pos 8))
    ∷ (codes "{{TRAJECTORY_DATA_SIZE_REPLACE}}", int_to_string (pos 21))
    ∷ (codes "{{SCRIPT_COMMAND_DATA_SIZE_REPLACE}}", int_to_string (pos 26))
    ∷ (codes "{{STOP_J_REPLACE}}", p.to_string c.stopj_acc)
    ∷ []

unfoldable pub replace_each : List (Bytes × Bytes) → Bytes → Option Bytes
unfolding replace
replace_each [] s = some s
replace_each ((needle, by) ∷ later) s = elim (replace needle by s) [
  | none ↦ none
  | some t ↦ replace_each later t
]

-- `scriptParamWrite`; `none` stands for a loop that needs more rounds than the text has bytes.
unfoldable pub script_param_write : Printing → Bytes → Config → Bytes → Option Bytes
unfolding parameters replace_each
script_param_write p local_ip c file_string = replace_each (parameters p local_ip c) file_string

-- `std::getline` over the script: each line comes with a tab before it and a newline behind it. `at_start` says
-- that the line has no byte yet.
abbrev pub tabbed : Bool → Bytes → Bytes
tabbed at_start [] = if at_start then [] else 10 ∷ []
tabbed at_start (c ∷ s) =
    let line = tabbed true s in
    let inside = tabbed false s in
    (if at_start then 9 ∷ [] else []) ++ (if c == 10 then 10 ∷ line else c ∷ inside)

-- The script of `init`.
unfoldable pub robot_script : Bool → Bytes → Bytes
robot_script headless control_script =
    if headless
    then codes "def externalControl():\n" ++ (tabbed true control_script ++ codes "end")
    else control_script
