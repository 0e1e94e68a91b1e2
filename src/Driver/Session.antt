-- ===== src/Driver/Session.antt =====
-- The driver's servers and its primary port: `init`, `stopControl`, `isRobotConnected`, the scripts, and the
-- commands that go on to the three interfaces.
use elite_robots_cs_sdk.Shared.{
  ℕ, zero, suc, Bytes, Bool, true, false, not, Option, none, some, Result, ok, throws, fault,
  if◌then◌else◌, List, ℤ, length, leb, or_fault, socket_connect_fail, file_open_fail,
}
use elite_robots_cs_sdk.Shared.Action.{Action, ◌>>=◌, ◌>>◌, return, throw, lift, update}
use elite_robots_cs_sdk.Server.{Server, BindOutcome, bind}
use elite_robots_cs_sdk.Control.Frames.{Scaling, ControlMode}
use elite_robots_cs_sdk.Control.Commands.{write_joint_command, stop_control}
use elite_robots_cs_sdk.Primary.Requests.{World, send_script}
use elite_robots_cs_sdk.Driver.Template.{Config, Printing, script_param_write, robot_script}

pub data Link : Type 0 where
  reverse trajectory script_command : Link

-- The three servers, and whether the system takes their next write; what each later question whether
-- the robot is connected to a server finds; the primary port, if there is one; the script; and the
-- rounds that the clock gives a wait.
pub record Driver : Type 0 where
  pub reverse_server : Server
  pub trajectory_server : Server
  pub script_command_server : Server
  pub whole : Bool
  pub links : ℕ → Link → Bool
  pub primary_port : Option World
  pub robot_script : Bytes
  pub headless_mode : Bool
  pub rounds : ℕ

abbrev pub Act : Type 0 → Type 0
Act A = Action Driver A

-- `isRobotConnect()` of one of the servers, at some moment.
abbrev pub is_robot_connect : Link → Act Bool
is_robot_connect l w = (ok (w.links 0 l), record w { links = λ n. w.links (suc n) })

-- `a || b` and `a && b`, where the second is asked only if it is needed.
abbrev pub or_else : Act Bool → Act Bool → Act Bool
or_else a b = a >>= λ x. elim x as (λ _. Act Bool) [ true ↦ return true | false ↦ b ]

abbrev pub and_then : Act Bool → Act Bool → Act Bool
and_then a b = a >>= λ x. elim x as (λ _. Act Bool) [ true ↦ b | false ↦ return false ]

unfoldable pub is_robot_connected : Act Bool
is_robot_connected =
    and_then (is_robot_connect reverse)
      (and_then (is_robot_connect trajectory) (is_robot_connect script_command))

abbrev pub still_connected : Act Bool
still_connected =
    or_else (is_robot_connect script_command)
      (or_else (is_robot_connect reverse) (is_robot_connect trajectory))

-- The loop of `stopControl`: whether all have left before the time is up.
unfoldable pub stop_loop : ℕ → Act Bool
stop_loop zero =
    still_connected >>= λ x. elim x as (λ _. Act Bool) [ true ↦ return false | false ↦ return true ]
stop_loop (suc n) =
    still_connected >>= λ x. elim x as (λ _. Act Bool) [ true ↦ stop_loop n | false ↦ return true ]

-- A command of the reverse interface.
abbrev pub on_reverse : (Bool → Server → Result (Bool × Server)) → Act Bool
on_reverse command w = elim (command w.whole w.reverse_server) [
  | ok (result, server) ↦ (ok result, record w { reverse_server = server })
  | throws e ↦ (throws e, w)
  | fault ↦ (fault, w)
]

-- `stopControl`. The words of the frame that the interface does not set come from its stack.
unfoldable pub stop_driver : List ℕ → Act Bool
unfolding stop_control stop_loop is_robot_connected
stop_driver stack = on_reverse (λ whole server. ok (stop_control stack whole server)) >>= λ sent.
    elim sent as (λ _. Act Bool) [
      | false ↦ return false
      | true ↦ (λ w. stop_loop w.rounds w) >>= λ left. elim left as (λ _. Act Bool) [
        | false ↦ return false
        | true ↦ is_robot_connected >>= λ b. return (not b)
      ]
    ]

module _ (s : Scaling) where
  unfoldable pub write_servoj : List ℕ → ℤ → Bool → Act Bool
  unfolding write_joint_command
  write_servoj position timeout_ms cartesian = on_reverse (
      write_joint_command s (some position)
        (if cartesian then ControlMode.pose else ControlMode.servoj) timeout_ms)

  unfoldable pub write_speedl : List ℕ → ℤ → Act Bool
  unfolding write_joint_command
  write_speedl vel timeout_ms =
      on_reverse (write_joint_command s (some vel) ControlMode.speedl timeout_ms)

  unfoldable pub write_speedj : List ℕ → ℤ → Act Bool
  unfolding write_joint_command
  write_speedj vel timeout_ms =
      on_reverse (write_joint_command s (some vel) ControlMode.speedj timeout_ms)

  unfoldable pub write_idle : ℤ → Act Bool
  unfolding write_joint_command
  write_idle timeout_ms = on_reverse (write_joint_command s none ControlMode.idle timeout_ms)

-- `sendScript` of the driver.
unfoldable pub send_driver_script : Bytes → Act Bool
unfolding send_script
send_driver_script script w = elim w.primary_port [
  | none ↦ (ok false, w)
  | some port ↦
      (ok (send_script script port).0, record w { primary_port = some (send_script script port).1 })
]

unfoldable pub send_external_control_script : Act Bool
unfolding send_driver_script
send_external_control_script w =
    if w.headless_mode then send_driver_script w.robot_script w else (ok false, w)

-- The result of reading the script file; `none` where it cannot be opened.
unfoldable pub read_script_file : Option Bytes → Result Bytes
read_script_file none = throws file_open_fail
read_script_file (some content) = ok content

-- The end of `init`: the script goes to the robot, or to a server that hands it out.
unfoldable pub publish : (ℕ → BindOutcome) → Act (Unit {0})
unfolding send_external_control_script bind
publish sender w =
    if w.headless_mode
    then (send_external_control_script >>= λ sent. return tt) w
    else (lift (bind sender) >>= λ round. return tt) w

-- The three servers, in their order; `tries` says how each attempt to bind a port fares.
unfoldable pub create_servers : (Link → ℕ → BindOutcome) → Act (Unit {0})
unfolding bind
create_servers tries = lift (bind (tries reverse)) >>= λ a.
    lift (bind (tries trajectory)) >>= λ b. lift (bind (tries script_command)) >>= λ c. return tt

abbrev chosen_ip : Bytes → Bytes → Bytes
chosen_ip local_ip own_ip = if leb (length local_ip) 0 then own_ip else local_ip

-- The control script, with its parameters.
unfoldable pub generate : Printing → Config → Bytes → Option Bytes → Act Bytes
unfolding read_script_file script_param_write
generate p c ip file =
    lift (read_script_file file) >>= λ text. lift (or_fault (script_param_write p ip c text))

-- `init`: whether the primary port connects, the address of its socket, and what the script file has.
unfoldable pub init :
    Printing
    → Config
    → Bool
    → Bytes
    → Bytes
    → Option Bytes
    → (Link → ℕ → BindOutcome)
    → (ℕ → BindOutcome)
    → Act (Unit {0})
unfolding generate create_servers publish
init p c connects local_ip own_ip file tries sender =
    if connects
    then generate p c (chosen_ip local_ip own_ip) file >>= (λ script.
      create_servers tries
      >> update (λ w. record w { robot_script = robot_script w.headless_mode script })
      >> publish sender)
    else throw socket_connect_fail
