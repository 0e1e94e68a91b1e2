-- ===== src/Driver/Serial.antt =====
-- The serial ports of the tool and the board: `getSocatPid`, `startToolRs485`, `endToolRs485`,
-- `startBoardRs485` and `endBoardRs485`.
use elite_robots_cs_sdk.Shared.{
  ℕ, zero, suc, [], ◌∷◌, ◌++◌, Bytes, Bool, true, false, List, Option, none, some, Result, ok,
  throws, fault, if◌then◌else◌, codes, ℤ, pos, negsuc, ltb,
}
use elite_robots_cs_sdk.Shared.Action.{Action, ◌>>=◌, return}
use elite_robots_cs_sdk.Version.Decimal.{stoi, int_to_string}
use elite_robots_cs_sdk.Primary.Requests.{World, send_script}

-- The primary port, if there is one; what each command over SSH prints; and the commands.
pub record Remote : Type 0 where
  pub primary_port : Option World
  pub outputs : ℕ → Bytes
  pub commands : List Bytes

abbrev pub Act : Type 0 → Type 0
Act A = Action Remote A

-- SerialConfig, by the numbers of its enumerations.
pub record SerialConfig : Type 0 where
  pub baud_rate : ℤ
  pub parity : ℤ
  pub stop_bits : ℤ

-- `SSH_UTILS::executeCommand`, as root.
abbrev pub execute_command : Bytes → Act Bytes
execute_command cmd w = (
  ok (w.outputs 0),
  record w { outputs = λ n. w.outputs (suc n); commands = w.commands ++ (cmd ∷ []) },
)

-- The handler of `getSocatPid`: what `stoi` throws gives -1.
abbrev pub pid_or : Result ℤ → ℤ
pid_or (ok pid) = pid
pid_or (throws e) = negsuc 0
pid_or fault = negsuc 0

unfoldable pub pid_of : Bytes → ℤ
unfolding stoi
pid_of [] = negsuc 0
pid_of (c ∷ ps_result) = pid_or (stoi (c ∷ ps_result))

abbrev pub ps_command : ℤ → Bytes
ps_command port =
    codes "ps| grep \"[s]ocat tcp-l:" ++ (int_to_string port ++ codes "\" | awk '{print $1}'")

unfoldable pub get_socat_pid : ℤ → Act ℤ
unfolding pid_of int_to_string
get_socat_pid port = execute_command (ps_command port) >>= λ ps_result. return (pid_of ps_result)

abbrev pub is_positive : ℤ → Bool
is_positive (pos n) = ltb 0 n
is_positive (negsuc n) = false

abbrev pub is_negative : ℤ → Bool
is_negative (pos n) = false
is_negative (negsuc n) = true

-- The loop that waits for socat, with the rounds that are left. The first number is the last that was read.
unfoldable pub wait_socat : ℕ → ℤ → ℤ → Act ℤ
unfolding get_socat_pid
wait_socat zero port last = return last
wait_socat (suc n) port last =
    get_socat_pid port >>= λ pid. if is_positive pid then return pid else wait_socat n port pid

-- What is handed out: the port and the PID.
abbrev pub Handle : Type 0
Handle = ℤ × ℤ

abbrev pub handed : ℤ → ℤ → Act (Option Handle)
handed port pid = return (if is_negative pid then none else some (port, pid))

abbrev pub on_primary : Bytes → World → Act Bool
on_primary script port w =
    (ok (send_script script port).0, record w { primary_port = some (send_script script port).1 })

-- The two starts differ in the script and in the command.
unfoldable pub start_rs485 : Bytes → Bytes → ℤ → World → Act (Option Handle)
unfolding send_script get_socat_pid wait_socat
start_rs485 script cmd port primary = get_socat_pid port >>= λ running.
    if is_positive running
    then return (some (port, running))
    else (on_primary script primary >>= λ sent.
        if sent
        then (execute_command cmd >>= λ ignored.
            wait_socat 10 port running >>= λ pid. handed port pid)
        else return none)

abbrev pub if_primary : (World → Act (Option Handle)) → Act (Option Handle)
if_primary f w = elim w.primary_port [ none ↦ (ok none, w) | some primary ↦ f primary w ]

abbrev pub serial_words : SerialConfig → Bytes
serial_words c =
    int_to_string c.baud_rate
    ++ (codes ","
        ++ (int_to_string c.parity ++ (codes "," ++ (int_to_string c.stop_bits ++ codes ")\n"))))

abbrev pub socat_command : ℤ → Bytes → Bytes
socat_command port file = codes "bash -lc 'socat tcp-l:" ++ (int_to_string port ++ file)

abbrev pub tool_script : SerialConfig → Bytes
tool_script c =
    codes
      "sec tool_rs485_config():\n    set_tool_analog_io_work_mode(0)\n    tool_serial_config(True,"
    ++ (serial_words c ++ codes "end\n")

abbrev pub board_script : SerialConfig → Bytes
board_script c =
    codes "sec board_rs485_config():\n    masterboard_serial_config(True,"
    ++ (serial_words c ++ codes "end\n")

abbrev pub tool_command : ℤ → Bytes
tool_command port = socat_command port (
    codes
      ",reuseaddr,fork,nodelay file:/dev/ttyTCI0,nonblock,raw,waitlock=/var/run/tty0 > /dev/null 2>&1 &'")

abbrev pub board_command : ℤ → Bytes
board_command port = socat_command port (
    codes
      ",reuseaddr,fork,nodelay file:/dev/ttyBoard,nonblock,raw,waitlock=/var/run/tty1 > /dev/null 2>&1 &'")

unfoldable pub start_tool_rs485 : SerialConfig → ℤ → Act (Option Handle)
unfolding start_rs485
start_tool_rs485 c port = if_primary (start_rs485 (tool_script c) (tool_command port) port)

unfoldable pub start_board_rs485 : SerialConfig → ℤ → Act (Option Handle)
unfolding start_rs485
start_board_rs485 c port = if_primary (start_rs485 (board_script c) (board_command port) port)

-- `endToolRs485` and `endBoardRs485`, which are alike; `none` is a null pointer.
unfoldable pub end_rs485 : Option Handle → Act Bool
unfolding int_to_string
end_rs485 none = return false
end_rs485 (some (port, pid)) =
    if is_negative pid
    then return false
    else execute_command (codes "kill " ++ int_to_string pid) >>= λ ignored. return true
