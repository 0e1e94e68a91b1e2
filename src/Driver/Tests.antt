-- ===== src/Driver/Tests.antt =====
-- Runs of the driver, and its properties at concrete configurations.
use elite_robots_cs_sdk.Shared.{
  ℕ, zero, suc, ◌≡◌, refl, List, [], ◌∷◌, Bytes, true, false, Bool, none, some, ok, All, codes, pos,
  arith, inl,
}
use elite_robots_cs_sdk.Text.{begins, find_first}
use elite_robots_cs_sdk.Version.Decimal.{
  digits, int_to_string, stoi, stoi_signed, stoi_positive, value_from,
}
use elite_robots_cs_sdk.Server.{Server, write_client}
use elite_robots_cs_sdk.Control.Frames.{stop_words}
use elite_robots_cs_sdk.Control.Words.{memory, htonl}
use elite_robots_cs_sdk.Control.Commands.{write_words, stop_control}
use elite_robots_cs_sdk.Driver.Template.{
  Config, Printing, parameters, replace, replace_loop, script_param_write, robot_script,
}
use elite_robots_cs_sdk.Driver.Rendering.{
  reverse_port, trajectory_port, value_of, Piece, text, hole, source, rendered, IsText,
  script_param_write-rendered,
}
use elite_robots_cs_sdk.Driver.OnePass.{IsFresh, one_pass_from, replace-one_pass}
use elite_robots_cs_sdk.Driver.Session.{Link, Driver, stop_driver, stop_loop, is_robot_connected}
use elite_robots_cs_sdk.Driver.Stopping.{AllLeft, stop_driver-seen}
use elite_robots_cs_sdk.Driver.Serial.{
  Remote, SerialConfig, start_tool_rs485, start_rs485, pid_of, get_socat_pid, is_negative,
}
use elite_robots_cs_sdk.Driver.Handles.{IsPrinted, starts-IsPrinted}

-- Headless mode indents each line.
wraps : robot_script true (codes "a\nb") ≡ codes "def externalControl():\n\ta\n\tb\nend"
unfolding robot_script
wraps = refl

abbrev stop_text : Bytes
stop_text = codes "stopj({{STOP_J_REPLACE}}) # {{STOP_J_REPLACE}}"

replaces :
    replace (codes "{{STOP_J_REPLACE}}") (codes "8.0") stop_text ≡ some (codes "stopj(8.0) # 8.0")
unfolding replace replace_loop find_first begins
replaces = refl

replace-one_pass_example :
    (replace (codes "{{STOP_J_REPLACE}}") (codes "8.0") stop_text
      ≡ some (one_pass_from zero (codes "{{STOP_J_REPLACE}}") (codes "8.0") stop_text))
    × (find_first
          (codes "{{STOP_J_REPLACE}}")
          (one_pass_from zero (codes "{{STOP_J_REPLACE}}") (codes "8.0") stop_text)
        ≡ none)
replace-one_pass_example =
    replace-one_pass (codes "{{STOP_J_REPLACE}}") (codes "8.0") stop_text (ground arith)

abbrev printing : Printing
printing = record { to_string = λ x. codes "0.008000"; shown = λ x. codes "0.1" }

abbrev config : Config
config = record {
  reverse_port = pos 50001;
  trajectory_port = pos 50003;
  script_command_port = pos 50004;
  servoj_time = 0;
  servoj_lookahead_time = 0;
  servoj_gain = pos 300;
  stopj_acc = 0;
  servoj_extrapolate_max_time = 0;
  servoj_decelerate_time = 0;
  servoj_hold_velocity_threshold = 0;
  servoj_hold_stable_time = 0;
}

config-IsFresh : All (λ e. IsFresh e.0 e.1) (parameters printing (codes "192.168.1.2") config)
unfolding parameters int_to_string digits
config-IsFresh = ground arith

-- A line of a script with two ports and its text.
abbrev pieces : List Piece
pieces =
    text (codes "open(")
    ∷ hole reverse_port
    ∷ text (codes ", ")
    ∷ hole trajectory_port
    ∷ text (codes ")\n")
    ∷ []

pieces-IsText : All IsText pieces
pieces-IsText = ground arith

script_param_write-rendered_example :
    script_param_write printing (codes "192.168.1.2") config (source pieces)
    ≡ some (rendered printing (codes "192.168.1.2") config pieces)
script_param_write-rendered_example =
    script_param_write-rendered printing (codes "192.168.1.2") config pieces config-IsFresh
      pieces-IsText

ports_rendered :
    rendered printing (codes "192.168.1.2") config pieces ≡ codes "open(50001, 50003)\n"
unfolding rendered value_of int_to_string digits
ports_rendered = refl

-- A reverse server with a client, and links that are down from the fifth question on.
abbrev server : Server
server = record {
  acceptor = true;
  socket = some 0;
  is_open = λ k. true;
  sent = λ k. [];
  receive_cb = false;
  received = [];
}

abbrev later_down : ℕ → Link → Bool
later_down zero l = true
later_down (suc zero) l = true
later_down (suc (suc n)) l = false

abbrev driver : Driver
driver = record {
  reverse_server = server;
  trajectory_server = server;
  script_command_server = server;
  whole = true;
  links = later_down;
  primary_port = none;
  robot_script = [];
  headless_mode = false;
  rounds = 5;
}

abbrev stack : List ℕ
stack = 0 ∷ 0 ∷ 0 ∷ 0 ∷ 0 ∷ 0 ∷ []

stops : stop_driver stack driver ≡ (ok true, (stop_driver stack driver).1)
unfolding stop_driver stop_control write_words write_client stop_words stop_loop is_robot_connected
    memory htonl
stops = refl

stop_driver-seen_example :
    ((stop_control stack driver.whole driver.reverse_server).0 ≡ true)
    × ((n : ℕ) × AllLeft driver.links n)
stop_driver-seen_example = stop_driver-seen stack driver (stop_driver stack driver).1 stops

-- A socat that runs already.
abbrev remote : Remote
remote = record {
  primary_port = some (record {
    robot_modes = [];
    master_boards = [];
    has_socket = true;
    writes = [];
    sent = [];
    rounds = 0;
  });
  outputs = λ n. codes "812\n";
  commands = [];
}

abbrev serial : SerialConfig
serial = record { baud_rate = pos 115200; parity = pos 0; stop_bits = pos 1 }

starts :
    start_tool_rs485 serial (pos 54321) remote
    ≡ (ok (some (pos 54321, pos 812)), (start_tool_rs485 serial (pos 54321) remote).1)
unfolding start_tool_rs485 start_rs485 get_socat_pid pid_of stoi stoi_signed stoi_positive
    value_from
starts = refl

starts-IsPrinted_example :
    (pos 54321 ≡ pos 54321) × (is_negative (pos 812) ≡ false) × IsPrinted remote (pos 812)
starts-IsPrinted_example =
    starts-IsPrinted serial (pos 54321) remote (start_tool_rs485 serial (pos 54321) remote).1
      (pos 54321, pos 812) (inl starts)
