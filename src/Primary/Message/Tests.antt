-- ===== src/Primary/Message/Tests.antt =====
-- `parserMessage` at concrete messages.
use elite_robots_cs_sdk.Shared.{
  ◌+◌, ◌<◌, ◌^◌, ◌≡◌, refl, [], ◌∷◌, ◌++◌, codes, true, false, none, ok, length, arith, negsuc,
}
use elite_robots_cs_sdk.Endian.{pack}
use elite_robots_cs_sdk.Primary.Packages.{master_board_data}
use elite_robots_cs_sdk.Primary.Port.{Port, deliver}
use elite_robots_cs_sdk.Primary.Port.Loop.{Sub, body, deliver_all}
use elite_robots_cs_sdk.Primary.Exceptions.{RobotException, Data, robot_error}
use elite_robots_cs_sdk.Primary.Exceptions.RoundTrip.{exception_bytes}
use elite_robots_cs_sdk.Primary.Message.{leaves, parser_message}
use elite_robots_cs_sdk.Primary.Message.Framed.{message, wire, parser_message-state}

abbrev quiet : Port
quiet = record {
  heap = λ p. record {
    contents = master_board_data (record {
      safety_mode = negsuc 1;
      is_robot_in_reduced_mode = false;
      operational_mode_selector_input = false;
      threeposition_enabling_device_input = false;
      internal_use = 0;
    });
    ready = false;
  };
  parser_sub_msg = λ t. none;
}

abbrev small_sub : Sub
small_sub = record { sub_type = 1; payload = 5 ∷ [] }

abbrev fault_report : RobotException
fault_report = robot_error 1000 12 3 120 2 5 (Data.string (codes "joint"))

fault_report-short : 5 + length (exception_bytes 120 fault_report) < 2 ^ 31
unfolding pack
fault_report-short = omega arith

small_sub-leaves : deliver_all (small_sub ∷ []) [] quiet ≡ ok quiet
unfolding deliver
small_sub-leaves = refl

small_sub-size :
    (0 < length (body (small_sub ∷ []) [])) × (5 + length (body (small_sub ∷ []) []) < 2 ^ 31)
unfolding pack
small_sub-size = (omega arith, omega arith)

parser_message-state_example :
    parser_message false (wire (message 16 (body (small_sub ∷ []) []) ++ (0 ∷ [])) 9) quiet
    ≡ leaves true (0 ∷ []) quiet []
parser_message-state_example =
    parser_message-state false 9 (small_sub ∷ []) (0 ∷ []) quiet quiet
      ((omega arith, omega arith), tt) small_sub-leaves (omega arith) (small_sub-size.0)
      (small_sub-size.1)
