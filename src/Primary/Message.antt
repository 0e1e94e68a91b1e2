-- ===== src/Primary/Message.antt =====
-- `parserMessage` and `parserMessageBody` of PrimaryPort (source/Primary/PrimaryPort.cpp).
pub mod Framed
mod Tests
use elite_robots_cs_sdk.Shared.{
  ℕ, zero, suc, ◌+◌, ◌-◌, List, [], ◌∷◌, ◌++◌, Bytes, Bool, true, false, not, Option, none, some,
  Result, ok, throws, fault, ◌>>=◌, leb, ltb, ◌==◌, if◌then◌else◌, length, take, drop, length_error,
}
use elite_robots_cs_sdk.Endian.{at, unpack, w32}
use elite_robots_cs_sdk.Primary.Port.{Port, head_length, parser_state_body}
use elite_robots_cs_sdk.Primary.Exceptions.{RobotException, parser_exception}

-- The socket: whether it is there and open, what comes in, how much of it is there at once, and whether
-- the connection is broken behind that. The rest comes within the timeout of a body. `pending` says that
-- the read of an earlier body is still to be completed: its handler writes to variables of a call that
-- has returned.
pub record Wire : Type 0 where
  pub is_open : Bool
  pub incoming : Bytes
  pub ready : ℕ
  pub broken : Bool
  pub pending : Bool

-- What `parserMessage` leaves: the bytes still to come, the waiting packages, the exceptions that the
-- callback was called with, and whether the read of a body is still to be completed.
pub record Outcome : Type 0 where
  pub result : Bool
  pub incoming : Bytes
  pub port : Port
  pub reported : List RobotException
  pub pending : Bool

abbrev pub leaves : Bool → Bytes → Port → List RobotException → Result Outcome
leaves b rest port es =
    ok (record { result = b; incoming = rest; port = port; reported = es; pending = false })

-- The sub-packages end (`Primary.Port.Loop`), so that `none` does not occur.
abbrev pub state_result : Bytes → Option Bool × Port → Result Outcome
state_result rest (none, port) = fault
state_result rest (some b, port) = leaves b rest port []

abbrev pub report : Bytes → Port → Option RobotException → Result Outcome
report rest port none = leaves true rest port []
report rest port (some e) = leaves true rest port (e ∷ [])

-- The body by its type: ROBOT_STATE_MSG_TYPE and ROBOT_EXCEPTION_MSG_TYPE are looked at.
unfoldable pub body_of_type : Bool → ℕ → Bytes → Bytes → Port → Result Outcome
body_of_type has_callback kind message_body rest port =
    if kind == 16
    then parser_state_body message_body port >>= state_result rest
    else if kind == 20
    then (if has_callback
        then parser_exception message_body >>= report rest port
        else leaves true rest port [])
    else leaves true rest port []

-- The result is false, and the read of the body goes on behind the call.
abbrev pub times_out : Port → Result Outcome
times_out port =
    ok (record { result = false; incoming = []; port = port; reported = []; pending = true })

-- A length of 2 ^ 31 or more is a negative int, and too much for the vector. The run of the context runs
-- the handler of an earlier read too. A body that does not come in time is taken as far as it comes.
unfoldable pub parser_message_body : Bool → Bool → ℕ → ℕ → Bytes → Port → Result Outcome
unfolding body_of_type
parser_message_body has_callback pending kind package_len incoming port =
    if leb 2147483648 package_len
    then throws length_error
    else if pending
    then fault
    else if leb (package_len - head_length) (length incoming)
    then body_of_type has_callback kind (take (package_len - head_length) incoming)
        (drop (package_len - head_length) incoming) port
    else times_out port

-- A head that is there.
unfoldable pub parser_head : Bool → Bool → Bytes → Port → Result Outcome
unfolding parser_message_body
parser_head has_callback pending incoming port = do
  package_len ← unpack w32 incoming
  kind ← at incoming 4
  if leb package_len head_length
      then ok (record {
        result = false;
        incoming = drop head_length incoming;
        port = port;
        reported = [];
        pending = pending;
      })
      else parser_message_body has_callback pending kind package_len (drop head_length incoming)
          port

-- How many bytes the read of a head finds.
abbrev pub found : Wire → ℕ
found w = length (take w.ready w.incoming)

-- A read that was to be completed still is.
abbrev pub still : Wire → Result Outcome → Result Outcome
still w (ok o) = ok (record o { pending = w.pending })
still w (throws e) = throws e
still w fault = fault

-- A head of which not all is there is taken out of the socket as far as it is, and the result is true,
-- unless the connection is broken.
unfoldable pub parser_message : Bool → Wire → Port → Result Outcome
unfolding parser_head
parser_message has_callback w port =
    if w.is_open
    then (if leb head_length (found w)
        then parser_head has_callback w.pending w.incoming port
        else still w (leaves (not w.broken) (drop (found w) w.incoming) port []))
    else still w (leaves false w.incoming port [])
