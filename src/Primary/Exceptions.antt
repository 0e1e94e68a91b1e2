-- ===== src/Primary/Exceptions.antt =====
-- The robot's exception message: `parserException`, `parserRobotError` and `paraserRuntimeException`
-- (source/Primary/PrimaryPort.cpp), and `parserMessage`.
pub mod RoundTrip
mod Tests
use elite_robots_cs_sdk.Shared.{
  ℕ, zero, suc, ◌+◌, List, [], ◌∷◌, Bytes, Bool, true, false, ◌||◌, Option, none, some, Result, ok,
  ◌>>=◌, ◌==◌, if◌then◌else◌, drop,
}
use elite_robots_cs_sdk.Endian.{at, unpack, w32, w64}

-- RobotError::Data. A number is its bit pattern.
pub data Data : Type 0 where
  unsigned signed float : ℕ → Data
  string : Bytes → Data

-- RobotError and RobotRuntimeException.
pub data RobotException : Type 0 where
  robot_error : (timestamp code sub_code source level data_type : ℕ) → Data → RobotException
  runtime_exception : (timestamp line column : ℕ) → Bytes → RobotException

-- The types of data that are read as a uint32_t, and as an int32_t.
abbrev pub is_unsigned : ℕ → Bool
is_unsigned t = t == 0 || t == 1 || t == 4

abbrev pub is_signed : ℕ → Bool
is_signed t = t == 2 || t == 6

-- The switch of `parserRobotError` on the type; `none` is a null pointer.
unfoldable pub error_data : ℕ → Bytes → Result (Option Data)
error_data t rest =
    if is_unsigned t
    then (unpack w32 rest >>= λ v. ok (some (unsigned v)))
    else if is_signed t
    then (unpack w32 rest >>= λ v. ok (some (signed v)))
    else if t == 5
    then ok (some (string rest))
    else if t == 3
    then (unpack w32 rest >>= λ v. ok (some (float v)))
    else ok none

unfoldable pub parser_robot_error : ℕ → ℕ → Bytes → ℕ → Result (Option RobotException)
unfolding error_data
parser_robot_error timestamp source msg_body offset = do
  code ← unpack w32 (drop offset msg_body)
  sub_code ← unpack w32 (drop (offset + 4) msg_body)
  level ← unpack w32 (drop (offset + 8) msg_body)
  data_type ← unpack w32 (drop (offset + 12) msg_body)
  read ← error_data data_type (drop (offset + 16) msg_body)
  elim read [
    | none ↦ ok none
    | some d ↦ ok (some (robot_error timestamp code sub_code source level data_type d))
  ]

unfoldable pub paraser_runtime_exception : ℕ → Bytes → ℕ → Result (Option RobotException)
paraser_runtime_exception timestamp msg_body offset = do
  line ← unpack w32 (drop offset msg_body)
  column ← unpack w32 (drop (offset + 4) msg_body)
  ok (some (runtime_exception timestamp line column (drop (offset + 8) msg_body)))

unfoldable pub parser_exception : Bytes → Result (Option RobotException)
unfolding parser_robot_error paraser_runtime_exception
parser_exception msg_body = do
  timestamp ← unpack w64 msg_body
  source ← at msg_body 8
  kind ← at msg_body 9
  if kind == 6
      then parser_robot_error timestamp source msg_body 10
      else if kind == 10
      then paraser_runtime_exception timestamp msg_body 10
      else ok none
