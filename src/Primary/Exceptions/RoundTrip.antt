-- ===== src/Primary/Exceptions/RoundTrip.antt =====
-- `parserException` reads what a robot sends.
use elite_robots_cs_sdk.Shared.{
  ℕ, ◌<◌, ◌^◌, ◌≡◌, sym, ap, ◌∙◌, [], ◌∷◌, ◌++◌, Bytes, true, false, some, ok, arith,
}
use mathlib.Core.List.{append-nil}
use elite_robots_cs_sdk.Endian.{unpack, pack, w32, w64}
use elite_robots_cs_sdk.Endian.RoundTrip.{unpack-pack}
use elite_robots_cs_sdk.Primary.Exceptions.{
  Data, RobotException, robot_error, runtime_exception, is_unsigned, is_signed, error_data,
  parser_robot_error, paraser_runtime_exception, parser_exception,
}

-- The data as the robot sends them, which fit their type.
abbrev pub data_bytes : Data → Bytes
data_bytes (Data.unsigned v) = pack w32 v
data_bytes (Data.signed v) = pack w32 v
data_bytes (Data.float v) = pack w32 v
data_bytes (Data.string s) = s

abbrev pub IsData : ℕ → Data → Type 0
IsData t (Data.unsigned v) = (is_unsigned t ≡ true) × (v < 2 ^ 32)
IsData t (Data.signed v) = (is_signed t ≡ true) × (v < 2 ^ 32)
IsData t (Data.float v) = (t ≡ 3) × (v < 2 ^ 32)
IsData t (Data.string s) = t ≡ 5

-- The body of an exception message; the source of a runtime exception is not kept.
abbrev pub exception_bytes : ℕ → RobotException → Bytes
exception_bytes _ (robot_error timestamp code sub_code source level data_type d) =
    pack w64 timestamp
    ++ (source
        ∷ 6
        ∷ (pack w32 code
            ++ (pack w32 sub_code ++ (pack w32 level ++ (pack w32 data_type ++ data_bytes d)))))
exception_bytes source (runtime_exception timestamp line column text) =
    pack w64 timestamp ++ (source ∷ 10 ∷ (pack w32 line ++ (pack w32 column ++ text)))

abbrev pub IsException : RobotException → Type 0
IsException (robot_error timestamp code sub_code source level data_type d) =
    (timestamp < 2 ^ 64)
    × (code < 2 ^ 32)
    × (sub_code < 2 ^ 32)
    × (level < 2 ^ 32)
    × (data_type < 2 ^ 32)
    × IsData data_type d
IsException (runtime_exception timestamp line column text) =
    (timestamp < 2 ^ 64) × (line < 2 ^ 32) × (column < 2 ^ 32)

unpack-pack_end : (v : ℕ) → v < 2 ^ 32 → unpack w32 (pack w32 v) ≡ ok v
unpack-pack_end v h =
    ap (unpack w32) (sym (append-nil (pack w32 v))) ∙ unpack-pack w32 v [] (omega arith)

error_data-bytes : (t : ℕ) (d : Data) → IsData t d → error_data t (data_bytes d) ≡ ok (some d)
unfolding error_data
error_data-bytes t (Data.unsigned v) (k, h) = rw (k, unpack-pack_end v h)
error_data-bytes t (Data.signed v) (k, h) =
    let other : is_unsigned t ≡ false = ground arith in rw (other, k, unpack-pack_end v h)
error_data-bytes t (Data.float v) (k, h) = rw (k, unpack-pack_end v h)
error_data-bytes t (Data.string s) k = rw k

-- The message of an error or a runtime exception, whose numbers fit their types and whose data have
-- the form that its data type says, is read back as it was.
pub parser_exception-bytes :
    (source : ℕ) (e : RobotException)
    → IsException e
    → parser_exception (exception_bytes source e) ≡ ok (some e)
unfolding parser_exception parser_robot_error paraser_runtime_exception pack
parser_exception-bytes source (robot_error timestamp code sub_code from level t d)
      (h0, h1, h2, h3, h4, h5) =
    rw (
      unpack-pack w64 timestamp
          (from
            ∷ 6
            ∷ (pack w32 code
                ++ (pack w32 sub_code ++ (pack w32 level ++ (pack w32 t ++ data_bytes d)))))
          (omega arith),
      unpack-pack w32 code (pack w32 sub_code ++ (pack w32 level ++ (pack w32 t ++ data_bytes d)))
          (omega arith),
      unpack-pack w32 sub_code (pack w32 level ++ (pack w32 t ++ data_bytes d)) (omega arith),
      unpack-pack w32 level (pack w32 t ++ data_bytes d) (omega arith),
      unpack-pack w32 t (data_bytes d) (omega arith),
      error_data-bytes t d h5,
    )
parser_exception-bytes source (runtime_exception timestamp line column text) (h0, h1, h2) = rw (
  unpack-pack w64 timestamp (source ∷ 10 ∷ (pack w32 line ++ (pack w32 column ++ text)))
      (omega arith),
  unpack-pack w32 line (pack w32 column ++ text) (omega arith),
  unpack-pack w32 column text (omega arith),
)
