-- ===== src/Rtsi/Value.antt =====
-- RtsiTypeVariant (include/Elite/DataType.hpp), and the conversions of RtsiRecipe::setVariantValue
-- (include/Rtsi/RtsiRecipe.hpp).
pub mod Set
use elite_robots_cs_sdk.Shared.{
  ℕ, zero, ◌+◌, ◌^◌, ◌<◌, ◌≡◌, List, [], ◌∷◌, Bool, true, false, not, ◌||◌, Option, none, some,
  Result, ok, fault, ◌>>=◌, ◌==◌, ltb, if◌then◌else◌, length, All, ℤ, pos, negsuc, wrap, ltb_ℤ,
}

-- The alternatives of the variant.
pub data Kind : Type 0 where
  bool int8 uint8 int16 uint16 int32 uint32 int64 uint64 double : Kind
  vector3d vector6d vector6int32 vector6uint32 : Kind

-- A value of integer or floating type is its bit pattern, an array the list of its elements.
pub data Value : Type 0 where
  bool : Bool → Value
  int8 uint8 int16 uint16 int32 uint32 int64 uint64 double : ℕ → Value
  vector3d vector6d vector6int32 vector6uint32 : List ℕ → Value

abbrev pub kind : Value → Kind
kind (Value.bool _) = Kind.bool
kind (Value.int8 _) = Kind.int8
kind (Value.uint8 _) = Kind.uint8
kind (Value.int16 _) = Kind.int16
kind (Value.uint16 _) = Kind.uint16
kind (Value.int32 _) = Kind.int32
kind (Value.uint32 _) = Kind.uint32
kind (Value.int64 _) = Kind.int64
kind (Value.uint64 _) = Kind.uint64
kind (Value.double _) = Kind.double
kind (Value.vector3d _) = Kind.vector3d
kind (Value.vector6d _) = Kind.vector6d
kind (Value.vector6int32 _) = Kind.vector6int32
kind (Value.vector6uint32 _) = Kind.vector6uint32

-- `std::array<T, n>` with elements of the given number of bits.
abbrev pub IsArray : ℕ → ℕ → List ℕ → Type 0
IsArray n bits xs = (length xs ≡ n) × All (λ x. x < 2 ^ bits) xs

-- A pattern is within the width of its type, and an array has its size.
abbrev pub Fits : Value → Type 0
Fits (Value.bool _) = Unit {0}
Fits (Value.int8 x) = x < 2 ^ 8
Fits (Value.uint8 x) = x < 2 ^ 8
Fits (Value.int16 x) = x < 2 ^ 16
Fits (Value.uint16 x) = x < 2 ^ 16
Fits (Value.int32 x) = x < 2 ^ 32
Fits (Value.uint32 x) = x < 2 ^ 32
Fits (Value.int64 x) = x < 2 ^ 64
Fits (Value.uint64 x) = x < 2 ^ 64
Fits (Value.double x) = x < 2 ^ 64
Fits (Value.vector3d xs) = IsArray 3 64 xs
Fits (Value.vector6d xs) = IsArray 6 64 xs
Fits (Value.vector6int32 xs) = IsArray 6 32 xs
Fits (Value.vector6uint32 xs) = IsArray 6 32 xs

-- The conversions between `double` and the integers. They are the processor's, on bit patterns;
-- `truncate` gives `none` for a NaN or an infinity.
pub record Double : Type 0 where
  pub of_int : ℤ → ℕ
  pub truncate : ℕ → Option ℤ
  pub is_zero : ℕ → Bool

-- The argument of `setValue`: an integer of any integral type, a `double`, or an array.
pub data Arg : Type 0 where
  integer : ℤ → Arg
  real : ℕ → Arg
  vector3d vector6d vector6int32 vector6uint32 : List ℕ → Arg

-- A `double` out of the range lo ≤ x < hi of an integer type converts with undefined behaviour.
unfoldable pub real_to_int : Double → ℤ → ℤ → ℕ → Result ℤ
real_to_int d lo hi x = elim (d.truncate x) [
  | none ↦ fault
  | some z ↦ if ltb_ℤ z lo || not (ltb_ℤ z hi) then fault else ok z
]

abbrev pub is_zero_int : ℤ → Bool
is_zero_int (pos zero) = true
is_zero_int _ = false

unfoldable pub real_to_unsigned : Double → ℕ → ℕ → Result ℕ
unfolding real_to_int
real_to_unsigned d bits x = do z ← real_to_int d (pos 0) (pos (2 ^ bits)) x; ok (wrap bits z)

unfoldable pub real_to_int32 : Double → ℕ → Result ℕ
unfolding real_to_int
real_to_int32 d x = do z ← real_to_int d (negsuc (2 ^ 31)) (pos (2 ^ 31)) x; ok (wrap 32 z)

-- `setVariantValue`: the alternative that the variant holds decides; `none` is the result `false`.
unfoldable pub set_variant : Double → Value → Arg → Result (Option Value)
unfolding real_to_unsigned real_to_int32
set_variant d (Value.bool _) (integer z) = ok (some (Value.bool (not (is_zero_int z))))
set_variant d (Value.bool _) (real x) = ok (some (Value.bool (not (d.is_zero x))))
set_variant d (Value.uint8 _) (integer z) = ok (some (Value.uint8 (wrap 8 z)))
set_variant d (Value.uint8 _) (real x) = do w ← real_to_unsigned d 8 x; ok (some (Value.uint8 w))
set_variant d (Value.uint16 _) (integer z) = ok (some (Value.uint16 (wrap 16 z)))
set_variant d (Value.uint16 _) (real x) = do w ← real_to_unsigned d 16 x; ok (some (Value.uint16 w))
set_variant d (Value.uint32 _) (integer z) = ok (some (Value.uint32 (wrap 32 z)))
set_variant d (Value.uint32 _) (real x) = do w ← real_to_unsigned d 32 x; ok (some (Value.uint32 w))
set_variant d (Value.uint64 _) (integer z) = ok (some (Value.uint64 (wrap 64 z)))
set_variant d (Value.uint64 _) (real x) = do w ← real_to_unsigned d 64 x; ok (some (Value.uint64 w))
set_variant d (Value.int32 _) (integer z) = ok (some (Value.int32 (wrap 32 z)))
set_variant d (Value.int32 _) (real x) = do w ← real_to_int32 d x; ok (some (Value.int32 w))
set_variant d (Value.double _) (integer z) = ok (some (Value.double (d.of_int z)))
set_variant d (Value.double _) (real x) = ok (some (Value.double x))
set_variant d (Value.vector3d _) (Arg.vector3d xs) = ok (some (Value.vector3d xs))
set_variant d (Value.vector6d _) (Arg.vector6d xs) = ok (some (Value.vector6d xs))
set_variant d (Value.vector6int32 _) (Arg.vector6int32 xs) = ok (some (Value.vector6int32 xs))
set_variant d (Value.vector6uint32 _) (Arg.vector6uint32 xs) = ok (some (Value.vector6uint32 xs))
set_variant d v arg = ok none
