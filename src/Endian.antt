-- ===== src/Endian.antt =====
-- include/Common/EndianUtils.hpp: conversions between big-endian bytes and the host's values.
-- The host is little-endian. A value of a fundamental type is the number of its bit pattern (for
-- `float` and `double` too), below 256 ^ size.
pub mod RoundTrip
mod Tests
use elite_robots_cs_sdk.Shared.{
  ℕ, zero, suc, ◌+◌, ◌-◌, ◌*◌, ◌/◌, ◌%◌, List, [], ◌∷◌, ◌++◌, Bytes, Result, ok, ◌>>=◌, or_fault,
  get_elem?, get_or, set, replicate, drop,
}

-- The fundamental types, by `sizeof`.
pub data Width : Type 0 where
  w8 w16 w32 w64 : Width

abbrev pub size : Width → ℕ
size w8 = 1
size w16 = 2
size w32 = 4
size w64 = 8

-- The union of a value and its bytes: the value that the bytes make, lowest byte first, and back.
abbrev pub host_value : Bytes → ℕ
host_value [] = 0
host_value (b ∷ bs) = b + 256 * host_value bs

abbrev pub host_bytes : ℕ → ℕ → Bytes
host_bytes zero v = []
host_bytes (suc n) v = (v % 256) ∷ host_bytes n (v / 256)

-- `*(message + i)` for an iterator; behind the end it is undefined.
abbrev pub at : Bytes → ℕ → Result ℕ
at message i = or_fault (get_elem? message i)

-- `unpack(iterator, out_value)`, in the form for standards before C++17. The list is what stands from
-- the iterator on. The C++17 form is the same but for one byte, where it gives a union that was not set.
unfoldable pub unpack : Width → Bytes → Result ℕ
unpack w64 message = do
  b0 ← at message 7
  b1 ← at message 6
  b2 ← at message 5
  b3 ← at message 4
  b4 ← at message 3
  b5 ← at message 2
  b6 ← at message 1
  b7 ← at message 0
  ok (host_value (b0 ∷ b1 ∷ b2 ∷ b3 ∷ b4 ∷ b5 ∷ b6 ∷ b7 ∷ []))
unpack w32 message = do
  b0 ← at message 3
  b1 ← at message 2
  b2 ← at message 1
  b3 ← at message 0
  ok (host_value (b0 ∷ b1 ∷ b2 ∷ b3 ∷ []))
unpack w16 message = do b0 ← at message 1; b1 ← at message 0; ok (host_value (b0 ∷ b1 ∷ []))
unpack w8 message = at message 0

-- `unpack(message, message_offset, out_value)`: the value and the new offset.
unfoldable pub unpack_offset : Width → Bytes → ℕ → Result (ℕ × ℕ)
unpack_offset w message offset = do
  value ← unpack w (drop offset message)
  ok (value, offset + size w)

-- `unpack(message, message_offset, std::array)`: `count` values one behind the other.
unfoldable pub unpack_array : Width → ℕ → Bytes → ℕ → Result (List ℕ × ℕ)
unpack_array w zero message offset = ok ([], offset)
unpack_array w (suc count) message offset = do
  (value, next) ← unpack_offset w message offset
  (values, end) ← unpack_array w count message next
  ok (value ∷ values, end)

-- The loop of `pack`, with `left` rounds to go: `result[(sizeof(T) - 1) - i] = msg.bytes[i]`.
abbrev pub pack_loop : ℕ → ℕ → ℕ → Bytes → Bytes → Bytes
pack_loop zero i n bytes result = result
pack_loop (suc left) i n bytes result =
    pack_loop left (suc i) n bytes (set result (n - 1 - i) (get_or bytes i 0))

-- `pack(value)`.
unfoldable pub pack : Width → ℕ → Bytes
pack w value = pack_loop (size w) 0 (size w) (host_bytes (size w) value) (replicate (size w) 0)

-- The loop of `pack(std::array)`: `temp` is appended to `result`.
unfoldable pub pack_array_loop : Width → List ℕ → Bytes → Bytes
pack_array_loop w [] result = result
pack_array_loop w (v ∷ vs) result = pack_array_loop w vs (result ++ pack w v)

unfoldable pub pack_array : Width → List ℕ → Bytes
pack_array w values = pack_array_loop w values []
