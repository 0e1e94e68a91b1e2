-- ===== src/Rtsi/Recipe/Layout.antt =====
-- One value of a recipe on the wire: `encode` and `decode` undo one another.
use elite_robots_cs_sdk.Shared.{
  ℕ, ◌+◌, ◌^◌, ◌<◌, ◌≡◌, List, ◌∷◌, ◌++◌, Bytes, true, false, some, ok, length, All,
  drop-length-append,
}
use elite_robots_cs_sdk.Endian.{Width, w16, w32, w64, size, unpack_array, pack_array}
use elite_robots_cs_sdk.Endian.RoundTrip.{
  unpack_offset-append, unpack_array-pack_array, length-pack, length-pack_array,
}
use elite_robots_cs_sdk.Rtsi.Value.{Kind, Value, kind, Fits}
use elite_robots_cs_sdk.Rtsi.Recipe.{decode, encode}

-- The alternatives that `packToBytes` and `parserDataPackage` have a branch for.
abbrev pub IsSent : Kind → Type 0
IsSent Kind.int8 = ⊥
IsSent Kind.int16 = ⊥
IsSent Kind.int64 = ⊥
IsSent _ = Unit {0}

array_decode :
    (w : Width) (n : ℕ) (xs : List ℕ) (front rest : Bytes)
    → length xs ≡ n
    → All (λ x. x < 256 ^ size w) xs
    → unpack_array w n (front ++ (pack_array w xs ++ rest)) (length front)
      ≡ ok (xs, length front + length (pack_array w xs))
array_decode w n xs front rest e h =
    rw (← e, length-pack_array) (unpack_array-pack_array w xs front rest h)

-- A value is read back from where it was appended, at the offset of its first byte.
pub decode-encode :
    (v : Value) (front rest : Bytes)
    → IsSent (kind v)
    → Fits v
    → decode (kind v) (front ++ (encode v ++ rest)) (length front)
      ≡ ok (some (v, length front + length (encode v)))
unfolding decode encode
decode-encode (Value.bool true) front rest s f = rw (drop-length-append front (1 ∷ rest))
decode-encode (Value.bool false) front rest s f = rw (drop-length-append front (0 ∷ rest))
decode-encode (Value.uint8 x) front rest s f = rw (drop-length-append front (x ∷ rest))
decode-encode (Value.uint16 x) front rest s f =
    rw (unpack_offset-append w16 front rest x f, length-pack)
decode-encode (Value.uint32 x) front rest s f =
    rw (unpack_offset-append w32 front rest x f, length-pack)
decode-encode (Value.uint64 x) front rest s f =
    rw (unpack_offset-append w64 front rest x f, length-pack)
decode-encode (Value.int32 x) front rest s f =
    rw (unpack_offset-append w32 front rest x f, length-pack)
decode-encode (Value.double x) front rest s f =
    rw (unpack_offset-append w64 front rest x f, length-pack)
decode-encode (Value.vector3d xs) front rest s f = rw (array_decode w64 3 xs front rest f.0 f.1)
decode-encode (Value.vector6d xs) front rest s f = rw (array_decode w64 6 xs front rest f.0 f.1)
decode-encode (Value.vector6int32 xs) front rest s f = rw (array_decode w32 6 xs front rest f.0 f.1)
decode-encode (Value.vector6uint32 xs) front rest s f =
    rw (array_decode w32 6 xs front rest f.0 f.1)
decode-encode v front rest s f = absurd s
