-- ===== src/Endian/RoundTrip.antt =====
-- What the conversions of EndianUtils do: they agree with the big-endian reading of the bytes, stay
-- inside the buffer, and undo one another.
use mathlib.Core.List.{append_assoc, append-nil}
use elite_robots_cs_sdk.Shared.{
  ℕ, zero, suc, ◌+◌, ◌*◌, ◌/◌, ◌%◌, ◌^◌, ◌≤◌, ◌<◌, ◌≡◌, refl, sym, ap, ◌∙◌, List, [], ◌∷◌, ◌++◌,
  Bytes, IsByte, leb, leb→le, if◌then◌else◌, inl, inr, Bool-cases, ok, fault, arith, length, take,
  All, length-append, drop-length-append,
}
use elite_robots_cs_sdk.Endian.{
  Width, w8, w16, w32, w64, size, unpack, unpack_offset, unpack_array, pack, pack_array,
  pack_array_loop,
}

-- The number that bytes make in network order, highest byte first.
pub big_value : ℕ → Bytes → ℕ
big_value acc [] = acc
big_value acc (b ∷ bs) = big_value (acc * 256 + b) bs

-- The bytes of a number in network order.
pub big_bytes : ℕ → ℕ → Bytes
big_bytes zero v = []
big_bytes (suc n) v = big_bytes n (v / 256) ++ ((v % 256) ∷ [])

big_value_lem :
    (w : Width) (m : Bytes) → size w ≤ length m → unpack w m ≡ ok (big_value 0 (take (size w) m))
unfolding unpack big_value
big_value_lem w8 (a ∷ m) h = ap ok (omega arith)
big_value_lem w16 (a ∷ b ∷ m) h = ap ok (omega arith)
big_value_lem w32 (a ∷ b ∷ c ∷ d ∷ m) h = ap ok (omega arith)
big_value_lem w64 (a ∷ b ∷ c ∷ d ∷ e ∷ f ∷ g ∷ i ∷ m) h = ap ok (omega arith)
big_value_lem w m h = absurd (omega arith)

unpack_short : (w : Width) (m : Bytes) → length m < size w → unpack w m ≡ fault
unfolding unpack
unpack_short w8 [] h = refl
unpack_short w16 [] h = refl
unpack_short w16 (a ∷ []) h = refl
unpack_short w32 [] h = refl
unpack_short w32 (a ∷ []) h = refl
unpack_short w32 (a ∷ b ∷ []) h = refl
unpack_short w32 (a ∷ b ∷ c ∷ []) h = refl
unpack_short w64 [] h = refl
unpack_short w64 (a ∷ []) h = refl
unpack_short w64 (a ∷ b ∷ []) h = refl
unpack_short w64 (a ∷ b ∷ c ∷ []) h = refl
unpack_short w64 (a ∷ b ∷ c ∷ d ∷ []) h = refl
unpack_short w64 (a ∷ b ∷ c ∷ d ∷ e ∷ []) h = refl
unpack_short w64 (a ∷ b ∷ c ∷ d ∷ e ∷ f ∷ []) h = refl
unpack_short w64 (a ∷ b ∷ c ∷ d ∷ e ∷ f ∷ g ∷ []) h = refl
unpack_short w m h = absurd (omega arith)

-- `unpack` gives the network-order value of the first `sizeof(T)` bytes, and reads outside the
-- buffer exactly when there are fewer.
pub unpack-big_value :
    (w : Width) (m : Bytes)
    → unpack w m ≡ (if leb (size w) (length m) then ok (big_value 0 (take (size w) m)) else fault)
unpack-big_value w m = elim (Bool-cases (leb (size w) (length m))) [
  | inl enough ↦ rw enough (big_value_lem w m (leb→le _ _ enough))
  | inr short ↦ rw short (unpack_short w m (ground arith))
]

-- `pack` writes the bytes of a value in network order.
pub pack-big_bytes : (w : Width) (v : ℕ) → pack w v ≡ big_bytes (size w) v
unfolding pack big_bytes
pack-big_bytes w8 v = refl
pack-big_bytes w16 v = refl
pack-big_bytes w32 v = refl
pack-big_bytes w64 v = refl

pub length-pack : (w : Width) (v : ℕ) → length (pack w v) ≡ size w
unfolding pack
length-pack w8 v = refl
length-pack w16 v = refl
length-pack w32 v = refl
length-pack w64 v = refl

-- `unpack` reads back the value that `pack` wrote, whatever follows it.
pub unpack-pack :
    (w : Width) (v : ℕ) (rest : Bytes) → v < 256 ^ size w → unpack w (pack w v ++ rest) ≡ ok v
unfolding unpack pack
unpack-pack w8 v rest h = ap ok (omega arith)
unpack-pack w16 v rest h = ap ok (omega arith)
unpack-pack w32 v rest h = ap ok (omega arith)
unpack-pack w64 v rest h = ap ok (omega arith)

-- `pack` writes bytes.
pub pack-IsByte : (w : Width) (v : ℕ) → v < 256 ^ size w → All IsByte (pack w v)
unfolding pack
pack-IsByte w8 v h = omega arith
pack-IsByte w16 v h = omega arith
pack-IsByte w32 v h = omega arith
pack-IsByte w64 v h = omega arith

-- Whatever `unpack` reads, `pack` writes the same bytes back.
pack-unpack :
    (w : Width) (m : Bytes) (v : ℕ) → All IsByte m → unpack w m ≡ ok v → pack w v ≡ take (size w) m
unfolding pack unpack
pack-unpack w8 (a ∷ m) v b e = ground arith
pack-unpack w16 (a ∷ c ∷ m) v b e = ground arith
pack-unpack w32 (a ∷ c ∷ d ∷ f ∷ m) v b e = ground arith
pack-unpack w64 (a ∷ c ∷ d ∷ f ∷ g ∷ i ∷ j ∷ k ∷ m) v b e = ground arith
pack-unpack w m v b e = cc

pack_array_loop-append :
    (w : Width) (vs : List ℕ) (result : Bytes)
    → pack_array_loop w vs result ≡ result ++ pack_array w vs
unfolding pack_array_loop pack_array
pack_array_loop-append w [] result = sym (append-nil result)
pack_array_loop-append w (v ∷ vs) result =
    pack_array_loop-append w vs (result ++ pack w v)
    ∙ append_assoc result (pack w v) _
    ∙ ap (◌++◌ result) (sym (pack_array_loop-append w vs (pack w v)))

-- An array's bytes are those of its elements, one behind the other.
pub pack_array-cons :
    (w : Width) (v : ℕ) (vs : List ℕ) → pack_array w (v ∷ vs) ≡ pack w v ++ pack_array w vs
unfolding pack_array pack_array_loop
pack_array-cons w v vs = pack_array_loop-append w vs (pack w v)

pub length-pack_array : (w : Width) (vs : List ℕ) → length (pack_array w vs) ≡ size w * length vs
length-pack_array w [] = unfold pack_array pack_array_loop in omega arith
length-pack_array w (v ∷ vs) =
    rw (pack_array-cons, length-append, length-pack, length-pack_array w vs) (ground arith)

pub unpack_offset-append :
    (w : Width) (front rest : Bytes) (v : ℕ)
    → v < 256 ^ size w
    → unpack_offset w (front ++ (pack w v ++ rest)) (length front) ≡ ok (v, length front + size w)
unfolding unpack_offset
unpack_offset-append w front rest v h =
    rw (drop-length-append front (pack w v ++ rest), unpack-pack w v rest h)

-- `unpack` of an array reads back the elements that `pack` wrote, at any offset, and leaves the
-- offset behind them.
pub unpack_array-pack_array :
    (w : Width) (vs : List ℕ) (front rest : Bytes)
    → All (λ v. v < 256 ^ size w) vs
    → unpack_array w (length vs) (front ++ (pack_array w vs ++ rest)) (length front)
      ≡ ok (vs, length front + size w * length vs)
unfolding unpack_array
unpack_array-pack_array w [] front rest h = ground arith
unpack_array-pack_array w (v ∷ vs) front rest (hv, h) =
    let ih = unpack_array-pack_array w vs (front ++ pack w v) rest h in
    let next = rw (append_assoc, length-append, length-pack) at ih in
    rw (pack_array-cons, append_assoc)
      (rw (unpack_offset-append w front (pack_array w vs ++ rest) v hv, next) (ground arith))
