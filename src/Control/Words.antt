-- ===== src/Control/Words.antt =====
-- The words of the control frames. The host is little-endian, so `htonl` and `ntohl` turn the bytes
-- round.
use elite_robots_cs_sdk.Shared.{
  ℕ, ◌+◌, ◌*◌, ◌/◌, ◌%◌, ◌^◌, ◌<◌, ◌≡◌, refl, sym, ap, ◌∙◌, List, [], ◌∷◌, ◌++◌, Bytes, map,
  reverse, ◌||◌, Option, none, some, Result, ok, fault, ◌>>=◌, if◌then◌else◌, length, All, ℤ, pos,
  negsuc, ltb_ℤ, wrap, arith, IsByte, ◌-◌, ◌≤ℤ◌,
}
use elite_robots_cs_sdk.Endian.{
  host_bytes, host_value, unpack_array, pack, pack_array, pack_array_loop, w32,
}
use elite_robots_cs_sdk.Endian.RoundTrip.{pack_array-cons, unpack_array-pack_array}

-- `htonl` and `ntohl`.
unfoldable pub htonl : ℕ → ℕ
htonl v = host_value (reverse (host_bytes 4 v))

-- An array of int32_t in memory.
unfoldable pub memory : List ℕ → Bytes
memory [] = []
memory (w ∷ ws) = host_bytes 4 w ++ memory ws

-- A cast to int32_t of what is left of a number without its fraction; out of the type's range, and for
-- `none`, which is a NaN or an infinity, it is undefined.
unfoldable pub to_int32 : Option ℤ → Result ℕ
to_int32 none = fault
to_int32 (some z) =
    if ltb_ℤ z (negsuc 2147483647) || ltb_ℤ (pos 2147483647) z then fault else ok (wrap 32 z)

unfoldable pub all_int32 : List (Option ℤ) → Result (List ℕ)
unfolding to_int32
all_int32 [] = ok []
all_int32 (z ∷ zs) = do w ← to_int32 z; ws ← all_int32 zs; ok (w ∷ ws)

host_bytes-host_value : (bs : Bytes) → All IsByte bs → host_bytes (length bs) (host_value bs) ≡ bs
host_bytes-host_value [] h = refl
host_bytes-host_value (b ∷ bs) (h, hs) =
    let low : (b + 256 * host_value bs) % 256 ≡ b = omega arith in
    let high : (b + 256 * host_value bs) / 256 ≡ host_value bs = omega arith in
    rw (low, high, host_bytes-host_value bs hs)

-- In memory, the bytes of a word that went through `htonl` stand big end first.
pub host_bytes-htonl : (v : ℕ) → host_bytes 4 (htonl v) ≡ pack w32 v
unfolding htonl pack
host_bytes-htonl v =
    host_bytes-host_value
      (v / 256 / 256 / 256 % 256 ∷ v / 256 / 256 % 256 ∷ v / 256 % 256 ∷ v % 256 ∷ [])
      (omega arith, (omega arith, (omega arith, (omega arith, tt))))

pub memory-htonl : (ws : List ℕ) → memory (map htonl ws) ≡ pack_array w32 ws
unfolding memory
memory-htonl [] = unfold pack_array pack_array_loop in refl
memory-htonl (w ∷ ws) =
    ap (λ front. front ++ memory (map htonl ws)) (host_bytes-htonl w)
    ∙ ap (λ rest. pack w32 w ++ rest) (memory-htonl ws)
    ∙ sym (pack_array-cons w32 w ws)

-- A reader of big-endian words finds what was sent.
pub unpack_array-memory :
    (ws : List ℕ) (rest : Bytes)
    → All (λ w. w < 2 ^ 32) ws
    → unpack_array w32 (length ws) (memory (map htonl ws) ++ rest) 0 ≡ ok (ws, 4 * length ws)
unpack_array-memory ws rest h =
    let read : unpack_array w32 (length ws) (pack_array w32 ws ++ rest) 0
        ≡ ok (ws, 0 + 4 * length ws) =
      unpack_array-pack_array w32 ws [] rest h in
    let end : 0 + 4 * length ws ≡ 4 * length ws = omega arith in
    ap (λ m. unpack_array w32 (length ws) (m ++ rest) 0) (memory-htonl ws)
    ∙ read
    ∙ ap (λ n. ok (ws, n)) end

-- An integer in the range of int32_t is cast to its pattern, and read back from it.
pub to_int32_range :
    (z : ℤ)
    → ◌≤ℤ◌ (negsuc (2 ^ 31 - 1)) z
    → ◌≤ℤ◌ z (pos (2 ^ 31 - 1))
    → to_int32 (some z) ≡ ok (wrap 32 z)
unfolding to_int32
to_int32_range (pos n) lo hi = ground arith
to_int32_range (negsuc n) lo hi = ground arith

pub wrap-lt : (z : ℤ) → wrap 32 z < 2 ^ 32
wrap-lt (pos n) = omega arith
wrap-lt (negsuc n) = omega arith
