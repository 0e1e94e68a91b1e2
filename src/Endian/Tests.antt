-- ===== src/Endian/Tests.antt =====
-- Runs of the conversions, and their properties at concrete values.
use elite_robots_cs_sdk.Shared.{ℕ, ◌≡◌, refl, List, [], ◌∷◌, Bytes, ok, fault}
use elite_robots_cs_sdk.Endian.{w16, w32, pack, unpack}

pack_word : pack w32 0x0102_0304 ≡ 1 ∷ 2 ∷ 3 ∷ 4 ∷ []
unfolding pack
pack_word = refl

unpack_half : unpack w16 (1 ∷ 2 ∷ 3 ∷ []) ≡ ok 258
unfolding unpack
unpack_half = refl

unpack_short : unpack w32 (1 ∷ 2 ∷ 3 ∷ []) ≡ fault
unfolding unpack
unpack_short = refl

abbrev front : Bytes
front = 9 ∷ []

abbrev cells : List ℕ
cells = 1 ∷ 65536 ∷ []
