-- ===== src/Rtsi/Value/Set.antt =====
-- What a write to a variant does: it keeps the alternative, and an integer in range is kept too.
use elite_robots_cs_sdk.Shared.{◌-◌, ◌^◌, ◌≡◌, some, ok, arith, ℤ, pos, negsuc, wrap, signed, ◌≤ℤ◌}
use elite_robots_cs_sdk.Rtsi.Value.{Value, kind, Double, Arg, integer, set_variant}

pub set_variant-kind :
    (d : Double) (v : Value) (arg : Arg) (w : Value)
    → set_variant d v arg ≡ ok (some w)
    → kind w ≡ kind v
unfolding set_variant
set_variant-kind d (Value.bool b) (integer z) w e = ground arith
set_variant-kind d v arg w e = ground arith

-- A signed 32-bit integer goes through its bit pattern unchanged.
pub signed-wrap :
    (z : ℤ) → ◌≤ℤ◌ (negsuc (2 ^ 31 - 1)) z → ◌≤ℤ◌ z (pos (2 ^ 31 - 1)) → signed 32 (wrap 32 z) ≡ z
signed-wrap (pos n) lo hi = ground arith
signed-wrap (negsuc n) lo hi = ground arith
