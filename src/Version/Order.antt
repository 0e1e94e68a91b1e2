-- ===== src/Version/Order.antt =====
-- The comparison operators.
use elite_robots_cs_sdk.Shared.{◌≡◌, ◌⊎◌, true, false, ◌&&◌, arith, ==_refl}
use elite_robots_cs_sdk.Version.{VersionInfo, eq, ne, gt, ge, lt, le}

-- `==` decides equality.
eq→≡ : (u v : VersionInfo) → eq u v ≡ true → u ≡ v
unfolding eq
eq→≡ u v h =
    let a : u.major ≡ v.major = ground arith in
    let b : u.minor ≡ v.minor = ground arith in
    let c : u.bugfix ≡ v.bugfix = ground arith in
    let d : u.build ≡ v.build = ground arith in
    λ i. record { major = a i; minor = b i; bugfix = c i; build = d i }

eq_refl : (u : VersionInfo) → eq u u ≡ true
unfolding eq
eq_refl u = rw (==_refl u.major, ==_refl u.minor, ==_refl u.bugfix, ==_refl u.build)

-- `>=` is a partial order.
ge-order :
    (u v w : VersionInfo)
    → (ge u u ≡ true)
      × (ge u v ≡ true → ge v u ≡ true → u ≡ v)
      × (ge u v ≡ true → ge v w ≡ true → ge u w ≡ true)
unfolding ge eq gt
ge-order u v w = (rw (eq_refl u), (λ h k. eq→≡ u v (ground arith)), λ h k. ground arith)

-- `>` is irreflexive, transitive and asymmetric, and holds exactly where `>=` and `!=` do.
gt-order :
    (u v w : VersionInfo)
    → (gt u u ≡ false)
      × (gt u v ≡ true → gt v w ≡ true → gt u w ≡ true)
      × (gt u v ≡ true → gt v u ≡ false)
      × (gt u v ≡ ge u v && ne u v)
unfolding ne ge eq gt
gt-order u v w = (ground arith, (λ h k. ground arith), (λ h. ground arith), ground arith)

-- Two versions that differ and agree in the major or the minor number are each less than the other,
-- so that neither is greater or equal.
pub lt_both :
    (u v : VersionInfo)
    → eq u v ≡ false
    → (u.major ≡ v.major) ⊎ (u.minor ≡ v.minor)
    → (lt u v ≡ true)
      × (lt v u ≡ true)
      × (le u v ≡ true)
      × (le v u ≡ true)
      × (gt u v ≡ false)
      × (gt v u ≡ false)
unfolding lt le ge eq gt
lt_both u v h same = ground arith
