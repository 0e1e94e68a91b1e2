-- ===== src/Version.antt =====
-- source/Elite/VersionInfo.cpp, and the decimal numbers of the standard library that it uses.
pub mod Decimal
pub mod RoundTrip
pub mod Order
mod Tests
use elite_robots_cs_sdk.Shared.{
  ℕ, zero, suc, ◌+◌, ◌*◌, List, [], ◌∷◌, ◌++◌, Bytes, Bool, true, false, not, ◌&&◌, ◌||◌, Option,
  none, some, Result, ok, throws, fault, ◌>>=◌, or_fault, ◌==◌, ltb, wrap, illegal_param,
}
use elite_robots_cs_sdk.Text.{split_string}
use elite_robots_cs_sdk.Version.Decimal.{u32_to_string, stoi}

-- The four are uint32_t.
pub record VersionInfo : Type 0 where
  pub major : ℕ
  pub minor : ℕ
  pub bugfix : ℕ
  pub build : ℕ

unfoldable pub to_string : VersionInfo → Bytes
to_string v =
    u32_to_string v.major
    ++ (b'.'
        ∷ (u32_to_string v.minor
            ++ (b'.' ∷ (u32_to_string v.bugfix ++ (b'.' ∷ u32_to_string v.build)))))

-- `std::stoi`, stored in a uint32_t.
abbrev pub number : Bytes → Result ℕ
number s = stoi s >>= λ i. ok (wrap 32 i)

-- With five components or more only the first two are read.
unfoldable pub from_components : List Bytes → Result VersionInfo
from_components [] = throws illegal_param
from_components (_ ∷ []) = throws illegal_param
from_components (a ∷ b ∷ []) = do
  major ← number a
  minor ← number b
  ok (record { major = major; minor = minor; bugfix = 0; build = 0 })
from_components (a ∷ b ∷ c ∷ []) = do
  major ← number a
  minor ← number b
  bugfix ← number c
  ok (record { major = major; minor = minor; bugfix = bugfix; build = 0 })
from_components (a ∷ b ∷ c ∷ d ∷ []) = do
  major ← number a
  minor ← number b
  bugfix ← number c
  build ← number d
  ok (record { major = major; minor = minor; bugfix = bugfix; build = build })
from_components (a ∷ b ∷ _ ∷ _ ∷ _ ∷ _) = do
  major ← number a
  minor ← number b
  ok (record { major = major; minor = minor; bugfix = 0; build = 0 })

-- `fromString`. The delimiter is not empty, so that the split returns (`Text.Split`).
unfoldable pub from_string : Bytes → Result VersionInfo
unfolding from_components
from_string str = or_fault (split_string str (b'.' ∷ [])) >>= from_components

-- The constructor from a string drops what `fromString` returns.
unfoldable pub of_string : Bytes → Result VersionInfo
of_string version =
    from_string version >>= λ _. ok (record { major = 0; minor = 0; bugfix = 0; build = 0 })

unfoldable pub eq : VersionInfo → VersionInfo → Bool
eq u v = u.major == v.major && u.minor == v.minor && u.bugfix == v.bugfix && u.build == v.build

unfoldable pub ne : VersionInfo → VersionInfo → Bool
unfolding eq
ne u v = not (eq u v)

unfoldable pub gt : VersionInfo → VersionInfo → Bool
gt u v = ltb v.major u.major && ltb v.minor u.minor

unfoldable pub ge : VersionInfo → VersionInfo → Bool
unfolding eq gt
ge u v = eq u v || gt u v

unfoldable pub lt : VersionInfo → VersionInfo → Bool
unfolding ge
lt u v = not (ge u v)

unfoldable pub le : VersionInfo → VersionInfo → Bool
unfolding eq lt
le u v = eq u v || lt u v
