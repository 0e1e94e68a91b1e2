-- ===== src/Version/Tests.antt =====
-- Versions: runs, and the properties at concrete versions.
use elite_robots_cs_sdk.Shared.{
  ℕ, ◌≡◌, refl, codes, true, false, inl, ok, throws, illegal_param, arith,
}
use elite_robots_cs_sdk.Text.{split_string}
use elite_robots_cs_sdk.Version.{
  VersionInfo, to_string, from_string, of_string, from_components, eq, gt, lt, le,
}
use elite_robots_cs_sdk.Version.Decimal.{stoi}
use elite_robots_cs_sdk.Version.RoundTrip.{from_string-to_string}
use elite_robots_cs_sdk.Version.Order.{lt_both}

abbrev v : ℕ → ℕ → VersionInfo
v major minor = record { major = major; minor = minor; bugfix = 0; build = 0 }

short_fails : from_string (codes "2") ≡ throws illegal_param
unfolding from_string split_string
short_fails = refl

string_dropped : of_string (codes "2.11") ≡ ok (v 0 0)
unfolding of_string from_string from_components split_string stoi
string_dropped = refl

from_string-to_string_example : from_string (to_string (v 2 11)) ≡ ok (v 2 11)
from_string-to_string_example =
    from_string-to_string (v 2 11) (omega arith) (omega arith) (omega arith) (omega arith)

differ : eq (v 2 10) (v 2 11) ≡ false
unfolding eq
differ = refl

lt_both_example :
    (lt (v 2 10) (v 2 11) ≡ true)
    × (lt (v 2 11) (v 2 10) ≡ true)
    × (le (v 2 10) (v 2 11) ≡ true)
    × (le (v 2 11) (v 2 10) ≡ true)
    × (gt (v 2 10) (v 2 11) ≡ false)
    × (gt (v 2 11) (v 2 10) ≡ false)
lt_both_example = lt_both (v 2 10) (v 2 11) differ (inl refl)
