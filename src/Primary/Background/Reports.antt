-- ===== src/Primary/Background/Reports.antt =====
-- How often the background thread reports that the robot is disconnected.
use elite_robots_cs_sdk.Shared.{◌+◌, ◌≡◌, Bool, Result, ok, throws, fault, length}
use elite_robots_cs_sdk.Primary.Background.{Background, one_if}

-- Between two states, every connection that was lost was reported once.
abbrev Balanced : Background → Background → Type 0
Balanced s t =
    length t.disconnected + one_if t.is_last_connect_success + s.connections
    ≡ length s.disconnected + one_if s.is_last_connect_success + t.connections

abbrev Leads : Background → Result Background → Type 0
Leads s (ok t) = Balanced s t
Leads s (throws e) = Unit {0}
Leads s fault = Unit {0}

abbrev pub Returns : Result Bool → Type 0
Returns (ok b) = Unit {0}
Returns (throws e) = ⊥
Returns fault = Unit {0}
