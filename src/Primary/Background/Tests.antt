-- ===== src/Primary/Background/Tests.antt =====
-- Rounds of the background thread.
use elite_robots_cs_sdk.Shared.{
  ◌≡◌, refl, List, [], ◌∷◌, true, false, none, ok, negsuc, codes, some,
}
use elite_robots_cs_sdk.Primary.Packages.{master_board_data}
use elite_robots_cs_sdk.Primary.Port.{Port}
use elite_robots_cs_sdk.Primary.Message.{Wire}
use elite_robots_cs_sdk.Primary.Background.{connect_primary, socket_connect, Round, Background}

abbrev quiet : Port
quiet = record {
  heap = λ p. record {
    contents = master_board_data (record {
      safety_mode = negsuc 1;
      is_robot_in_reduced_mode = false;
      operational_mode_selector_input = false;
      threeposition_enabling_device_input = false;
      internal_use = 0;
    });
    ready = false;
  };
  parser_sub_msg = λ t. none;
}

abbrev gone : Wire
gone = record { is_open = false; incoming = []; ready = 0; broken = true; pending = false }

abbrev rounds : List Round
rounds =
    record { wire = gone; timestamp = 1; reconnect = ok false }
    ∷ record { wire = gone; timestamp = 2; reconnect = ok false }
    ∷ record { wire = gone; timestamp = 3; reconnect = ok true }
    ∷ record { wire = gone; timestamp = 4; reconnect = ok false }
    ∷ []

abbrev fresh : Background
fresh = record {
  port = quiet;
  is_last_connect_success = true;
  disconnected = [];
  exceptions = [];
  connections = 0;
  pending = false;
}

abbrev later : Background
later = record fresh { is_last_connect_success = false; disconnected = 1 ∷ 4 ∷ []; connections = 1 }

-- A second robot is connected to without a `disconnect`: the thread keeps the first one's address.
keeps_first :
    (connect_primary
      (codes "10.0.0.2")
      30001
      (ok true)
      (connect_primary
        (codes "10.0.0.1")
        30001
        (ok true)
        (record { has_socket = false; thread = none })).1).1.thread
    ≡ some (codes "10.0.0.1", 30001)
unfolding connect_primary socket_connect
keeps_first = refl
