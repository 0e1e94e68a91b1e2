-- ===== src/Rtsi/Io/Tests.antt =====
-- Runs of the interface, and its properties at concrete recipes.
use elite_robots_cs_sdk.Shared.{
  ◌≡◌, ◌≢◌, refl, [], ◌∷◌, ◌++◌, Bytes, true, false, none, some, ok, codes, arith, pos, bytes_eq,
  fault, ◌∙◌, ◌*◌, ◌%◌, ◌^◌,
}
use elite_robots_cs_sdk.Rtsi.Value.{Kind, Value, kind, Double}
use elite_robots_cs_sdk.Rtsi.Table.{find, contains}
use elite_robots_cs_sdk.Rtsi.Recipe.{
  Recipe, pack_to_bytes, pack_items, encode, get_value, Kind-discrete,
}
use elite_robots_cs_sdk.Endian.{pack}
use mathlib.Core.Logic.{if_pos}
use elite_robots_cs_sdk.Rtsi.Recipe.RoundTrip.{Readable}
use elite_robots_cs_sdk.Rtsi.Client.Monad.{silent, Socket, started, idle, Client}
use elite_robots_cs_sdk.Rtsi.Client.Receive.{data_package, text_message}
use elite_robots_cs_sdk.Rtsi.Client.Skip.{Package, sent_as, stream}
use elite_robots_cs_sdk.Rtsi.Io.{running, Interface}
use elite_robots_cs_sdk.Rtsi.Io.Getters.{read, get_payload_cog}
use elite_robots_cs_sdk.Rtsi.Io.Setters.{set_standard_digital, bit_of}
use elite_robots_cs_sdk.Rtsi.Io.Life.{receive_output}
use elite_robots_cs_sdk.Rtsi.Io.Reading.{read-shown, read-received}
use elite_robots_cs_sdk.Rtsi.Io.Writing.{mask_name, level_name, set_standard_digital-stores}

abbrev no_double : Double
no_double = record { of_int = λ z. 0; truncate = λ x. none; is_zero = λ x. false }

abbrev open_socket : Bytes → Socket
open_socket incoming = record {
  incoming = incoming;
  ending = silent;
  polls = [];
  writes = [];
  sent = [];
}

abbrev open_client : Bytes → Client
open_client incoming = record {
  socket = some (open_socket incoming);
  connection_state = started;
  stopped = true;
  late = idle;
}

abbrev robot : Recipe
robot = record {
  recipe_list = codes "timestamp" ∷ codes "robot_mode" ∷ [];
  value_table = (codes "timestamp", Value.double 5) ∷ (codes "robot_mode", Value.int32 7) ∷ [];
  recipe_id = 1;
}

abbrev mine : Recipe
mine = record robot {
  value_table = (codes "timestamp", Value.double 0) ∷ (codes "robot_mode", Value.int32 0) ∷ [];
}

abbrev outputs : Recipe
outputs = record {
  recipe_list = mask_name ∷ level_name ∷ [];
  value_table = (mask_name, Value.uint16 0) ∷ (level_name, Value.uint16 0) ∷ [];
  recipe_id = 2;
}

abbrev session : Bytes → Interface
session incoming = record {
  client = open_client incoming;
  input_new_cmd = false;
  input_recipe_string = outputs.recipe_list;
  output_recipe_string = robot.recipe_list;
  target_frequency = 0;
  input_recipe = some outputs;
  output_recipe = some mine;
  recv_thread = running;
  is_recv_thread_alive = true;
  controller_version = (2, 14, 0, 0);
}

-- The output recipe has no payload, and the getter reads a variable that was not set.
reads_payload : get_payload_cog (session []) ≡ fault
unfolding get_payload_cog find bytes_eq get_value
reads_payload = refl

abbrev hello : Package
hello = record { cmd = text_message; head = 2; tail = 104 ∷ [] }

abbrev carrier : Package
carrier = record {
  cmd = data_package;
  head = 1;
  tail = 0 ∷ 0 ∷ 0 ∷ 0 ∷ 0 ∷ 0 ∷ 0 ∷ 5 ∷ 0 ∷ 0 ∷ 0 ∷ 7 ∷ [];
}

abbrev coming : Bytes
coming = stream (hello ∷ []) (sent_as carrier ++ (9 ∷ []))

robot-Readable : Readable robot.value_table mine.value_table robot.recipe_list
unfolding find bytes_eq
robot-Readable = (
  (Value.double 5, Value.double 0, refl, refl, refl, tt, omega arith),
  ((Value.int32 7, Value.int32 0, refl, refl, refl, tt, omega arith), tt),
)

robot_packs : pack_to_bytes robot ≡ ok (carrier.head ∷ carrier.tail)
unfolding pack_to_bytes pack_items find bytes_eq encode pack
robot_packs = refl

read-received_example :
    (t : Interface) × (receive_output (session coming) ≡ (ok true, t))
    × (t.client ≡ record (open_client coming) {
      socket = some (record (open_socket coming) { incoming = 9 ∷ [] });
    })
    × ((name : Bytes) (v default : Value)
        → contains name robot.recipe_list ≡ true
        → find name robot.value_table ≡ some v
        → kind default ≡ kind v
        → read default name t ≡ ok v)
read-received_example =
    read-received (session coming) robot mine carrier (hello ∷ []) (9 ∷ []) (open_socket coming)
      refl refl (omega arith) refl refl robot-Readable robot_packs refl (omega arith)
      ((omega arith, omega arith), tt) refl (refl, refl)

set_standard_digital-stores_example :
    (t : Interface) × (q : Recipe) × (set_standard_digital no_double (pos 3) true (session [])
      ≡ ok (t, true))
    × (t.input_new_cmd ≡ true)
    × (t.input_recipe ≡ some q)
    × (get_value Kind.uint16 q mask_name ≡ ok (some (Value.uint16 (2 ^ 3 % 2 ^ 16))))
    × (get_value Kind.uint16 q level_name ≡ ok (some (Value.uint16 (bit_of true * 2 ^ 3 % 2 ^ 16))))
    × ((k : Bytes)
        → k ≢ mask_name
        → k ≢ level_name
        → find k q.value_table ≡ find k outputs.value_table)
unfolding find bytes_eq
set_standard_digital-stores_example =
    set_standard_digital-stores no_double (session []) outputs 3 0 0 true refl refl refl
      (omega arith)

outputs_packs : pack_to_bytes outputs ≡ ok (2 ∷ 0 ∷ 0 ∷ 0 ∷ 0 ∷ [])
unfolding pack_to_bytes pack_items find bytes_eq encode pack
outputs_packs = refl

mode_read : read (Value.int32 0) (codes "robot_mode") (session []) ≡ ok (Value.int32 0)
unfolding find bytes_eq
mode_read =
    read-shown (Value.int32 0) (codes "robot_mode") (session []) mine refl
    ∙ if_pos (Kind-discrete Kind.int32 Kind.int32) refl _ _
