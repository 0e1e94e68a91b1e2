-- ===== src/Rtsi/Recipe/Tests.antt =====
-- Runs of the recipe's methods, and their properties at concrete recipes.
use elite_robots_cs_sdk.Shared.{
  ◌≡◌, refl, bytes_eq, List, [], ◌∷◌, ◌++◌, Bytes, true, none, some, codes, ok, All, ◌==◌,
  if◌then◌else◌, pos, negsuc, arith,
}
use elite_robots_cs_sdk.Text.{split_string, begins, find_first}
use elite_robots_cs_sdk.Rtsi.Value.{Value, kind, Double, integer, set_variant}
use elite_robots_cs_sdk.Rtsi.Table.{find, insert, assign, contains}
use elite_robots_cs_sdk.Rtsi.Recipe.{
  Recipe, create, parser_type_package, parser_data_package, pack_to_bytes, get_value, set_value,
  init_table, init_value,
}
use elite_robots_cs_sdk.Rtsi.Recipe.RoundTrip.{Readable, parser_data_package-pack_to_bytes}
use elite_robots_cs_sdk.Rtsi.Recipe.Access.{get_value-set_value}

abbrev names : List Bytes
names = codes "timestamp" ∷ codes "mode" ∷ []

abbrev ack : Bytes
ack = 0 ∷ 17 ∷ 79 ∷ 1 ∷ codes "DOUBLE,UINT16"

abbrev fresh : Recipe
fresh = record {
  recipe_list = names;
  value_table = (codes "timestamp", Value.double 0) ∷ (codes "mode", Value.uint16 0) ∷ [];
  recipe_id = 1;
}

setup : parser_type_package (create names 0) 17 ack ≡ ok fresh
unfolding parser_type_package create split_string init_table init_value bytes_eq insert
setup = refl

abbrev sending : Recipe
sending = record fresh {
  value_table = (codes "timestamp", Value.double 5) ∷ (codes "mode", Value.uint16 258) ∷ [];
}

sending-Readable : Readable sending.value_table fresh.value_table names
unfolding find bytes_eq
sending-Readable = (
  (Value.double 5, Value.double 0, refl, refl, refl, tt, omega arith),
  ((Value.uint16 258, Value.uint16 0, refl, refl, refl, tt, omega arith), tt),
)

parser_data_package-pack_to_bytes_example :
    (bytes : Bytes) × (table : List (Bytes × Value)) × (pack_to_bytes sending ≡ ok bytes)
    × (parser_data_package fresh 14 (0 ∷ 14 ∷ 85 ∷ (bytes ++ (9 ∷ [])))
        ≡ ok (record fresh { value_table = table }, true))
    × ((k : Bytes)
        → find k table
          ≡ (if contains k names then find k sending.value_table else find k fresh.value_table))
parser_data_package-pack_to_bytes_example =
    parser_data_package-pack_to_bytes sending fresh 0 14 85 14 (9 ∷ []) (omega arith) refl refl
      sending-Readable

types-lack-comma : All (λ u. find_first (codes ",") u ≡ none) (codes "DOUBLE" ∷ codes "UINT16" ∷ [])
unfolding find_first begins
types-lack-comma = (refl, (refl, tt))

-- A stand-in for the conversions, which is exact on 0 only.
abbrev zero_double : Double
zero_double = record { of_int = λ z. 0; truncate = λ x. none; is_zero = λ x. x == 0 }

mode_found : find (codes "mode") fresh.value_table ≡ some (Value.uint16 0)
unfolding find bytes_eq
mode_found = refl

mode_converted :
    set_variant zero_double (Value.uint16 0) (integer (negsuc 0)) ≡ ok (some (Value.uint16 65535))
unfolding set_variant
mode_converted = refl

get_value-set_value_example :
    (s : Recipe) × (set_value zero_double fresh (codes "mode") (integer (negsuc 0)) ≡ ok (s, true))
    × (get_value (kind (Value.uint16 0)) s (codes "mode") ≡ ok (some (Value.uint16 65535)))
get_value-set_value_example =
    get_value-set_value zero_double fresh (codes "mode") (integer (negsuc 0)) (Value.uint16 0)
      (Value.uint16 65535) mode_found mode_converted

abbrev moved : Recipe
moved = record fresh {
  value_table = (codes "timestamp", Value.double 0) ∷ (codes "mode", Value.uint16 3) ∷ [];
}

mode_set : set_value zero_double fresh (codes "mode") (integer (pos 3)) ≡ ok (moved, true)
unfolding set_value set_variant find assign bytes_eq
mode_set = refl

abbrev counting : Recipe
counting = record {
  recipe_list = codes "count" ∷ [];
  value_table = (codes "count", Value.int32 0) ∷ [];
  recipe_id = 2;
}

count_found : find (codes "count") counting.value_table ≡ some (Value.int32 0)
unfolding find bytes_eq
count_found = refl
