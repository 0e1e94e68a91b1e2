-- ===== src/Rtsi/Recipe.antt =====
-- RtsiRecipe (include/Rtsi/RtsiRecipe.hpp) and RtsiRecipeInternal
-- (source/Rtsi/RtsiRecipeInternal.cpp), in their C++17 form. Each method holds `update_mutex_`
-- throughout, so a method is one step.
pub mod Layout
pub mod RoundTrip
pub mod Types
pub mod Access
mod Tests
use mathlib.Core.Logic.{ite}
use elite_robots_cs_sdk.Shared.{
  ℕ, zero, suc, ◌+◌, ◌-◌, ◌%◌, List, [], ◌∷◌, ◌++◌, Bytes, Bool, true, false, not, ◌||◌, Option,
  none, some, Code, Result, ok, throws, fault, ◌>>=◌, or_fault, ◌==◌, ltb, if◌then◌else◌, length,
  take, drop, codes, bytes_eq, rtsi_unknow_variable_type, rtsi_recipe_parser_fail,
  bad_variant_access,
}
use elite_robots_cs_sdk.Endian.{
  Width, w8, w16, w32, w64, at, unpack, unpack_offset, unpack_array, pack, pack_array,
}
use elite_robots_cs_sdk.Text.{split_string}
use elite_robots_cs_sdk.Rtsi.Value.{Kind, Value, kind, Double, Arg, set_variant}
use elite_robots_cs_sdk.Rtsi.Table.{find, insert, assign}

pub Kind-discrete : Discrete Kind
Kind-discrete = hlevel

pub record Recipe : Type 0 where
  pub recipe_list : List Bytes
  pub value_table : List (Bytes × Value)
  pub recipe_id : ℕ

-- The constructor; the recipe ID is not set before a type package comes (an atomic of no value).
unfoldable pub create : List Bytes → ℕ → Recipe
create list id = record { recipe_list = list; value_table = []; recipe_id = id }

-- `getValue<T>`: `none` is the result `false`. `std::get` throws at another alternative.
unfoldable pub get_value : Kind → Recipe → Bytes → Result (Option Value)
get_value k r name = elim (find name r.value_table) [
  | none ↦ ok none
  | some v ↦ ite (Kind-discrete (kind v) k) (ok (some v)) (throws bad_variant_access)
]

-- `setValue`: the recipe and the result.
unfoldable pub set_value : Double → Recipe → Bytes → Arg → Result (Recipe × Bool)
set_value d r name arg = elim (find name r.value_table) [
  | none ↦ ok (r, false)
  | some v ↦ do
    result ← set_variant d v arg
    elim result [
      | none ↦ ok (r, false)
      | some w ↦ ok (record r { value_table = assign name w r.value_table }, true)
    ]
]

abbrev pub zeros3 : List ℕ
zeros3 = 0 ∷ 0 ∷ 0 ∷ []

abbrev pub zeros6 : List ℕ
zeros6 = 0 ∷ 0 ∷ 0 ∷ 0 ∷ 0 ∷ 0 ∷ []

-- The value that a variable of the named type starts with.
unfoldable pub init_value : Bytes → Result Value
init_value type =
    if bytes_eq type (codes "VECTOR6D")
    then ok (Value.vector6d zeros6)
    else if bytes_eq type (codes "VECTOR3D")
    then ok (Value.vector3d zeros3)
    else if bytes_eq type (codes "DOUBLE")
    then ok (Value.double 0)
    else if bytes_eq type (codes "UINT32")
    then ok (Value.uint32 0)
    else if bytes_eq type (codes "UINT64")
    then ok (Value.uint64 0)
    else if bytes_eq type (codes "INT32")
    then ok (Value.int32 0)
    else if bytes_eq type (codes "UINT8")
    then ok (Value.uint8 0)
    else if bytes_eq type (codes "BOOL")
    then ok (Value.bool false)
    else if bytes_eq type (codes "UINT16")
    then ok (Value.uint16 0)
    else if bytes_eq type (codes "VECTOR6INT32")
    then ok (Value.vector6int32 zeros6)
    else if bytes_eq type (codes "VECTOR6UINT32")
    then ok (Value.vector6uint32 zeros6)
    else throws rtsi_unknow_variable_type

-- The loop over `recipe_list_`, with the type names beside it; the lists are of one length.
unfoldable pub init_table :
    List Bytes → List Bytes → List (Bytes × Value) → Result (List (Bytes × Value))
init_table [] types table = ok table
init_table (name ∷ names) [] table = fault
init_table (name ∷ names) (type ∷ types) table = do
  value ← init_value type
  init_table names types (insert name value table)

-- `copy(package.begin() + 4, package.begin() + package_len)`.
unfoldable pub types_string : ℕ → Bytes → Result Bytes
types_string package_len pkg =
    if ltb package_len 4 || ltb (length pkg) package_len
    then fault
    else ok (take (package_len - 4) (drop 4 pkg))

abbrev initialised : Recipe → ℕ → Result (List (Bytes × Value)) → Result Recipe
initialised r id result = do table ← result; ok (record r { value_table = table; recipe_id = id })

-- `parserTypePackage`. Where it throws, the recipe is not handed out by the caller.
-- `splitString` always ends here: `Text.Split.split_string_total`.
unfoldable pub parser_type_package : Recipe → ℕ → Bytes → Result Recipe
unfolding types_string
parser_type_package r package_len pkg = do
  id ← at pkg 3
  types ← types_string package_len pkg
  types_list ← or_fault (split_string types (codes ","))
  if length types_list == length r.recipe_list
      then initialised r id (init_table r.recipe_list types_list r.value_table)
      else throws rtsi_recipe_parser_fail

-- An unpacked value, and the offset behind it.
abbrev decoded : (ℕ → Value) → Result (ℕ × ℕ) → Result (Option (Value × ℕ))
decoded make result = do (x, next) ← result; ok (some (make x, next))

abbrev decoded_array : (List ℕ → Value) → Result (List ℕ × ℕ) → Result (Option (Value × ℕ))
decoded_array make result = do (xs, next) ← result; ok (some (make xs, next))

-- One item of `parserDataPackage`: the alternative that is held decides what is read at the offset.
-- `none` is the `return false`.
unfoldable pub decode : Kind → Bytes → ℕ → Result (Option (Value × ℕ))
decode Kind.bool pkg offset = do
  b ← at (drop offset pkg) 0
  ok (some (Value.bool (not (b == 0)), offset + 1))
decode Kind.uint8 pkg offset = do b ← at (drop offset pkg) 0; ok (some (Value.uint8 b, offset + 1))
decode Kind.uint16 pkg offset = decoded Value.uint16 (unpack_offset w16 pkg offset)
decode Kind.uint32 pkg offset = decoded Value.uint32 (unpack_offset w32 pkg offset)
decode Kind.uint64 pkg offset = decoded Value.uint64 (unpack_offset w64 pkg offset)
decode Kind.int32 pkg offset = decoded Value.int32 (unpack_offset w32 pkg offset)
decode Kind.double pkg offset = decoded Value.double (unpack_offset w64 pkg offset)
decode Kind.vector3d pkg offset = decoded_array Value.vector3d (unpack_array w64 3 pkg offset)
decode Kind.vector6d pkg offset = decoded_array Value.vector6d (unpack_array w64 6 pkg offset)
decode Kind.vector6int32 pkg offset =
    decoded_array Value.vector6int32 (unpack_array w32 6 pkg offset)
decode Kind.vector6uint32 pkg offset =
    decoded_array Value.vector6uint32 (unpack_array w32 6 pkg offset)
decode k pkg offset = ok none

-- `value_table_[item]`: a missing item comes to be with the variant's default, `false`.
abbrev pub reference : Bytes → List (Bytes × Value) → List (Bytes × Value) × Value
reference item table = elim (find item table) [
  | some v ↦ (table, v)
  | none ↦ (insert item (Value.bool false) table, Value.bool false)
]

-- The loop of `parserDataPackage`.
unfoldable pub parse_items :
    List Bytes → List (Bytes × Value) → Bytes → ℕ → Result (Bool × List (Bytes × Value))
parse_items [] table pkg offset = ok (true, table)
parse_items (item ∷ items) table pkg offset =
    let (table', v) = reference item table in
    do
      result ← decode (kind v) pkg offset
      elim result [
        | none ↦ ok (false, table')
        | some (w, next) ↦ parse_items items (assign item w table') pkg next
      ]

abbrev updated : Recipe → Result (Bool × List (Bytes × Value)) → Result (Recipe × Bool)
updated r result = do (done, table) ← result; ok (record r { value_table = table }, done)

-- `parserDataPackage`; the code does not read `package_len`.
unfoldable pub parser_data_package : Recipe → ℕ → Bytes → Result (Recipe × Bool)
parser_data_package r package_len pkg = do
  id ← at pkg 3
  if id == r.recipe_id
      then updated r (parse_items r.recipe_list r.value_table pkg 4)
      else ok (r, false)

-- What `packToBytes` appends for a value; three alternatives of the variant have no branch.
unfoldable pub encode : Value → Bytes
encode (Value.bool b) = (if b then 1 else 0) ∷ []
encode (Value.uint8 x) = x ∷ []
encode (Value.uint16 x) = pack w16 x
encode (Value.uint32 x) = pack w32 x
encode (Value.uint64 x) = pack w64 x
encode (Value.int32 x) = pack w32 x
encode (Value.double x) = pack w64 x
encode (Value.vector3d xs) = pack_array w64 xs
encode (Value.vector6d xs) = pack_array w64 xs
encode (Value.vector6int32 xs) = pack_array w32 xs
encode (Value.vector6uint32 xs) = pack_array w32 xs
encode v = []

-- The loop of `packToBytes`.
unfoldable pub pack_items : List Bytes → List (Bytes × Value) → Bytes → Result Bytes
pack_items [] table result = ok result
pack_items (item ∷ items) table result = elim (find item table) [
  | none ↦ throws rtsi_recipe_parser_fail
  | some v ↦ pack_items items table (result ++ encode v)
]

-- `packToBytes`: the recipe ID as a byte, and the values.
unfoldable pub pack_to_bytes : Recipe → Result Bytes
pack_to_bytes r = pack_items r.recipe_list r.value_table ((r.recipe_id % 256) ∷ [])
