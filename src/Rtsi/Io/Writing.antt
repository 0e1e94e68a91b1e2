-- ===== src/Rtsi/Io/Writing.antt =====
-- What a setter stores in the input recipe.
use mathlib.Core.Logic.{if_pos}
use elite_robots_cs_sdk.Shared.{
  ℕ, ◌*◌, ◌%◌, ◌^◌, ◌<◌, ◌≡◌, ◌≢◌, refl, List, [], ◌∷◌, Bytes, Bool, true, false, some, Result, ok,
  codes, if◌then◌else◌, lt→ltb, arith, bytes_eq, bytes_eq_iff, pos, ap, ◌∙◌,
}
use elite_robots_cs_sdk.Rtsi.Value.{Kind, Value, kind, Double, Arg, integer, set_variant}
use elite_robots_cs_sdk.Rtsi.Table.{find, assign, find-assign}
use elite_robots_cs_sdk.Rtsi.Recipe.{Recipe, Kind-discrete, get_value, set_value}
use elite_robots_cs_sdk.Rtsi.Io.{Interface, set_input_recipe_value, set_all}
use elite_robots_cs_sdk.Rtsi.Io.Setters.{
  shifted, bit_of, set_digital, set_standard_digital, if_input,
}

-- A recipe after one value, and after two.
abbrev with_value : Bytes → Value → Recipe → Recipe
with_value name v r = record r { value_table = assign name v r.value_table }

set_input_recipe_value-stores :
    (d : Double) (s : Interface) (r : Recipe) (name : Bytes) (arg : Arg) (v w : Value)
    → s.input_recipe ≡ some r
    → find name r.value_table ≡ some v
    → set_variant d v arg ≡ ok (some w)
    → set_input_recipe_value d name arg s
      ≡ ok (record s { input_recipe = some (with_value name w r); input_new_cmd = true }, true)
unfolding set_input_recipe_value set_value
set_input_recipe_value-stores d s r name arg v w e f g =
    rw (e, set_input_recipe_value, set_value, f, g)

-- Two values in a row, under two names.
set_all-stores :
    (d : Double) (s : Interface) (r : Recipe) (n1 n2 : Bytes) (a1 a2 : Arg) (v1 v2 w1 w2 : Value)
    → s.input_recipe ≡ some r
    → find n1 r.value_table ≡ some v1
    → find n2 r.value_table ≡ some v2
    → n1 ≢ n2
    → set_variant d v1 a1 ≡ ok (some w1)
    → set_variant d v2 a2 ≡ ok (some w2)
    → set_all d ((n1, a1) ∷ (n2, a2) ∷ []) s
      ≡ ok (
        record s {
          input_recipe = some (with_value n2 w2 (with_value n1 w1 r));
          input_new_cmd = true;
        },
        true,
      )
unfolding set_all
set_all-stores d s r n1 n2 a1 a2 v1 v2 w1 w2 e f1 f2 differ g1 g2 =
    let first = set_input_recipe_value-stores d s r n1 a1 v1 w1 e f1 g1 in
    let there : find n2 (assign n1 w1 r.value_table) ≡ some v2 =
      ground (arith, find-assign n1 n2 w1 v1 r.value_table f1, bytes_eq_iff n1 n2) in
    let t : Interface = record s {
      input_recipe = some (with_value n1 w1 r);
      input_new_cmd = true;
    } in
    let second = set_input_recipe_value-stores d t (with_value n1 w1 r) n2 a2 v2 w2 refl there g2 in
    rw (first, second)

shifted-wraps : (v i : ℕ) → i < 32 → shifted 16 v (pos i) ≡ ok (v * 2 ^ i % 2 ^ 16)
unfolding shifted
shifted-wraps v i small = rw (lt→ltb i 32 small)

set_uint16 :
    (d : Double) (old n : ℕ)
    → set_variant d (Value.uint16 old) (integer (pos (n % 2 ^ 16)))
      ≡ ok (some (Value.uint16 (n % 2 ^ 16)))
unfolding set_variant
set_uint16 d old n = ap (λ x. ok (some (Value.uint16 x))) (omega arith)

get_value-found :
    (r : Recipe) (name : Bytes) (v : Value)
    → find name r.value_table ≡ some v
    → get_value (kind v) r name ≡ ok (some v)
unfolding get_value
get_value-found r name v f = rw (f, get_value, if_pos (Kind-discrete (kind v) (kind v)) refl)

find-two :
    (k n1 n2 : Bytes) (v1 v2 w1 w2 : Value) (t : List (Bytes × Value))
    → find n1 t ≡ some v1
    → find n2 t ≡ some v2
    → n1 ≢ n2
    → find k (assign n2 w2 (assign n1 w1 t))
      ≡ (if bytes_eq n2 k then some w2 else if bytes_eq n1 k then some w1 else find k t)
find-two k n1 n2 v1 v2 w1 w2 t f1 f2 differ =
    let there : find n2 (assign n1 w1 t) ≡ some v2 =
      ground (arith, find-assign n1 n2 w1 v1 t f1, bytes_eq_iff n1 n2) in
    rw (find-assign n2 k w2 v2 (assign n1 w1 t) there, find-assign n1 k w1 v1 t f1)

if_input-some :
    (f : Interface → Result (Interface × Bool)) (s : Interface) (r : Recipe)
    → s.input_recipe ≡ some r
    → if_input f s ≡ f s
if_input-some f s r e = rw e

abbrev pub mask_name : Bytes
mask_name = codes "standard_digital_output_mask"

abbrev pub level_name : Bytes
level_name = codes "standard_digital_output"

names-differ : mask_name ≢ level_name
unfolding bytes_eq
names-differ e = absurd (let f : false ≡ true = (bytes_eq_iff mask_name level_name).1 e in cc)

-- `setStandardDigital` with an index from 0 to 31, on an input recipe where the two variables have type
-- UINT16: the result is true, a command is marked as new, and the recipe holds the mask 2 ^ index
-- and the level at that bit, both cut to 16 bits; its other variables are as before.
pub set_standard_digital-stores :
    (d : Double) (s : Interface) (r : Recipe) (i m l : ℕ) (level : Bool)
    → s.input_recipe ≡ some r
    → find mask_name r.value_table ≡ some (Value.uint16 m)
    → find level_name r.value_table ≡ some (Value.uint16 l)
    → i < 32
    → (t : Interface) × (q : Recipe) × (set_standard_digital d (pos i) level s ≡ ok (t, true))
      × (t.input_new_cmd ≡ true)
      × (t.input_recipe ≡ some q)
      × (get_value Kind.uint16 q mask_name ≡ ok (some (Value.uint16 (2 ^ i % 2 ^ 16))))
      × (get_value Kind.uint16 q level_name
          ≡ ok (some (Value.uint16 (bit_of level * 2 ^ i % 2 ^ 16))))
      × ((k : Bytes) → k ≢ mask_name → k ≢ level_name → find k q.value_table ≡ find k r.value_table)
unfolding set_standard_digital set_digital bytes_eq
set_standard_digital-stores d s r i m l level e f1 f2 small =
    let mask : Value = Value.uint16 (1 * 2 ^ i % 2 ^ 16) in
    let digital : Value = Value.uint16 (bit_of level * 2 ^ i % 2 ^ 16) in
    let both = with_value level_name digital (with_value mask_name mask r) in
    let found = λ (k : Bytes).
      find-two k mask_name level_name (Value.uint16 m) (Value.uint16 l) mask digital r.value_table
        f1 f2 names-differ in
    let stored =
      set_all-stores d s r mask_name level_name _ _ (Value.uint16 m) (Value.uint16 l) mask digital e
        f1 f2 names-differ (set_uint16 d m (1 * 2 ^ i)) (set_uint16 d l (bit_of level * 2 ^ i)) in
    let both_shifted : set_digital d 16 mask_name level_name (pos i) level s
        ≡ ok (record s { input_recipe = some both; input_new_cmd = true }, true) =
      rw (shifted-wraps 1 i small, shifted-wraps (bit_of level) i small) stored in
    let one : 1 * 2 ^ i % 2 ^ 16 ≡ 2 ^ i % 2 ^ 16 = ap (λ x. x % 2 ^ 16) (omega arith) in
    (
      record s { input_recipe = some both; input_new_cmd = true },
      both,
      if_input-some (set_digital d 16 mask_name level_name (pos i) level) s r e ∙ both_shifted,
      refl,
      refl,
      get_value-found both mask_name mask (found mask_name)
          ∙ ap (λ x. ok (some (Value.uint16 x))) one,
      get_value-found both level_name digital (found level_name),
      λ k a b. ground (arith, found k, bytes_eq_iff level_name k, bytes_eq_iff mask_name k),
    )
