-- ===== src/Rtsi/Recipe/Types.antt =====
-- What `parserTypePackage` makes of the controller's answer to a recipe.
use elite_robots_cs_sdk.Shared.{
  ℕ, suc, ◌+◌, ◌-◌, ◌≡◌, refl, sym, ap, subst, ◌∙◌, inl, inr, List, [], ◌∷◌, ◌++◌, Bytes, Bool,
  true, false, none, some, Code, Result, ok, throws, fault, >>=-eq-ok, or_fault, ◌==◌, le→ltb,
  if◌then◌else◌, arith, length, All, codes, bytes_eq, bytes_eq_iff, rtsi_unknow_variable_type,
  rtsi_recipe_parser_fail, length-append, take-length-append, Option-cases,
}
use elite_robots_cs_sdk.Endian.{at}
use elite_robots_cs_sdk.Text.{find_first, split_string}
use elite_robots_cs_sdk.Text.Split.{join}
use elite_robots_cs_sdk.Text.Join.{split_string-join}
use elite_robots_cs_sdk.Rtsi.Value.{Value, kind, Fits}
use elite_robots_cs_sdk.Rtsi.Table.{find, insert, find-insert}
use elite_robots_cs_sdk.Rtsi.Recipe.{
  Recipe, create, init_value, init_table, initialised, types_string, parser_type_package,
}
use elite_robots_cs_sdk.Rtsi.Recipe.Layout.{IsSent}

-- A value that a data package can carry.
abbrev pub IsReady : Value → Type 0
IsReady v = IsSent (kind v) × Fits v

abbrev Starts : Result Value → Type 0
Starts (ok v) = IsReady v
Starts (throws c) = c ≡ rtsi_unknow_variable_type
Starts fault = ⊥

if-Starts : (b : Bool) (x y : Result Value) → Starts x → Starts y → Starts (if b then x else y)
if-Starts true x y hx hy = hx
if-Starts false x y hx hy = hy

init_value-Starts : (type : Bytes) → Starts (init_value type)
unfolding init_value
init_value-Starts type = if-Starts (bytes_eq type (codes "VECTOR6D")) _ _ (omega arith) (
    if-Starts (bytes_eq type (codes "VECTOR3D")) _ _ (omega arith) (
      if-Starts (bytes_eq type (codes "DOUBLE")) _ _ (omega arith) (
        if-Starts (bytes_eq type (codes "UINT32")) _ _ (omega arith) (
          if-Starts (bytes_eq type (codes "UINT64")) _ _ (omega arith) (
            if-Starts (bytes_eq type (codes "INT32")) _ _ (omega arith) (
              if-Starts (bytes_eq type (codes "UINT8")) _ _ (omega arith) (
                if-Starts (bytes_eq type (codes "BOOL")) _ _ (tt, tt)
                  (if-Starts (bytes_eq type (codes "UINT16")) _ _ (omega arith) (
                    if-Starts (bytes_eq type (codes "VECTOR6INT32")) _ _ (omega arith) (
                      if-Starts (bytes_eq type (codes "VECTOR6UINT32")) _ _ (omega arith)
                        refl))))))))))

abbrev AllReady : List (Bytes × Value) → Type 0
AllReady table = (k : Bytes) (v : Value) → find k table ≡ some v → IsReady v

insert-AllReady :
    (name : Bytes) (v : Value) (table : List (Bytes × Value))
    → IsReady v
    → AllReady table
    → AllReady (insert name v table)
insert-AllReady name v table hv h k w e = elim (Option-cases (find k table)) [
  | inr (u, old) ↦ h k w (ground (arith, find-insert name k v table))
  | inl new ↦ let same : v ≡ w = ground (arith, find-insert name k v table) in subst IsReady same hv
]

find-insert_old :
    (name k : Bytes) (v w : Value) (table : List (Bytes × Value))
    → find k table ≡ some w
    → find k (insert name v table) ≡ some w
find-insert_old name k v w table e = ground (arith, find-insert name k v table)

insert-found :
    (name : Bytes) (v : Value) (table : List (Bytes × Value))
    → (w : Value) × (find name (insert name v table) ≡ some w)
insert-found name v table = elim (Option-cases (find name table)) [
  | inr (u, old) ↦ (u, find-insert_old name name v u table old)
  | inl new ↦ (v, ground (arith, find-insert name name v table, bytes_eq_iff name name))
]

init_table-ready :
    (names types : List Bytes) (table final : List (Bytes × Value))
    → AllReady table
    → init_table names types table ≡ ok final
    → AllReady final
      × All (λ n. (v : Value) × (find n final ≡ some v)) names
      × ((k : Bytes) (v : Value) → find k table ≡ some v → find k final ≡ some v)
unfolding init_table
init_table-ready [] types table final h e =
    let same : table ≡ final = ground arith in (subst AllReady same h, tt, λ k v f. rw same at f)
init_table-ready (name ∷ names) [] table final h e = cc
init_table-ready (name ∷ names) (type ∷ types) table final h e =
    let (v, start, run) = >>=-eq-ok (init_value type) _ e in
    let ready : IsReady v = subst Starts start (init_value-Starts type) in
    let (all, covers, keeps) =
      init_table-ready names types (insert name v table) final
        (insert-AllReady name v table ready h) run in
    let (w, found) = insert-found name v table in
    (
      all,
      ((w, keeps name w found), covers),
      λ k u f. keeps k u (find-insert_old name k v u table f),
    )

nil-AllReady : AllReady []
unfolding find
nil-AllReady k v e = cc

zip-IsReady :
    (names : List Bytes) (table : List (Bytes × Value))
    → AllReady table
    → All (λ n. (v : Value) × (find n table ≡ some v)) names
    → All (λ n. (v : Value) × (find n table ≡ some v) × IsReady v) names
zip-IsReady [] table all h = tt
zip-IsReady (n ∷ names) table all ((v, e), h) = ((v, e, all n v e), zip-IsReady names table all h)

initialised-IsReady :
    (list types : List Bytes) (id0 id : ℕ) (r : Recipe)
    → initialised (create list id0) id (init_table list types []) ≡ ok r
    → (r.recipe_list ≡ list)
      × (r.recipe_id ≡ id)
      × All (λ n. (v : Value) × (find n r.value_table ≡ some v) × IsReady v) list
unfolding create
initialised-IsReady list types id0 id r e =
    let (table, run, made) = >>=-eq-ok (init_table list types []) _ e in
    let same : table ≡ r.value_table = ground arith in
    let (all, covers, keeps) = init_table-ready list types [] table nil-AllReady run in
    (ground arith, ground arith, rw same at (zip-IsReady list table all covers))

if-ok :
    (b : Bool) (x : Result Recipe) (c : Code) {r : Recipe}
    → (if b then x else throws c) ≡ ok r
    → x ≡ ok r
if-ok b x c e = ground arith

types_string-append :
    (h0 h1 h2 id : ℕ) (text rest : Bytes)
    → types_string (4 + length text) (h0 ∷ h1 ∷ h2 ∷ id ∷ (text ++ rest)) ≡ ok text
unfolding types_string
types_string-append h0 h1 h2 id text rest =
    let room = length-append text rest in
    let count : 4 + length text - 4 ≡ length text = omega arith in
    rw (
      le→ltb (4 + length text) 4 (omega arith),
      le→ltb (suc (suc (suc (suc (length (text ++ rest)))))) (4 + length text)
          (omega (arith, room)),
      count,
      take-length-append,
    )

-- Where `parserTypePackage` succeeds on a new recipe, the recipe keeps its list, its ID is the fourth
-- byte of the package, and each name of the list has a value that a data package can carry.
parser_type_package-IsReady :
    (list : List Bytes) (id package_len : ℕ) (m : Bytes) (r : Recipe)
    → parser_type_package (create list id) package_len m ≡ ok r
    → (r.recipe_list ≡ list)
      × (at m 3 ≡ ok r.recipe_id)
      × All (λ n. (v : Value) × (find n r.value_table ≡ some v) × IsReady v) list
unfolding parser_type_package create
parser_type_package-IsReady list id0 package_len m r e =
    let (id, byte, e1) = >>=-eq-ok (at m 3) _ e in
    let (types, cut, e2) = >>=-eq-ok (types_string package_len m) _ e1 in
    let (tokens, split, e3) = >>=-eq-ok (or_fault (split_string types (codes ","))) _ e2 in
    let made =
      if-ok (length tokens == length list)
        (initialised (create list id0) id (init_table list tokens [])) rtsi_recipe_parser_fail e3 in
    let (names, same_id, ready) = initialised-IsReady list tokens id0 id r made in
    (names, byte ∙ ap ok (sym same_id), ready)

-- The answer to a recipe, as the controller sends it: the type names, parted by commas, are what the
-- table is made from if they are as many as the names of the recipe, and otherwise it throws.
parser_type_package-join :
    (r : Recipe) (h0 h1 h2 id : ℕ) (t : Bytes) (ts : List Bytes) (rest : Bytes)
    → All (λ u. find_first (codes ",") u ≡ none) (t ∷ ts)
    → let text = join (codes ",") (t ∷ ts) in
      parser_type_package r (4 + length text) (h0 ∷ h1 ∷ h2 ∷ id ∷ (text ++ rest)) ≡ (
        if length (t ∷ ts) == length r.recipe_list
        then initialised r id (init_table r.recipe_list (t ∷ ts) r.value_table)
        else throws rtsi_recipe_parser_fail)
unfolding parser_type_package
parser_type_package-join r h0 h1 h2 id t ts rest h = rw (
  types_string-append h0 h1 h2 id (join (codes ",") (t ∷ ts)) rest,
  split_string-join b',' t ts h,
)
