-- ===== src/Registry/First.antt =====
-- The registry against a list of registrations, of which the first of a class counts.
use elite_robots_cs_sdk.Shared.{
  ◌≡◌, refl, ap, ◌∙◌, List, [], ◌∷◌, Bytes, Bool, true, false, ◌&&◌, Option, none, some, ◌==◌,
  if◌then◌else◌, All, bytes_eq, arith,
}
use elite_robots_cs_sdk.Rtsi.Table.{find, find-insert}
use elite_robots_cs_sdk.Registry.{make_class_key, register_class, get_factory}

-- The name of a class has no unit separator.
abbrev pub IsName : Bytes → Type 0
IsName name = All (λ c. (c == 31) ≡ false) name

-- Two classes have one key only if both names are the same.
make_class_key-bytes_eq :
    (e c d b : Bytes)
    → IsName e
    → IsName d
    → bytes_eq (make_class_key e c) (make_class_key d b) ≡ (bytes_eq e d && bytes_eq c b)
unfolding make_class_key bytes_eq
make_class_key-bytes_eq [] c [] b h k = refl
make_class_key-bytes_eq [] c (y ∷ d) b h (k, ks) = ground arith
make_class_key-bytes_eq (x ∷ e) c [] b (h, hs) k = ground arith
make_class_key-bytes_eq (x ∷ e) c (y ∷ d) b (h, hs) (k, ks) =
    ground (arith, make_class_key-bytes_eq e c d b hs ks)

module _ {ℓ} {F : Type ℓ} where
  -- The calls of `registerClass` one after the other.
  unfoldable pub register_all : List (Bytes × Bytes × F) → List (Bytes × F) → List (Bytes × F)
  unfolding register_class
  register_all [] factories = factories
  register_all ((derived, base, factory) ∷ later) factories =
      register_all later (register_class derived base factory factories).1

  unfoldable pub first_of : Bytes → Bytes → List (Bytes × Bytes × F) → Option F
  unfolding bytes_eq
  first_of derived base [] = none
  first_of derived base ((d, b, factory) ∷ later) =
      let rest = first_of derived base later in
      if bytes_eq d derived && bytes_eq b base then some factory else rest

  abbrev or_else : Option F → Option F → Option F
  or_else none o = o
  or_else (some f) o = some f

  get_factory-register_class :
      (d b e c : Bytes) (f : F) (t : List (Bytes × F))
      → IsName d
      → IsName e
      → get_factory d b (register_class e c f t).1
        ≡ or_else (get_factory d b t) (if bytes_eq e d && bytes_eq c b then some f else none)
  unfolding get_factory register_class
  get_factory-register_class d b e c f t h k =
      let same = make_class_key-bytes_eq e c d b k h in
      find-insert (make_class_key e c) (make_class_key d b) f t
      ∙ ap
          (λ x. elim (find (make_class_key d b) t) [
            | some w ↦ some w
            | none ↦ if x then some f else none
          ])
          same
      ∙ by_found (find (make_class_key d b) t)
    where
      by_found :
          (o : Option F)
          → elim o [
            | some w ↦ some w
            | none ↦ if bytes_eq e d && bytes_eq c b then some f else none
          ]
            ≡ or_else o (if bytes_eq e d && bytes_eq c b then some f else none)
      by_found none = refl
      by_found (some w) = refl

  get_factory-register_all :
      (d b : Bytes) (rs : List (Bytes × Bytes × F)) (t : List (Bytes × F))
      → IsName d
      → All (λ r. IsName r.0) rs
      → get_factory d b (register_all rs t) ≡ or_else (get_factory d b t) (first_of d b rs)
  unfolding register_all first_of
  get_factory-register_all d b [] t h hs = by_found (get_factory d b t)
    where
      by_found : (o : Option F) → o ≡ or_else o none
      by_found none = refl
      by_found (some w) = refl
  get_factory-register_all d b ((e, c, f) ∷ rs) t h (k, ks) =
      let later = get_factory-register_all d b rs (register_class e c f t).1 h ks in
      let one = get_factory-register_class d b e c f t h k in
      later
      ∙ ap (λ o. or_else o (first_of d b rs)) one
      ∙ by_found (get_factory d b t) (bytes_eq e d && bytes_eq c b)
    where
      by_found :
          (o : Option F) (x : Bool)
          → or_else (or_else o (if x then some f else none)) (first_of d b rs)
            ≡ or_else o (if x then some f else first_of d b rs)
      by_found none true = refl
      by_found none false = refl
      by_found (some w) x = refl

  abbrev pub is_none : Option F → Bool
  is_none none = true
  is_none (some f) = false

  -- After the classes of a list have been registered, none of whose names has the unit separator, `getFactory`
  -- gives the factory of the first registration of a class, or none; and `registerClass` for a class returns
  -- true where there is none, and adds it then, so that each class keeps its first factory.
  pub get_factory-first_of :
      (d b : Bytes) (f : F) (rs : List (Bytes × Bytes × F))
      → IsName d
      → All (λ r. IsName r.0) rs
      → (get_factory d b (register_all rs []) ≡ first_of d b rs)
        × ((register_class d b f (register_all rs [])).0 ≡ is_none (first_of d b rs))
  unfolding register_class get_factory find
  get_factory-first_of d b f rs h hs =
      let found : get_factory d b (register_all rs []) ≡ first_of d b rs =
        get_factory-register_all d b rs [] h hs in
      (found, ap is_none found)
