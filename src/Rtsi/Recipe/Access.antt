-- ===== src/Rtsi/Recipe/Access.antt =====
-- `getValue` and `setValue` of a recipe.
use mathlib.Core.Logic.{if_pos}
use elite_robots_cs_sdk.Shared.{
  ℕ, ◌-◌, ◌^◌, ◌≡◌, refl, ◌≢◌, Bytes, Bool, true, false, Option, none, some, Result, ok, ◌>>=◌,
  arith, subst, throws, fault, bytes_eq_iff, Option-cases, ℤ, pos, negsuc, wrap, signed, ◌≤ℤ◌, inl,
  inr,
}
use elite_robots_cs_sdk.Rtsi.Value.{Kind, Value, kind, Double, Arg, integer, set_variant}
use elite_robots_cs_sdk.Rtsi.Value.Set.{set_variant-kind, signed-wrap}
use elite_robots_cs_sdk.Rtsi.Table.{find, assign, find-assign}
use elite_robots_cs_sdk.Rtsi.Recipe.{Recipe, Kind-discrete, get_value, set_value}

-- The alternative that a name holds, if it is in the table.
abbrev pub held : Option Value → Option Kind
held none = none
held (some v) = some (kind v)

abbrev Frame : Recipe → Bytes → Recipe → Bool → Type 0
Frame r name s done =
    (s.recipe_list ≡ r.recipe_list)
    × (s.recipe_id ≡ r.recipe_id)
    × (done ≡ false → s ≡ r)
    × ((k : Bytes) → held (find k s.value_table) ≡ held (find k r.value_table))
    × ((k : Bytes) → k ≢ name → find k s.value_table ≡ find k r.value_table)

abbrev Framed : Recipe → Bytes → Result (Recipe × Bool) → Type 0
Framed r name (ok (s, done)) = Frame r name s done
Framed r name (throws c) = Unit {0}
Framed r name fault = Unit {0}

same-Frame : (r : Recipe) (name : Bytes) → Frame r name r false
same-Frame r name = (refl, refl, λ _. refl, λ k. refl, λ k _. refl)

written-Frame :
    (r : Recipe) (name : Bytes) (v w : Value)
    → find name r.value_table ≡ some v
    → kind w ≡ kind v
    → Frame r name (record r { value_table = assign name w r.value_table }) true
written-Frame r name v w f k = (
  refl,
  refl,
  λ e. cc,
  λ j. ground (arith, find-assign name j w v r.value_table f, bytes_eq_iff name j),
  λ j ne. ground (arith, find-assign name j w v r.value_table f, bytes_eq_iff name j),
)

set_value-Framed :
    (d : Double) (r : Recipe) (name : Bytes) (arg : Arg) → Framed r name (set_value d r name arg)
unfolding set_value
set_value-Framed d r name arg = elim (Option-cases (find name r.value_table)) [
  | inl f ↦ rw (f, set_value) (same-Frame r name)
  | inr (v, f) ↦ rw (f, set_value) (stored v f (set_variant d v arg) refl)
]
  where
    stored :
        (v : Value)
        → find name r.value_table ≡ some v
        → (result : Result (Option Value)) → set_variant d v arg ≡ result
        → Framed r name (
            result >>= λ o. elim o [
              | none ↦ ok (r, false)
              | some w ↦ ok (record r { value_table = assign name w r.value_table }, true)
            ])
    stored v f (ok none) e = same-Frame r name
    stored v f (ok (some w)) e = written-Frame r name v w f (set_variant-kind d v arg w e)
    stored v f (throws c) e = tt
    stored v f fault e = tt

-- `setValue` changes at most the value of the name, never its alternative; where it returns false
-- the recipe is as it was. The list and the ID stay.
set_value_frame :
    (d : Double) (r s : Recipe) (name : Bytes) (arg : Arg) (done : Bool)
    → set_value d r name arg ≡ ok (s, done)
    → (s.recipe_list ≡ r.recipe_list)
      × (s.recipe_id ≡ r.recipe_id)
      × (done ≡ false → s ≡ r)
      × ((k : Bytes) → held (find k s.value_table) ≡ held (find k r.value_table))
      × ((k : Bytes) → k ≢ name → find k s.value_table ≡ find k r.value_table)
set_value_frame d r s name arg done e = subst (Framed r name) e (set_value-Framed d r name arg)

-- After a `setValue` that returns true, `getValue` of the alternative that the name holds gives the
-- converted value.
pub get_value-set_value :
    (d : Double) (r : Recipe) (name : Bytes) (arg : Arg) (v w : Value)
    → find name r.value_table ≡ some v
    → set_variant d v arg ≡ ok (some w)
    → (s : Recipe) × (set_value d r name arg ≡ ok (s, true))
      × (get_value (kind v) s name ≡ ok (some w))
unfolding set_value get_value
get_value-set_value d r name arg v w f e =
    (record r { value_table = assign name w r.value_table }, rw (f, set_value, e), read)
  where
    found : find name (assign name w r.value_table) ≡ some w
    found = ground (arith, find-assign name name w v r.value_table f, bytes_eq_iff name name)

    read :
        get_value (kind v) (record r { value_table = assign name w r.value_table }) name
        ≡ ok (some w)
    read =
        rw (
          found,
          get_value,
          if_pos (Kind-discrete (kind w) (kind v)) (set_variant-kind d v arg w e),
        )

-- A variable of type INT32 that is set to an integer in the range of the type holds that integer.
set_value_int32 :
    (d : Double) (r : Recipe) (name : Bytes) (old : ℕ) (z : ℤ)
    → find name r.value_table ≡ some (Value.int32 old)
    → ◌≤ℤ◌ (negsuc (2 ^ 31 - 1)) z
    → ◌≤ℤ◌ z (pos (2 ^ 31 - 1))
    → (s : Recipe) × (bits : ℕ) × (set_value d r name (integer z) ≡ ok (s, true))
      × (get_value Kind.int32 s name ≡ ok (some (Value.int32 bits)))
      × (signed 32 bits ≡ z)
set_value_int32 d r name old z f lo hi =
    let (s, set, get) =
      get_value-set_value d r name (integer z) (Value.int32 old) (Value.int32 (wrap 32 z)) f
        (unfold set_variant in refl) in
    (s, wrap 32 z, set, get, signed-wrap z lo hi)
