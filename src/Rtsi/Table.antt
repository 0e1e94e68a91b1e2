-- ===== src/Rtsi/Table.antt =====
-- The std::unordered_map<std::string, T> of the SDK, as an association list.
use elite_robots_cs_sdk.Shared.{
  ◌≡◌, refl, List, [], ◌∷◌, Bytes, Bool, false, ◌||◌, Option, none, some, if◌then◌else◌, bytes_eq,
  bytes_eq_iff, arith,
}

module _ {ℓ} {V : Type ℓ} where
  -- `find(key)`.
  unfoldable pub find : Bytes → List (Bytes × V) → Option V
  find k [] = none
  find k ((j, v) ∷ t) = if bytes_eq j k then some v else find k t

  -- `insert({key, value})`: it keeps a value that is there.
  unfoldable pub insert : Bytes → V → List (Bytes × V) → List (Bytes × V)
  insert k v [] = (k, v) ∷ []
  insert k v ((j, w) ∷ t) = if bytes_eq j k then (j, w) ∷ t else (j, w) ∷ insert k v t

  -- `table[key] = value`, for a key that is there.
  unfoldable pub assign : Bytes → V → List (Bytes × V) → List (Bytes × V)
  assign k v [] = []
  assign k v ((j, w) ∷ t) = if bytes_eq j k then (j, v) ∷ t else (j, w) ∷ assign k v t

  pub find-insert :
      (k j : Bytes) (v : V) (t : List (Bytes × V))
      → find j (insert k v t)
        ≡ elim (find j t) [ some w ↦ some w | none ↦ if bytes_eq k j then some v else none ]
  unfolding find insert
  find-insert k j v [] = refl
  find-insert k j v ((i, w) ∷ t) =
      ground (arith, bytes_eq_iff k j, bytes_eq_iff i k, bytes_eq_iff i j, find-insert k j v t)

  pub find-assign :
      (k j : Bytes) (v w : V) (t : List (Bytes × V))
      → find k t ≡ some w
      → find j (assign k v t) ≡ (if bytes_eq k j then some v else find j t)
  unfolding find assign
  find-assign k j v w [] h = cc
  find-assign k j v w ((i, u) ∷ t) h =
      ground (arith, bytes_eq_iff k j, bytes_eq_iff i k, bytes_eq_iff i j, find-assign k j v w t)

-- Whether a key is in a list of keys.
unfoldable pub contains : Bytes → List Bytes → Bool
contains k [] = false
contains k (j ∷ js) = bytes_eq j k || contains k js
