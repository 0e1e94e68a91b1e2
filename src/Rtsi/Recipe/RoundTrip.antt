-- ===== src/Rtsi/Recipe/RoundTrip.antt =====
-- A data package that one recipe packs is read back into another of the same layout.
use mathlib.Core.List.{append-nil, append_assoc}
use elite_robots_cs_sdk.Shared.{
  ℕ, ◌%◌, ◌<◌, ◌≡◌, refl, sym, ap, ◌∙◌, List, [], ◌∷◌, ◌++◌, Bytes, true, none, some, ok, arith,
  length, All, length-append, bytes_eq, bytes_eq_iff, if◌then◌else◌, Bool-cases, inl, inr, ==_refl,
}
use elite_robots_cs_sdk.Rtsi.Value.{Value, kind, Fits}
use elite_robots_cs_sdk.Rtsi.Table.{find, assign, find-assign, contains}
use elite_robots_cs_sdk.Rtsi.Recipe.{
  Recipe, decode, encode, parse_items, pack_items, parser_data_package, pack_to_bytes,
}
use elite_robots_cs_sdk.Rtsi.Recipe.Layout.{IsSent, decode-encode}

-- Every item has a value to send, and the receiver holds the same alternative for it.
abbrev pub Readable : List (Bytes × Value) → List (Bytes × Value) → List Bytes → Type 0
Readable table target items =
    All
      (λ item.
        (v : Value) × (w : Value) × (find item table ≡ some v)
        × (find item target ≡ some w)
        × (kind w ≡ kind v)
        × IsSent (kind v)
        × Fits v)
      items

-- The bytes of the items, in the order of the list.
packed : List Bytes → List (Bytes × Value) → Bytes
packed [] table = []
packed (item ∷ items) table =
    elim (find item table) [ none ↦ [] | some v ↦ encode v ] ++ packed items table

pack_items-packed :
    (items : List Bytes) (table target : List (Bytes × Value)) (result : Bytes)
    → Readable table target items
    → pack_items items table result ≡ ok (result ++ packed items table)
unfolding pack_items packed
pack_items-packed [] table target result h = ap ok (sym (append-nil result))
pack_items-packed (item ∷ items) table target result ((v, w, e, f, k, s, fits), h) = rw (
  e,
  pack_items,
  packed,
  pack_items-packed items table target (result ++ encode v) h,
  append_assoc,
)

Readable-assign :
    (items : List Bytes) (table target : List (Bytes × Value)) (item : Bytes) (v w : Value)
    → find item table ≡ some v
    → find item target ≡ some w
    → IsSent (kind v)
    → Fits v
    → Readable table target items
    → Readable table (assign item v target) items
Readable-assign [] table target item v w e f s fits h = tt
Readable-assign (j ∷ items) table target item v w e f s fits ((v', w', e', f', k', s', fits'), h) =
    (
      elim (Bool-cases (bytes_eq item j)) [
        | inl same ↦ (
          v',
          v',
          e',
          ground (arith, find-assign item j v w target f, bytes_eq_iff item j),
          refl,
          s',
          fits',
        )
        | inr other ↦ (
          v',
          w',
          e',
          ground (arith, find-assign item j v w target f, bytes_eq_iff item j),
          k',
          s',
          fits',
        )
      ],
      Readable-assign items table target item v w e f s fits h,
    )

-- One round of the loop.
pub parse_items-cons :
    (item : Bytes) (items : List Bytes) (target : List (Bytes × Value)) (m : Bytes)
    (offset next : ℕ) (v w : Value)
    → find item target ≡ some w
    → decode (kind w) m offset ≡ ok (some (v, next))
    → parse_items (item ∷ items) target m offset ≡ parse_items items (assign item v target) m next
unfolding parse_items
parse_items-cons item items target m offset next v w f d = ground arith

packed-cons :
    (item : Bytes) (items : List Bytes) (table : List (Bytes × Value)) (v : Value)
    → find item table ≡ some v
    → packed (item ∷ items) table ≡ encode v ++ packed items table
unfolding packed
packed-cons item items table v e = rw (e, packed)

-- What a name is found at after the item is assigned and the rest is read.
found_after :
    (item : Bytes) (items : List Bytes) (table target : List (Bytes × Value)) (v w : Value)
    → find item table ≡ some v
    → find item target ≡ some w
    → (k : Bytes)
    → (if contains k items then find k table else find k (assign item v target))
      ≡ (if contains k (item ∷ items) then find k table else find k target)
unfolding contains
found_after item items table target v w e f k =
    ground (arith, bytes_eq_iff item k, find-assign item k v w target f)

parse_items-packed :
    (items : List Bytes) (table target : List (Bytes × Value)) (front rest : Bytes)
    → Readable table target items
    → (final : List (Bytes × Value)) × (parse_items items target
          (front ++ (packed items table ++ rest))
          (length front)
        ≡ ok (true, final))
      × ((k : Bytes) → find k final ≡ (if contains k items then find k table else find k target))
parse_items-packed [] table target front rest h =
    (target, unfold parse_items in refl, λ k. unfold contains in refl)
parse_items-packed (item ∷ items) table target front rest ((v, w, e, f, k, s, fits), h) =
    let later = Readable-assign items table target item v w e f s fits h in
    let (final, run, look) =
      parse_items-packed items table (assign item v target) (front ++ encode v) rest later in
    let run' = rw (append_assoc, length-append) at run in
    let read = rw (sym k) at (decode-encode v front (packed items table ++ rest) s fits) in
    (
      final,
      rw (packed-cons item items table v e, append_assoc)
          (parse_items-cons item items target _ _ _ v w f read ∙ run'),
      λ j. look j ∙ found_after item items table target v w e f j,
    )

-- A recipe whose items all have values to send packs without an error. Another recipe with the same
-- list and ID, which holds the same alternatives, parses the package, whatever stands behind it:
-- then each name of the list is found at the sender's value, and other names are as before.
pub parser_data_package-pack_to_bytes :
    (r s : Recipe) (h0 h1 h2 package_len : ℕ) (rest : Bytes)
    → r.recipe_id < 256
    → s.recipe_id ≡ r.recipe_id
    → s.recipe_list ≡ r.recipe_list
    → Readable r.value_table s.value_table r.recipe_list
    → (bytes : Bytes) × (table : List (Bytes × Value)) × (pack_to_bytes r ≡ ok bytes)
      × (parser_data_package s package_len (h0 ∷ h1 ∷ h2 ∷ (bytes ++ rest))
          ≡ ok (record s { value_table = table }, true))
      × ((k : Bytes)
          → find k table
            ≡ (if contains k r.recipe_list then find k r.value_table else find k s.value_table))
unfolding parser_data_package pack_to_bytes
parser_data_package-pack_to_bytes r s h0 h1 h2 package_len rest small same list h =
    let byte : r.recipe_id % 256 ≡ r.recipe_id = omega arith in
    let (table, run, look) =
      parse_items-packed r.recipe_list r.value_table s.value_table
        (h0 ∷ h1 ∷ h2 ∷ (r.recipe_id % 256) ∷ []) rest h in
    (
      (r.recipe_id % 256) ∷ packed r.recipe_list r.value_table,
      table,
      pack_items-packed r.recipe_list r.value_table s.value_table _ h,
      ground (arith, run, ==_refl r.recipe_id),
      look,
    )
