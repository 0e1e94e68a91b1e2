-- ===== src/Rtsi/Io/Reading.antt =====
-- From the robot's data package to the getters.
use mathlib.Core.Logic.{ite, if_pos}
use elite_robots_cs_sdk.Shared.{
  ℕ, ◌==◌, ◌%◌, ◌+◌, ◌/◌, ◌<◌, ◌≡◌, refl, ap, sym, ◌∙◌, List, [], ◌∷◌, ◌++◌, Bytes, Bool, true,
  false, Option, none, some, Result, ok, ◌>>=◌, throws, fault, if◌then◌else◌, length, arith,
  Option-cases, inl, inr, bad_variant_access,
}
use elite_robots_cs_sdk.Rtsi.Value.{Value, kind}
use elite_robots_cs_sdk.Rtsi.Table.{find, contains}
use elite_robots_cs_sdk.Rtsi.Recipe.{
  Recipe, Kind-discrete, get_value, parser_data_package, pack_to_bytes, pack_items, encode,
}
use elite_robots_cs_sdk.Rtsi.Recipe.RoundTrip.{Readable, parser_data_package-pack_to_bytes}
use elite_robots_cs_sdk.Rtsi.Client.Monad.{Socket, Client, Io, IsSettled, lift, return, after}
use elite_robots_cs_sdk.Rtsi.Client.Receive.{data_package, frame, type_byte}
use elite_robots_cs_sdk.Rtsi.Client.Skip.{Package, sent_as, stream, receive-stream}
use elite_robots_cs_sdk.Rtsi.Client.Requests.{one_parser, receive_one}
use elite_robots_cs_sdk.Rtsi.Client.Answers.{Others, received-return}
use elite_robots_cs_sdk.Rtsi.Io.{Interface, get_recipe_value}
use elite_robots_cs_sdk.Rtsi.Io.Getters.{read, value_or}
use elite_robots_cs_sdk.Rtsi.Io.Life.{receive_into, receive_output}

-- What a getter with this default gives for a variable.
abbrev pub shown : Value → Option Value → Result Value
shown default none = ok default
shown default (some v) =
    ite (Kind-discrete (kind v) (kind default)) (ok v) (throws bad_variant_access)

-- A getter on an interface with an output recipe, against the table of the recipe: the value of its
-- variable; the default where the recipe has no such variable; and `std::bad_variant_access` where
-- the controller has given the variable another type than the getter's.
pub read-shown :
    (default : Value) (name : Bytes) (s : Interface) (r : Recipe)
    → s.output_recipe ≡ some r
    → read default name s ≡ shown default (find name r.value_table)
unfolding read get_recipe_value get_value
read-shown default name s r e = elim (Option-cases (find name r.value_table)) [
  | inl f ↦ rw (e, get_recipe_value, get_value, f) refl
  | inr (v, f) ↦
      rw (e, get_recipe_value, get_value, f) (by_kind v (Kind-discrete (kind v) (kind default)))
]
  where
    by_kind :
        (v : Value) (d : Dec (kind v ≡ kind default))
        → (ite d (ok (some v)) (throws bad_variant_access) >>= λ found. ok (value_or default found))
          ≡ ite d (ok v) (throws bad_variant_access)
    by_kind v (yes p) = refl
    by_kind v (no n) = refl

one_parser-data :
    (q : Package) (junk : Bytes) (n : ℕ) (r t : Recipe) (done : Bool) (c : Client)
    → r.recipe_id ≡ q.head
    → parser_data_package r n (sent_as q ++ junk) ≡ ok (t, done)
    → one_parser n (sent_as q ++ junk) (r, false) c ≡ (ok (t, true), c)
unfolding one_parser frame
one_parser-data q junk n r t done c e f =
    let mine : (r.recipe_id == q.head) ≡ true = ground (arith, e) in rw (mine, f)

receive_one-sent :
    (P : Recipe → Type 0) (r : Recipe) (q : Package) (others : List Package) (rest : Bytes)
    (c : Client) (socket : Socket)
    → c.socket ≡ some socket
    → q.cmd ≡ data_package
    → length q.tail < 65532
    → Others data_package others
    → socket.incoming ≡ stream others (sent_as q ++ rest)
    → r.recipe_id ≡ q.head
    → IsSettled c
    → ((n : ℕ) (junk : Bytes)
        → (t : Recipe) × (parser_data_package r n (sent_as q ++ junk) ≡ ok (t, true)) × P t)
    → (t : Recipe) × (receive_one r false c
        ≡ (ok (t, true), record c { socket = some (record socket { incoming = rest }) }))
      × P t
unfolding receive_one
receive_one-sent P r q others rest c socket o cmd short skipped inc id settled parses =
    let (junk, run) =
      receive-stream data_package one_parser others q rest (r, false) c socket skipped short cmd o
        inc settled in
    let (t, parsed, holds) = parses (4 + length q.tail) junk in
    (
      t,
      ap (after λ r. elim r as (λ _. Io (Recipe × Bool)) [ some p ↦ return p | none ↦ lift fault ])
            run
          ∙ received-return _
          ∙ one_parser-data q junk (4 + length q.tail) r t true _ id parsed,
      holds,
    )

pack_items-head :
    (items : List Bytes) (table : List (Bytes × Value)) (x : ℕ) (result : Bytes) (b : ℕ)
    (bs : Bytes)
    → pack_items items table (x ∷ result) ≡ ok (b ∷ bs)
    → x ≡ b
unfolding pack_items
pack_items-head [] table x result b bs e = cc
pack_items-head (item ∷ items) table x result b bs e = elim (Option-cases (find item table)) [
  | inl f ↦ absurd (let d = rw (f, pack_items) at e in cc)
  | inr (v, f) ↦ pack_items-head items table x (result ++ encode v) b bs (rw (f, pack_items) at e)
]

-- A recipe that has taken the robot's values for the names of the list.
abbrev Reads : Recipe → Recipe → Recipe → Type 0
Reads robot mine t =
    (name : Bytes)
    → find name t.value_table ≡ (
        if contains name robot.recipe_list
        then find name robot.value_table
        else find name mine.value_table)

data_package-Reads :
    (robot mine : Recipe) (q : Package) (n : ℕ) (junk : Bytes)
    → robot.recipe_id < 256
    → mine.recipe_id ≡ robot.recipe_id
    → mine.recipe_list ≡ robot.recipe_list
    → Readable robot.value_table mine.value_table robot.recipe_list
    → pack_to_bytes robot ≡ ok (q.head ∷ q.tail)
    → (t : Recipe) × (parser_data_package mine n (sent_as q ++ junk) ≡ ok (t, true))
      × Reads robot mine t
unfolding frame
data_package-Reads robot mine q n junk small same list h packs =
    let len = (3 + length (q.head ∷ q.tail)) % 65536 in
    let (bytes, table, packed, run, look) =
      parser_data_package-pack_to_bytes robot mine (len / 256) (len % 256) (type_byte q.cmd) n junk
        small same list h in
    let same_bytes : bytes ≡ q.head ∷ q.tail = cc in
    (record mine { value_table = table }, rw same_bytes at run, look)

read-Reads :
    (robot mine later : Recipe) (s : Interface) (name : Bytes) (v default : Value)
    → s.output_recipe ≡ some later
    → Reads robot mine later
    → contains name robot.recipe_list ≡ true
    → find name robot.value_table ≡ some v
    → kind default ≡ kind v
    → read default name s ≡ ok v
read-Reads robot mine later s name v default e reads listed found alike =
    let holds : find name later.value_table ≡ some v = rw (listed, found) at (reads name) in
    read-shown default name s later e
    ∙ (rw holds (
        if_pos (Kind-discrete (kind v) (kind default)) (sym alike) (ok v)
          (throws bad_variant_access)))

pack_to_bytes-head :
    (r : Recipe) (b : ℕ) (bs : Bytes)
    → r.recipe_id < 256
    → pack_to_bytes r ≡ ok (b ∷ bs)
    → r.recipe_id ≡ b
unfolding pack_to_bytes
pack_to_bytes-head r b bs small packs =
    let small_id : r.recipe_id % 256 ≡ r.recipe_id = omega arith in
    sym small_id ∙ pack_items-head r.recipe_list r.value_table _ [] b bs packs

-- The robot packs a recipe of the interface's layout, and its data package comes after packages of
-- other types, to a client in which no handler of an earlier call is left to run. After the interface
-- has received it, every getter of a variable in the list, with a
-- default of the variable's type, gives the robot's value, and what follows is left in the socket.
pub read-received :
    (s : Interface) (robot mine : Recipe) (q : Package) (others : List Package) (rest : Bytes)
    (socket : Socket)
    → s.output_recipe ≡ some mine
    → s.client.socket ≡ some socket
    → robot.recipe_id < 256
    → mine.recipe_id ≡ robot.recipe_id
    → mine.recipe_list ≡ robot.recipe_list
    → Readable robot.value_table mine.value_table robot.recipe_list
    → pack_to_bytes robot ≡ ok (q.head ∷ q.tail)
    → q.cmd ≡ data_package
    → length q.tail < 65532
    → Others data_package others
    → socket.incoming ≡ stream others (sent_as q ++ rest)
    → IsSettled s.client
    → (t : Interface) × (receive_output s ≡ (ok true, t))
      × (t.client ≡ record (s.client) { socket = some (record socket { incoming = rest }) })
      × ((name : Bytes) (v default : Value)
          → contains name robot.recipe_list ≡ true
          → find name robot.value_table ≡ some v
          → kind default ≡ kind v
          → read default name t ≡ ok v)
unfolding receive_output receive_into
read-received s robot mine q others rest socket e o small same list h packs cmd short skipped inc
      settled =
    let (later, run, reads) =
      receive_one-sent (Reads robot mine) mine q others rest s.client socket o cmd short skipped inc
        (same ∙ pack_to_bytes-head robot q.head q.tail small packs) settled
        (λ n junk. data_package-Reads robot mine q n junk small same list h packs) in
    (
      record s {
        client = record (s.client) { socket = some (record socket { incoming = rest }) };
        output_recipe = some later;
      },
      rw (e, receive_output, receive_into, run),
      refl,
      λ name v default. read-Reads robot mine later _ name v default refl reads,
    )
