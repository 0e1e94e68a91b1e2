-- ===== src/Rtsi/Client/Requests.antt =====
-- The client's requests: `connect` to `receiveData`.
use elite_robots_cs_sdk.Shared.{
  ℕ, ◌/◌, ◌%◌, List, [], ◌∷◌, ◌++◌, Bytes, Bool, true, false, not, Option, none, some, Result, ok,
  throws, fault, ◌==◌, if◌then◌else◌, socket_connect_fail,
}
use elite_robots_cs_sdk.Endian.{at, w32, w64, unpack_offset, pack}
use elite_robots_cs_sdk.Rtsi.Recipe.{
  Recipe, create, parser_type_package, parser_data_package, pack_to_bytes,
}
use elite_robots_cs_sdk.Rtsi.Client.Monad.{
  Socket, ConnectionState, disconnected, connected, started, stoped, Client, Io, ◌>>=◌, ◌>>◌,
  return, lift, set_state, socket_disconnect, Late, idle, will_connect, will_fail, given_up,
}
use elite_robots_cs_sdk.Rtsi.Client.Receive.{
  request_protocol_version, get_elite_control_version, data_package, control_package_setup_outputs,
  control_package_setup_inputs, control_package_start, control_package_pause, send_all, available,
  receive,
}

-- How `connect` fares: the peer accepts, the completion handler gets an error, or a call before that
-- throws a system_error. Each leaves a new socket, and destroys the old one.
pub data Attempt : Type 0 where
  accepted refused raised : Socket → Attempt

-- What is left to run behind an earlier handler, which is given up.
abbrev pub behind : Late → Late → Late
behind idle later = later
behind will_connect later = will_fail
behind will_fail later = will_fail

-- `io_context_` is not restarted: where an earlier run has stopped it, `run` returns at once, and the
-- handler is left to the next run.
unfoldable pub connect : Attempt → Io (Unit {0})
connect (accepted s) c =
    if c.stopped
    then (ok tt, record c { socket = some s; late = behind c.late will_connect })
    else (ok tt, record c { socket = some s; connection_state = connected; stopped = true })
connect (refused s) c =
    if c.stopped
    then (ok tt, record c { socket = some s; late = behind c.late will_fail })
    else (ok tt, record c { socket = some s; connection_state = disconnected; stopped = true })
connect (raised s) c =
    (throws socket_connect_fail, record c { socket = some s; late = given_up c.late })

unfoldable pub disconnect : Io (Unit {0})
unfolding socket_disconnect
disconnect = socket_disconnect

-- What is left of a `receive` whose fuel is enough (`Rtsi.Client.Ends.receive_ends`).
abbrev pub received : {P : Type 0} → Io (Option P) → Io P
received m = m >>= λ r. elim r [ some p ↦ return p | none ↦ lift fault ]

-- The fourth byte of a package, as a bool.
abbrev pub flag_of : Bytes → Io Bool
flag_of m = lift (at m 3) >>= λ b. return (not (b == 0))

unfoldable pub accept_parser : ℕ → Bytes → Bool → Io Bool
accept_parser len m _ = flag_of m

unfoldable pub negotiate_protocol_version : ℕ → Io Bool
unfolding accept_parser
negotiate_protocol_version version = do
  send_all request_protocol_version ((version / 256 % 256) ∷ (version % 256) ∷ [])
  received (receive request_protocol_version accept_parser false false)

-- The four numbers of VersionInfo, as 32-bit patterns.
abbrev pub Words4 : Type 0
Words4 = ℕ × ℕ × ℕ × ℕ

unfoldable pub version_parser : ℕ → Bytes → Words4 → Io Words4
version_parser len m _ = do
  (major, o1) ← lift (unpack_offset w32 m 3)
  (minor, o2) ← lift (unpack_offset w32 m o1)
  (bugfix, o3) ← lift (unpack_offset w32 m o2)
  (build, o4) ← lift (unpack_offset w32 m o3)
  return (major, minor, bugfix, build)

unfoldable pub get_controller_version : Io Words4
unfolding version_parser
get_controller_version = do
  send_all get_elite_control_version []
  received (receive get_elite_control_version version_parser false (0, 0, 0, 0))

-- `pop_back` of an empty vector is undefined.
unfoldable pub pop_back : Bytes → Result Bytes
pop_back [] = fault
pop_back (b ∷ []) = ok []
pop_back (b ∷ c ∷ bs) = elim (pop_back (c ∷ bs)) [
  | ok rest ↦ ok (b ∷ rest)
  | throws e ↦ throws e
  | fault ↦ fault
]

-- Each name of a recipe with a comma behind it.
unfoldable pub with_commas : List Bytes → Bytes
with_commas [] = []
with_commas (name ∷ names) = name ++ (b',' ∷ with_commas names)

unfoldable pub type_parser : ℕ → Bytes → Recipe → Io Recipe
type_parser len m r = lift (parser_type_package r len m)

-- The two setup requests. `id` is what the new recipe's ID holds before it is set.
unfoldable pub setup_output_recipe : List Bytes → ℕ → ℕ → Io Recipe
unfolding type_parser pop_back with_commas
setup_output_recipe list frequency id = do
  payload ← lift (pop_back (pack w64 frequency ++ with_commas list))
  send_all control_package_setup_outputs payload
  received (receive control_package_setup_outputs type_parser false (create list id))

unfoldable pub setup_input_recipe : List Bytes → ℕ → Io Recipe
unfolding type_parser pop_back with_commas
setup_input_recipe list id = do
  payload ← lift (pop_back (with_commas list))
  send_all control_package_setup_inputs payload
  received (receive control_package_setup_inputs type_parser false (create list id))

-- The callback of `start` and of `pause`: a flag that is set changes the state.
unfoldable pub state_parser : ConnectionState → ℕ → Bytes → Bool → Io Bool
state_parser s len m _ = do
  flag ← flag_of m
  elim flag [ true ↦ set_state s >> return true | false ↦ return false ]

unfoldable pub start : Io Bool
unfolding state_parser
start = do
  send_all control_package_start []
  received (receive control_package_start (state_parser started) false false)

unfoldable pub pause : Io Bool
unfolding state_parser
pause = do
  send_all control_package_pause []
  received (receive control_package_pause (state_parser stoped) false false)

unfoldable pub is_connected : Client → Bool
is_connected c = elim c.connection_state [ disconnected ↦ false | _ ↦ true ]

unfoldable pub is_started : Client → Bool
is_started c = elim c.connection_state [ started ↦ true | _ ↦ false ]

unfoldable pub is_read_available : Io Bool
unfolding available
is_read_available c = elim c.socket [
  | none ↦ (ok false, c)
  | some s ↦ (available >>= λ n. return (not (n == 0))) c
]

-- `send`.
unfoldable pub send : Recipe → Io (Unit {0})
send r = lift (pack_to_bytes r) >>= λ payload. send_all data_package payload

-- The recipes of `receiveData`: the first of the package's ID before a null pointer is parsed into.
unfoldable pub parse_into :
    ℕ → ℕ → Bytes → List (Option Recipe) → Result (List (Option Recipe) × Bool)
parse_into id len m [] = ok ([], false)
parse_into id len m (none ∷ rs) = ok (none ∷ rs, false)
parse_into id len m (some r ∷ rs) =
    let later = parse_into id len m rs in
    if r.recipe_id == id
    then elim (parser_data_package r len m) [
      | ok (r', done) ↦ ok (some r' ∷ rs, true)
      | throws e ↦ throws e
      | fault ↦ fault
    ]
    else elim later [ ok (rs', hit) ↦ ok (some r ∷ rs', hit) | throws e ↦ throws e | fault ↦ fault ]

-- The result is the ID, or `none` for -1.
unfoldable pub data_parser :
    ℕ → Bytes → List (Option Recipe) × Option ℕ → Io (List (Option Recipe) × Option ℕ)
unfolding parse_into
data_parser len m (rs, found) = do
  id ← lift (at m 3)
  (rs', hit) ← lift (parse_into id len m rs)
  return (rs', if hit then some id else found)

unfoldable pub receive_data : List (Option Recipe) → Bool → Io (List (Option Recipe) × Option ℕ)
unfolding data_parser
receive_data recipes read_newest =
    received (receive data_package data_parser read_newest (recipes, none))

unfoldable pub one_parser : ℕ → Bytes → Recipe × Bool → Io (Recipe × Bool)
one_parser len m (r, result) = do
  id ← lift (at m 3)
  if r.recipe_id == id
      then lift (parser_data_package r len m) >>= (λ q. return (q.0, true))
      else return (r, result)

unfoldable pub receive_one : Recipe → Bool → Io (Recipe × Bool)
unfolding one_parser
receive_one recipe read_newest =
    received (receive data_package one_parser read_newest (recipe, false))
