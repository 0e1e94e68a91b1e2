-- ===== src/Rtsi/Io/Life.antt =====
-- `connect`, `disconnect`, `setupRecipe` and `recvLoop` of RtsiIOInterface.
use elite_robots_cs_sdk.Shared.{
  ℕ, List, [], ◌∷◌, Bytes, Bool, true, false, ◌&&◌, ◌||◌, Option, none, some, Code, Result, ok,
  throws, fault, if◌then◌else◌, rtsi_unknow_variable_type,
}
use elite_robots_cs_sdk.Shared.Action.{Action, ◌>>=◌, ◌>>◌, return, update}
use elite_robots_cs_sdk.Rtsi.Recipe.{Recipe}
use elite_robots_cs_sdk.Rtsi.Client.Monad.{Client, Io, lift}
use elite_robots_cs_sdk.Rtsi.Client.Receive.{data_package, receive}
use elite_robots_cs_sdk.Rtsi.Client.Requests.{
  Attempt, connect, disconnect, received, negotiate_protocol_version, Words4,
  get_controller_version, setup_output_recipe, setup_input_recipe, start, send, receive_one,
}
use elite_robots_cs_sdk.Rtsi.Io.{
  Thread, absent, running, finished, joined, Interface, is_io_connected,
}

abbrev pub Act : Type 0 → Type 0
Act A = Action Interface A

-- A call of RtsiClientInterface.
abbrev pub on_client : {A : Type 0} → Io A → Act A
on_client m s = let (r, c) = m s.client in (r, record s { client = c })

-- The constructor from two lists. `is_recv_thread_alive_` is not set.
unfoldable pub new_interface : List Bytes → List Bytes → ℕ → Client → Words4 → Bool → Interface
new_interface outputs inputs frequency client version alive = record {
  client = client;
  input_new_cmd = false;
  input_recipe_string = inputs;
  output_recipe_string = outputs;
  target_frequency = frequency;
  input_recipe = none;
  output_recipe = none;
  recv_thread = absent;
  is_recv_thread_alive = alive;
  controller_version = version;
}

abbrev pub has_thread : Thread → Bool
has_thread absent = false
has_thread t = true

abbrev pub joinable : Thread → Bool
joinable running = true
joinable finished = true
joinable t = false

abbrev pub join : Interface → Interface
join s =
    if joinable s.recv_thread
    then record s { is_recv_thread_alive = false; recv_thread = joined }
    else s

-- `disconnect`: the thread ends between two rounds of its loop.
unfoldable pub disconnect_io : Act (Unit {0})
unfolding disconnect
disconnect_io = update join >> on_client disconnect

-- `setupRecipe`; `id` is what a new recipe's ID holds before it is set.
unfoldable pub setup_input : List Bytes → ℕ → Act (Unit {0})
unfolding setup_input_recipe
setup_input [] id = return tt
setup_input (name ∷ names) id = on_client (setup_input_recipe (name ∷ names) id) >>= λ r.
    update λ s. record s { input_recipe = some r }

unfoldable pub setup_output : List Bytes → ℕ → ℕ → Act (Unit {0})
unfolding setup_output_recipe
setup_output [] frequency id = return tt
setup_output (name ∷ names) frequency id =
    on_client (setup_output_recipe (name ∷ names) frequency id) >>= λ r.
    update λ s. record s { output_recipe = some r }

unfoldable pub setup_recipe : ℕ → Act (Unit {0})
unfolding setup_input setup_output
setup_recipe id s =
    (setup_input s.input_recipe_string id
        >> setup_output s.output_recipe_string s.target_frequency id)
      s

-- `receiveData(output_recipe_, false)`. The callback reads the ID through the pointer.
unfoldable pub receive_into : Option Recipe → Act Bool
unfolding receive_one receive
receive_into none =
    on_client (received (receive data_package (λ len m result. lift fault) false false))
receive_into (some r) = on_client (receive_one r false) >>= λ (later, result).
    (update λ s. record s { output_recipe = some later }) >> return result

unfoldable pub receive_output : Act Bool
unfolding receive_into
receive_output s = receive_into s.output_recipe s

-- The thread's first package and what `connect` makes of it.
unfoldable pub started_with : Result Bool × Interface → Result Bool × Interface
unfolding disconnect_io
started_with (ok true, s) = (ok true, s)
started_with (ok false, s) = (disconnect_io >> return false) (record s { recv_thread = finished })
started_with (throws e, s) = (disconnect_io >> return false) (record s { recv_thread = finished })
started_with (fault, s) = (fault, s)

unfoldable pub start_thread : Act Bool
unfolding receive_output started_with
start_thread s =
    started_with (receive_output (record s { is_recv_thread_alive = true; recv_thread = running }))

abbrev pub is_unknow_variable_type : Code → Bool
is_unknow_variable_type rtsi_unknow_variable_type = true
is_unknow_variable_type e = false

-- The `try` block and its handler.
unfoldable pub handled : Result Bool × Interface → Result Bool × Interface
unfolding start_thread disconnect_io
handled (ok true, s) = start_thread s
handled (ok false, s) = (ok false, s)
handled (throws e, s) =
    if is_unknow_variable_type e then (disconnect_io >> return false) s else (throws e, s)
handled (fault, s) = (fault, s)

unfoldable pub set_up : ℕ → Act Bool
unfolding setup_recipe start handled
set_up id s = handled ((setup_recipe id >> on_client start) s)

-- DEFAULT_PROTOCOL_VERSION is 1.
unfoldable pub negotiated : ℕ → Bool → Act Bool
unfolding get_controller_version set_up
negotiated id false = return false
negotiated id true = on_client get_controller_version >>= λ v.
    (update λ s. record s { controller_version = v }) >> set_up id

unfoldable pub connect_io : Attempt → ℕ → Act Bool
unfolding is_io_connected disconnect_io connect negotiate_protocol_version negotiated
connect_io attempt id s =
    (on_client (connect attempt) >>= λ _.
    on_client (negotiate_protocol_version 1) >>= λ b. negotiated id b)
      (if is_io_connected s || has_thread s.recv_thread then disconnect_io s else (ok tt, s)).1

-- The last lines of a round: `send(input_recipe_)`, then the flag is cleared.
unfoldable pub send_recipe : Option Recipe → Act (Unit {0})
unfolding send
send_recipe none = λ s. (fault, s)
send_recipe (some r) = on_client (send r)

unfoldable pub send_input : Act (Unit {0})
unfolding send_recipe
send_input s = send_recipe s.input_recipe s

abbrev pub clear_new : Interface → Interface
clear_new s = record s { input_new_cmd = false }

abbrev pub has_recipe : Option Recipe → Bool
has_recipe none = false
has_recipe (some r) = true

unfoldable pub send_new : Act (Unit {0})
unfolding send_input
send_new s =
    if s.input_new_cmd && has_recipe s.input_recipe
    then (send_input >> update clear_new) s
    else (ok tt, s)

-- Without an output recipe the round sleeps.
unfoldable pub receive_new : Act (Unit {0})
unfolding receive_output
receive_new s =
    if has_recipe s.output_recipe then (receive_output >>= λ b. return tt) s else (ok tt, s)

-- The handler of `recvLoop`: every exception stops the loop.
abbrev pub caught : Result (Unit {0}) × Interface → Result (Unit {0}) × Interface
caught (throws e, s) = (ok tt, record s { is_recv_thread_alive = false })
caught (ok u, s) = (ok u, s)
caught (fault, s) = (fault, s)

-- A round of `recvLoop`. No setter is called within it (`send_input` and `clear_new` are two steps of the
-- thread, and a value that is set between them is not sent).
unfoldable pub round : Act (Unit {0})
unfolding receive_new send_new
round s =
    if s.is_recv_thread_alive
    then caught ((receive_new >> send_new) s)
    else (ok tt, record s { recv_thread = finished })
