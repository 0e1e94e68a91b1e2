-- ===== src/Rtsi/Client/Calls.antt =====
-- Any sequence of the client's calls keeps the connection state and the socket in step.
use elite_robots_cs_sdk.Shared.{
  ℕ, ◌≡◌, ◌≢◌, refl, sym, ◌∙◌, List, ◌++◌, [], ◌∷◌, Bytes, Bool, false, Option, none, Result, ok,
  throws, fault, ◌==◌, Bool-cases, inl, inr,
}
use elite_robots_cs_sdk.Endian.{at, w32, w64, pack, unpack_offset}
use elite_robots_cs_sdk.Rtsi.Recipe.{Recipe, create, parser_data_package, pack_to_bytes}
use elite_robots_cs_sdk.Rtsi.Client.Monad.{
  Socket, ConnectionState, disconnected, started, stoped, Client, Io, after, lift, ◌>>=◌,
}
use elite_robots_cs_sdk.Rtsi.Client.Receive.{PackageType, data_package, send_all, receive}
use elite_robots_cs_sdk.Rtsi.Client.Requests.{
  received, Attempt, accepted, refused, raised, connect, disconnect, accept_parser,
  negotiate_protocol_version, version_parser, get_controller_version, pop_back, with_commas,
  type_parser, setup_output_recipe, setup_input_recipe, state_parser, start, pause, send,
  parse_into, data_parser, receive_data, one_parser, receive_one,
}
use elite_robots_cs_sdk.Rtsi.Client.State.{
  IsTracked, Tracks, bind-Tracks, lift-Tracks, send_all-Tracks, received-Tracks,
}

-- The calls of the client. `connects` says how the network answers; `id` is what a new recipe's ID
-- holds before it is set.
pub data Call : Type 0 where
  connects : Attempt → Call
  disconnects : Call
  negotiates : ℕ → Call
  asks_version : Call
  sets_up_output : List Bytes → ℕ → ℕ → Call
  sets_up_input : List Bytes → ℕ → Call
  starts pauses : Call
  sends : Recipe → Call
  receives : List (Option Recipe) → Bool → Call
  receives_one : Recipe → Bool → Call

-- The client after a call, whatever its result.
unfoldable pub call : Call → Client → Client
call (connects a) c = (connect a c).1
call disconnects c = (disconnect c).1
call (negotiates v) c = (negotiate_protocol_version v c).1
call asks_version c = (get_controller_version c).1
call (sets_up_output list f id) c = (setup_output_recipe list f id c).1
call (sets_up_input list id) c = (setup_input_recipe list id c).1
call starts c = (start c).1
call pauses c = (pause c).1
call (sends r) c = (send r c).1
call (receives rs newest) c = (receive_data rs newest c).1
call (receives_one r newest) c = (receive_one r newest c).1

unfoldable pub calls : List Call → Client → Client
calls [] c = c
calls (k ∷ ks) c = calls ks (call k c)

-- A callback that leaves the socket alone.
abbrev pub KeepsSocket : {P : Type 0} → (ℕ → Bytes → P → Io P) → Type 0
KeepsSocket {P} parser =
    (n : ℕ) (m : Bytes) (p : P) (c : Client) → (parser n m p c).1.socket ≡ c.socket

after-socket :
    {A B : Type 0} (f : A → Io B) (r : Result A × Client) (s : Option Socket)
    → r.1.socket ≡ s
    → ((a : A) (c : Client) → c.socket ≡ s → (f a c).1.socket ≡ s)
    → (after f r).1.socket ≡ s
after-socket f (ok a, c) s h k = k a c h
after-socket f (throws e, c) s h k = h
after-socket f (fault, c) s h k = h

pub accept_parser-KeepsSocket : KeepsSocket accept_parser
unfolding accept_parser
accept_parser-KeepsSocket n m p c = after-socket _ (at m 3, c) _ refl λ b c' e. e

pub version_parser-KeepsSocket : KeepsSocket version_parser
unfolding version_parser
version_parser-KeepsSocket n m p c =
    after-socket _ (unpack_offset w32 m 3, c) _ refl
      λ a c1 e1.
        after-socket _ (unpack_offset w32 m a.1, c1) _ e1
          λ b c2 e2.
            after-socket _ (unpack_offset w32 m b.1, c2) _ e2
              λ d c3 e3. after-socket _ (unpack_offset w32 m d.1, c3) _ e3 λ f c4 e4. e4

pub type_parser-KeepsSocket : KeepsSocket type_parser
unfolding type_parser
type_parser-KeepsSocket n m p c = refl

pub state_parser-KeepsSocket : (s : ConnectionState) → KeepsSocket (state_parser s)
unfolding state_parser
state_parser-KeepsSocket s n m p c =
    after-socket _ (after _ (at m 3, c)) _ (after-socket _ (at m 3, c) _ refl λ b c' e. e)
      λ b c' e. elim (Bool-cases b) [ inl set ↦ rw set e | inr unset ↦ rw unset e ]

pub data_parser-KeepsSocket : KeepsSocket data_parser
unfolding data_parser
data_parser-KeepsSocket n m (rs, found) c =
    after-socket _ (at m 3, c) _ refl
      λ id c1 e1. after-socket _ (parse_into id n m rs, c1) _ e1 λ r c2 e2. e2

pub one_parser-KeepsSocket : KeepsSocket one_parser
unfolding one_parser
one_parser-KeepsSocket n m (r, result) c =
    after-socket _ (at m 3, c) _ refl
      λ id c1 e1. elim (Bool-cases (r.recipe_id == id)) [
        | inl same ↦ rw same (after-socket _ (parser_data_package r n m, c1) _ e1 λ q c2 e2. e2)
        | inr other ↦ rw other e1
      ]

-- So a callback that keeps an open socket leaves a tracked client.
kept-IsTracked :
    {P : Type 0} (parser : ℕ → Bytes → P → Io P)
    → KeepsSocket parser
    → (n : ℕ) (m : Bytes) (p : P) (c : Client) → c.socket ≢ none
    → IsTracked (parser n m p c).1
kept-IsTracked parser k n m p c there = λ gone. absurd (there (sym (k n m p c) ∙ gone))

-- A request: a message is sent, then packages are received with a callback that keeps the socket.
request-Tracks :
    {P : Type 0} (sent target : PackageType) (payload : Bytes) (parser : ℕ → Bytes → P → Io P)
    (p : P)
    → KeepsSocket parser
    → Tracks (send_all sent payload >>= λ _. received (receive target parser false p))
request-Tracks sent target payload parser p k =
    bind-Tracks (send_all sent payload) _ (send_all-Tracks sent payload)
      λ _. received-Tracks target parser false (kept-IsTracked parser k) p

call-IsTracked : (k : Call) (c : Client) → IsTracked c → IsTracked (call k c)
unfolding call connect disconnect negotiate_protocol_version get_controller_version
    setup_output_recipe setup_input_recipe start pause send receive_data receive_one
call-IsTracked (connects (accepted s)) c t = elim (Bool-cases c.stopped) [
  | inl f ↦ rw f (λ e. cc)
  | inr f ↦ rw f (λ e. cc)
]
call-IsTracked (connects (refused s)) c t = elim (Bool-cases c.stopped) [
  | inl f ↦ rw f (λ e. cc)
  | inr f ↦ rw f (λ e. cc)
]
call-IsTracked (connects (raised s)) c t = λ e. cc
call-IsTracked disconnects c t = λ e. refl
call-IsTracked (negotiates v) c t =
    request-Tracks _ _ _ accept_parser false accept_parser-KeepsSocket c t
call-IsTracked asks_version c t =
    request-Tracks _ _ _ version_parser (0, 0, 0, 0) version_parser-KeepsSocket c t
call-IsTracked (sets_up_output list f id) c t =
    bind-Tracks (lift (pop_back (pack w64 f ++ with_commas list))) _
      (lift-Tracks (pop_back (pack w64 f ++ with_commas list)))
      (λ payload. request-Tracks _ _ payload type_parser (create list id) type_parser-KeepsSocket) c
      t
call-IsTracked (sets_up_input list id) c t =
    bind-Tracks (lift (pop_back (with_commas list))) _ (lift-Tracks (pop_back (with_commas list)))
      (λ payload. request-Tracks _ _ payload type_parser (create list id) type_parser-KeepsSocket) c
      t
call-IsTracked starts c t =
    request-Tracks _ _ _ (state_parser started) false (state_parser-KeepsSocket started) c t
call-IsTracked pauses c t =
    request-Tracks _ _ _ (state_parser stoped) false (state_parser-KeepsSocket stoped) c t
call-IsTracked (sends r) c t =
    bind-Tracks (lift (pack_to_bytes r)) _ (lift-Tracks (pack_to_bytes r))
      (λ payload. send_all-Tracks data_package payload) c t
call-IsTracked (receives rs newest) c t =
    received-Tracks data_package data_parser newest
      (kept-IsTracked data_parser data_parser-KeepsSocket) (rs, none) c t
call-IsTracked (receives_one r newest) c t =
    received-Tracks data_package one_parser newest
      (kept-IsTracked one_parser one_parser-KeepsSocket) (r, false) c t

-- If a client begins with no socket only in the state DISCONNECTED, then after any sequence of
-- calls, whatever the network does and also where they throw, it has no socket only in the state
-- DISCONNECTED.
pub calls-IsTracked :
    (ks : List Call) (c : Client)
    → (c.socket ≡ none → c.connection_state ≡ disconnected)
    → (calls ks c).socket ≡ none
    → (calls ks c).connection_state ≡ disconnected
unfolding calls
calls-IsTracked [] c t = t
calls-IsTracked (k ∷ ks) c t = calls-IsTracked ks (call k c) (call-IsTracked k c t)
