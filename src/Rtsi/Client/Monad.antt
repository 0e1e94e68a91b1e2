-- ===== src/Rtsi/Client/Monad.antt =====
-- The client's state, and actions on it that may throw.
use elite_robots_cs_sdk.Shared.{
  ℕ, ◌≡◌, refl, List, Bytes, Bool, true, Option, none, some, Result, ok, throws, fault,
}

-- How the peer's byte stream ends: it says nothing more, or the connection breaks.
pub data Ending : Type 0 where
  silent broken : Ending

-- An open TCP socket. `incoming` is what the peer has sent and will send, and `polls` what
-- `available()` answers, call by call (0 behind the end). `writes` is how many bytes each
-- `write_some` takes, or `none` for an error; behind the end every write is taken whole.
pub record Socket : Type 0 where
  pub incoming : Bytes
  pub ending : Ending
  pub polls : List ℕ
  pub writes : List (Option ℕ)
  pub sent : Bytes

pub data ConnectionState : Type 0 where
  disconnected connected started stoped : ConnectionState

-- The handler of a `connect` that has returned before it ran: there is none, the peer accepts, or the
-- connection fails or is given up. In the last case the handler prints the port, a parameter of the
-- call that has returned.
pub data Late : Type 0 where
  idle will_connect will_fail : Late

-- `stopped` is that of `io_context_`: a run out of work, and a handler that throws, leaves it set.
pub record Client : Type 0 where
  pub socket : Option Socket
  pub connection_state : ConnectionState
  pub stopped : Bool
  pub late : Late

-- An action gives a result and leaves a client, also where it throws.
abbrev pub Io : Type 0 → Type 0
Io A = Client → Result A × Client

abbrev pub after {ℓ} :
    {A B : Type ℓ} → (A → Client → Result B × Client) → Result A × Client → Result B × Client
after f (ok a, c) = f a c
after f (throws e, c) = (throws e, c)
after f (fault, c) = (fault, c)

infixl 5 ◌>>=◌ ◌>>◌
abbrev pub ◌>>=◌ : {A B : Type 0} → Io A → (A → Io B) → Io B
◌>>=◌ m f c = after f (m c)

abbrev pub ◌>>◌ : {B : Type 0} → Io (Unit {0}) → Io B → Io B
m >> k = m >>= λ _. k

abbrev pub return : {A : Type 0} → A → Io A
return a c = (ok a, c)

abbrev pub lift : {A : Type 0} → Result A → Io A
lift r c = (r, c)

abbrev pub set_state : ConnectionState → Io (Unit {0})
set_state s c = (ok tt, record c { connection_state = s })

-- A socket that is destroyed cancels the connect that waits on it.
abbrev pub given_up : Late → Late
given_up idle = idle
given_up will_connect = will_fail
given_up will_fail = will_fail

-- `socketDisconnect`, and so `disconnect`.
unfoldable pub socket_disconnect : Io (Unit {0})
socket_disconnect c =
    (ok tt, record c { socket = none; connection_state = disconnected; late = given_up c.late })

-- A run of `io_context_` that has been restarted: the handler of an earlier `connect` runs too.
unfoldable pub run_context : Io (Unit {0})
run_context c = elim c.late [
  | idle ↦ (ok tt, record c { stopped = true })
  | will_connect ↦ (ok tt, record c { stopped = true; late = idle; connection_state = connected })
  | will_fail ↦ (fault, c)
]

-- A client whose handlers have run.
abbrev pub IsSettled : Client → Type 0
IsSettled c = (c.late ≡ idle) × (c.stopped ≡ true)

pub run_context_settled : (c : Client) → IsSettled c → run_context c ≡ (ok tt, c)
unfolding run_context
run_context_settled c (e, f) = rw (e, f) refl

-- `socket_ptr_->…`, which a null pointer makes undefined.
abbrev pub with_socket : {A : Type 0} → (Socket → Io A) → Io A
with_socket f c = elim c.socket [ none ↦ (fault, c) | some s ↦ f s c ]

abbrev pub put_socket : Socket → Io (Unit {0})
put_socket s c = (ok tt, record c { socket = some s })
