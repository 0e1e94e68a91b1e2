-- ===== src/Primary/Background.antt =====
-- The connection of PrimaryPort (source/Primary/PrimaryPort.cpp): `connect`, `disconnect`, and the
-- background thread that parses messages and connects again.
pub mod Reports
mod Tests
use elite_robots_cs_sdk.Shared.{
  ℕ, zero, suc, ◌+◌, List, [], ◌∷◌, ◌++◌, Bytes, Bool, true, false, ◌&&◌, Option, none, some,
  Result, ok, throws, fault, ◌>>=◌, if◌then◌else◌,
}
use elite_robots_cs_sdk.Primary.Port.{Port}
use elite_robots_cs_sdk.Primary.Exceptions.{RobotException}
use elite_robots_cs_sdk.Primary.Message.{Wire, Outcome, parser_message}

-- Whether a socket is there; and the background thread, if it runs, with the address and the port that it was
-- started with.
pub record Link : Type 0 where
  pub has_socket : Bool
  pub thread : Option (Bytes × ℕ)

-- `socketConnect`: whether it succeeds. Where it throws, the new socket stays.
unfoldable pub socket_connect : Result Bool → Link → Result Bool × Link
socket_connect (ok b) l = (ok b, record l { has_socket = b })
socket_connect (throws e) l = (throws e, record l { has_socket = true })
socket_connect fault l = (fault, l)

-- The thread is started once, and keeps the address that it was started with.
abbrev pub with_thread : Bytes → ℕ → Link → Link
with_thread ip port l = elim l.thread [
  | none ↦ record l { thread = some (ip, port) }
  | some started ↦ l
]

abbrev connected_to : Bytes → ℕ → Result Bool × Link → Result Bool × Link
connected_to ip port (ok true, l) = (ok true, with_thread ip port l)
connected_to ip port (r, l) = (r, l)

unfoldable pub connect_primary : Bytes → ℕ → Result Bool → Link → Result Bool × Link
unfolding socket_connect
connect_primary ip port result l = connected_to ip port (socket_connect result l)

unfoldable pub disconnect_primary : Link → Link
disconnect_primary l = record { has_socket = false; thread = none }

-- A round of the thread: what the socket has, the time, and how an attempt to connect again ends.
pub record Round : Type 0 where
  pub wire : Wire
  pub timestamp : ℕ
  pub reconnect : Result Bool

-- What the thread has: the waiting packages, whether the last attempt to connect succeeded, the times
-- with which the callback was told that the robot is disconnected, the other exceptions that it was
-- told of, how many connections were made, and whether the read of a body is still to be completed.
pub record Background : Type 0 where
  pub port : Port
  pub is_last_connect_success : Bool
  pub disconnected : List ℕ
  pub exceptions : List RobotException
  pub connections : ℕ
  pub pending : Bool

abbrev pub one_if : Bool → ℕ
one_if b = if b then 1 else 0

-- `is_last_connect_success = socketReconnect(…)`; where it throws, the handler of the loop goes on.
abbrev pub reconnected : Result Bool → Background → Result Background
reconnected (ok b) s =
    ok (record s { is_last_connect_success = b; connections = s.connections + one_if b })
reconnected (throws e) s = ok s
reconnected fault s = fault

-- An attempt runs the context, and so the handler of a read that is still to be completed, which
-- writes to variables that are gone.
abbrev pub attempt : Bool → Result Bool → Result Bool
attempt true (ok b) = fault
attempt true r = r
attempt false r = r

-- A message that was not parsed.
unfoldable pub lost : Bool → Round → Background → Result Background
lost has_callback r s = reconnected (attempt s.pending r.reconnect) (
    if has_callback && s.is_last_connect_success
    then record s { disconnected = s.disconnected ++ (r.timestamp ∷ []) }
    else s)

abbrev pub parsed : Outcome → Background → Background
parsed o s = record s {
  port = o.port;
  exceptions = s.exceptions ++ o.reported;
  pending = o.pending;
}

abbrev pub after_message : Bool → Round → Background → Result Outcome → Result Background
after_message has_callback r s (ok o) =
    if o.result then ok (parsed o s) else lost has_callback r (parsed o s)
after_message has_callback r s (throws e) = ok s
after_message has_callback r s fault = fault

-- A round of `socketAsyncLoop`.
unfoldable pub async_round : Bool → Round → Background → Result Background
unfolding parser_message lost
async_round has_callback r s =
    after_message has_callback r s
      (parser_message has_callback (record (r.wire) { pending = s.pending }) s.port)

-- `socketAsyncLoop`, for as many rounds as the thread is let live.
unfoldable pub socket_async_loop : Bool → List Round → Background → Result Background
unfolding async_round
socket_async_loop has_callback [] s = ok s
socket_async_loop has_callback (r ∷ rs) s =
    async_round has_callback r s >>= λ t. socket_async_loop has_callback rs t
