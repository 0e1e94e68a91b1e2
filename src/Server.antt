-- ===== src/Server.antt =====
-- TcpServer (source/Common/TcpServer.cpp): one client at a time.
pub mod Attempts
pub mod Clients
mod Tests
use elite_robots_cs_sdk.Shared.{
  ℕ, zero, suc, List, [], ◌∷◌, ◌++◌, Bytes, Bool, true, false, ◌&&◌, Option, none, some, Result, ok,
  throws, ◌==◌, if◌then◌else◌, length, ℤ, pos, negsuc, socket_fail,
}

-- The sockets by number: whether each is open, and what was written to it. `received` is what the
-- receive callback was called with.
pub record Server : Type 0 where
  pub acceptor : Bool
  pub socket : Option ℕ
  pub is_open : ℕ → Bool
  pub sent : ℕ → Bytes
  pub receive_cb : Bool
  pub received : List Bytes

abbrev pub update : {A : Type 0} → ℕ → A → (ℕ → A) → ℕ → A
update k a f j = if j == k then a else f j

-- `closeSocket`.
unfoldable pub close_socket : ℕ → Server → Server
close_socket k s = record s { is_open = update k false s.is_open }

abbrev pub close_old : Server → Server
unfolding close_socket
close_old s = elim s.socket [ none ↦ s | some k ↦ close_socket k s ]

-- The accept callback, with the new socket or an error.
unfoldable pub accepted : ℕ → Server → Server
unfolding close_old
accepted new s =
    let t = close_old s in record t { socket = some new; is_open = update new true t.is_open }

unfoldable pub accept_failed : Server → Server
unfolding close_old
accept_failed s = record (close_old s) { socket = none }

-- The read callback of a socket.
unfoldable pub read_done : Bytes → Server → Server
read_done bytes s = if s.receive_cb then record s { received = s.received ++ (bytes ∷ []) } else s

unfoldable pub read_failed : ℕ → Server → Server
unfolding close_socket
read_failed k s = close_socket k s

unfoldable pub set_receive_callback : Bool → Server → Server
set_receive_callback cb s = record s { receive_cb = cb }

-- `writeClient`: `whole` says that the system takes the bytes. A write to a closed socket fails. What a
-- write sent before it failed is not recorded.
unfoldable pub write_client : Bytes → Bool → Server → ℤ × Server
write_client bytes whole s = elim s.socket [
  | none ↦ (negsuc 0, s)
  | some k ↦
      if s.is_open k && whole
      then (pos (length bytes), record s { sent = update k (s.sent k ++ bytes) s.sent })
      else (negsuc 0, s)
]

unfoldable pub is_client_connected : Server → Bool
is_client_connected s = elim s.socket [ none ↦ false | some k ↦ s.is_open k ]

-- The destructor.
unfoldable pub close_server : Server → Server
unfolding close_old
close_server s = record (close_old s) { acceptor = false; socket = none }

-- How an attempt to bind the port fares.
pub data BindOutcome : Type 0 where
  bound in_use failed : BindOutcome

-- The loop of the constructor, with the given number of rounds behind this one. The result is the round.
unfoldable pub bind_from : ℕ → ℕ → (ℕ → BindOutcome) → Result ℕ
bind_from zero i tries = elim (tries i) [ BindOutcome.bound ↦ ok i | _ ↦ throws socket_fail ]
bind_from (suc n) i tries =
    let later = bind_from n (suc i) tries in
    elim (tries i) [
      | BindOutcome.bound ↦ ok i
      | BindOutcome.in_use ↦ later
      | BindOutcome.failed ↦ throws socket_fail
    ]

-- BIND_RETRY_TIMES is 30.
unfoldable pub bind : (ℕ → BindOutcome) → Result ℕ
unfolding bind_from
bind tries = bind_from 29 0 tries
