-- ===== src/Server/Clients.antt =====
-- The clients of a server over time.
use elite_robots_cs_sdk.Shared.{
  ℕ, ◌≡◌, ◌≢◌, ◌↔◌, [], ◌++◌, Bytes, Bool, true, false, none, some, length, pos, arith,
  Option-cases, Bool-cases, inl, inr,
}
use elite_robots_cs_sdk.Server.{
  Server, close_socket, accepted, accept_failed, read_done, read_failed, set_receive_callback,
  write_client, is_client_connected, close_server,
}

-- What happens to a server: its callbacks, which run in one thread, and the calls of its user.
pub data Step (s : Server) : Server → Type 0 where
  accepts : (new : ℕ) → s.is_open new ≡ false → Step s (accepted new s)
  fails : Step s (accept_failed s)
  reads : (bytes : Bytes) → Step s (read_done bytes s)
  ends : (k : ℕ) → Step s (read_failed k s)
  sets : (cb : Bool) → Step s (set_receive_callback cb s)
  writes : (bytes : Bytes) (whole : Bool) → Step s (write_client bytes whole s).1
  closes : Step s (close_server s)

pub data IsReachable : Server → Type 0 where
  new_server : IsReachable (record {
    acceptor = true;
    socket = none;
    is_open = λ k. false;
    sent = λ k. [];
    receive_cb = false;
    received = [];
  })
  goes : (s t : Server) → IsReachable s → Step s t → IsReachable t

-- Only the server's socket is open.
unfoldable pub IsSingle : Server → Type 0
IsSingle s = (k : ℕ) → s.is_open k ≡ true → s.socket ≡ some k

Step-IsSingle : (s t : Server) → Step s t → IsSingle s → IsSingle t
unfolding IsSingle accepted accept_failed read_done read_failed set_receive_callback write_client
    close_server close_socket
Step-IsSingle s _ (accepts new fresh) h k e = ground (arith, h k, Option-cases s.socket)
Step-IsSingle s _ fails h k e = ground (arith, h k, Option-cases s.socket)
Step-IsSingle s _ (reads bytes) h k e = ground (arith, h k, Bool-cases s.receive_cb)
Step-IsSingle s _ (ends j) h k e = ground (arith, h k)
Step-IsSingle s _ (sets cb) h k e = h k e
Step-IsSingle s _ (writes bytes whole) h k e = ground (arith, h k, Option-cases s.socket)
Step-IsSingle s _ closes h k e = ground (arith, h k, Option-cases s.socket)

reachable-IsSingle : (s : Server) → IsReachable s → IsSingle s
unfolding IsSingle
reachable-IsSingle _ new_server k e = cc
reachable-IsSingle t (goes s _ r step) k e = Step-IsSingle s t step (reachable-IsSingle s r) k e

connected-open :
    (s : Server) → IsSingle s → (is_client_connected s ≡ true) ↔ ((k : ℕ) × (s.is_open k ≡ true))
unfolding is_client_connected IsSingle
connected-open s h = elim (Option-cases s.socket) [
  | inl e ↦ ((λ c. absurd (let d = rw e at c in cc)), λ (k, o). absurd (let d = h k o in cc))
  | inr (j, e) ↦
      ((λ c. (j, rw e at c)), λ (k, o). let same : j ≡ k = ground (arith, h k o) in rw (e, same) o)
]

-- In every state that can be reached, at most one client is open, and `isClientConnected` says whether
-- there is one.
pub one_client :
    (s : Server)
    → IsReachable s
    → ((a b : ℕ) → s.is_open a ≡ true → s.is_open b ≡ true → a ≡ b)
      × ((is_client_connected s ≡ true) ↔ ((k : ℕ) × (s.is_open k ≡ true)))
unfolding IsSingle
one_client s r =
    let h = reachable-IsSingle s r in
    ((λ a b e f. ground (arith, h a e, h b f)), connected-open s h)

-- After a client with a new socket is accepted in a state that can be reached, a write that the
-- system takes whole returns its length and goes to that client and to no other; every other socket
-- is closed.
accepted-write :
    (new : ℕ) (bytes : Bytes) (s : Server)
    → IsReachable s
    → s.is_open new ≡ false
    → ((write_client bytes true (accepted new s)).0 ≡ pos (length bytes))
      × ((write_client bytes true (accepted new s)).1.sent new ≡ s.sent new ++ bytes)
      × ((k : ℕ)
          → k ≢ new
          → ((write_client bytes true (accepted new s)).1.sent k ≡ s.sent k)
            × ((write_client bytes true (accepted new s)).1.is_open k ≡ false))
unfolding write_client accepted close_socket IsSingle
accepted-write new bytes s r fresh =
    let h = reachable-IsSingle s r in
    elim (Option-cases s.socket) [
      | inl e ↦ (
        ground arith,
        ground arith,
        λ k d. (ground arith, ground (arith, h k, Bool-cases (s.is_open k))),
      )
      | inr (old, e) ↦ (
        ground arith,
        ground arith,
        λ k d. (ground arith, ground (arith, h k, Bool-cases (s.is_open k))),
      )
    ]
