-- ===== src/Rtsi/Client/State.antt =====
-- The connection state across the client's calls.
use elite_robots_cs_sdk.Shared.{
  ℕ, zero, suc, ◌-◌, ◌≡◌, ◌≢◌, refl, Bytes, Bool, Option, none, some, Result, ok, throws, fault,
  leb, ltb, ◌==◌, arith, Bool-cases, Option-cases, inl, inr,
}
use elite_robots_cs_sdk.Endian.{at, w16, unpack}
use elite_robots_cs_sdk.Rtsi.Client.Monad.{
  disconnected, Client, Io, after, ◌>>=◌, return, lift, socket_disconnect, run_context,
}
use elite_robots_cs_sdk.Rtsi.Client.Receive.{
  PackageType, type_byte, available, send_all, receive_socket, package_read, package_body,
  package_head, package_done, receive_loop, receive, pending,
}
use elite_robots_cs_sdk.Rtsi.Client.Requests.{received}

-- A client without a socket is disconnected.
abbrev pub IsTracked : Client → Type 0
IsTracked c = c.socket ≡ none → c.connection_state ≡ disconnected

-- An action that leaves every tracked client tracked, also where it throws.
abbrev pub Tracks : {A : Type 0} → Io A → Type 0
Tracks m = (c : Client) → IsTracked c → IsTracked (m c).1

after-Tracks :
    {A B : Type 0} (f : A → Io B) (r : Result A × Client)
    → IsTracked r.1
    → ((a : A) → Tracks (f a))
    → IsTracked (after f r).1
after-Tracks f (ok a, c) h k = k a c h
after-Tracks f (throws e, c) h k = h
after-Tracks f (fault, c) h k = h

after_eq-Tracks :
    {A B : Type 0} (f : A → Io B) (r : Result A × Client)
    → IsTracked r.1
    → ((a : A) (c : Client) → r ≡ (ok a, c) → IsTracked c → IsTracked (f a c).1)
    → IsTracked (after f r).1
after_eq-Tracks f (ok a, c) h k = k a c refl h
after_eq-Tracks f (throws e, c) h k = h
after_eq-Tracks f (fault, c) h k = h

pub bind-Tracks :
    {A B : Type 0} (m : Io A) (f : A → Io B)
    → Tracks m
    → ((a : A) → Tracks (f a))
    → Tracks (m >>= f)
bind-Tracks m f h k c t = after-Tracks f (m c) (h c t) k

pub lift-Tracks : {A : Type 0} (r : Result A) → Tracks (lift r)
lift-Tracks r c t = t

pub send_all-Tracks : (cmd : PackageType) (payload : Bytes) → Tracks (send_all cmd payload)
unfolding send_all
send_all-Tracks cmd payload c t = elim (Option-cases c.socket) [
  | inl e ↦ ground (arith, e)
  | inr (s, e) ↦ ground (arith, e)
]

receive_socket-Tracks : (buff : Bytes) (size offset : ℕ) → Tracks (receive_socket buff size offset)
unfolding receive_socket socket_disconnect run_context
receive_socket-Tracks buff size offset c t = elim (Option-cases c.socket) [
  | inl e ↦ ground (arith, e)
  | inr (s, e) ↦ ground (arith, e)
]

-- After a read that succeeds the socket is still there.
receive_socket_open :
    (buff : Bytes) (size offset k : ℕ) (b : Bytes) (c c' : Client)
    → receive_socket buff size offset c ≡ (ok (some k, b), c')
    → c'.socket ≢ none
unfolding receive_socket socket_disconnect run_context
receive_socket_open buff size offset k b c c' e = elim (Option-cases c.socket) [
  | inl missing ↦ ground arith
  | inr (s, f) ↦ ground (arith, f)
]

available-Tracks : Tracks available
unfolding available
available-Tracks c t = elim (Option-cases c.socket) [
  | inl e ↦ ground (arith, e)
  | inr (s, e) ↦ ground (arith, e)
]

module _ {P : Type 0} (target : PackageType) (parser : ℕ → Bytes → P → Io P) (newest : Bool)
    (keeps : (n : ℕ) (buff : Bytes) (p : P) (c : Client)
      → c.socket ≢ none
      → IsTracked (parser n buff p c).1) where
  abbrev AgainTracks : (Bytes → P → Io (Option P)) → Type 0
  AgainTracks again = (buff : Bytes) (p : P) → Tracks (again buff p)

  done-Tracks :
      (again : Bytes → P → Io (Option P)) (buff : Bytes) (p : P)
      → AgainTracks again
      → Tracks (package_done target parser newest again buff p)
  unfolding package_done
  done-Tracks again buff p h c t = elim (Bool-cases newest) [
    | inr first ↦ rw (first, package_done) t
    | inl last ↦
        rw (last, package_done)
          (after-Tracks _ (available c) (available-Tracks c t) λ n c' t'.
            elim (Bool-cases (leb 3 n)) [
              | inl more ↦ rw more (h buff p c' t')
              | inr no_more ↦ rw no_more t'
            ])
  ]

  read-Tracks :
      (again : Bytes → P → Io (Option P)) (n type : ℕ) (buff : Bytes) (p : P)
      → AgainTracks again
      → (c : Client) → c.socket ≢ none
      → IsTracked c
      → IsTracked (package_read target parser newest again n type buff p c).1
  unfolding package_read
  read-Tracks again n type buff p h c open_ t = elim (Bool-cases (type_byte target == type)) [
    | inl same ↦ rw same (
        after-Tracks _ (parser n buff p c) (keeps n buff p c open_) λ q. done-Tracks again buff q h)
    | inr other ↦ rw other (h buff p c t)
  ]

  body-Tracks :
      (again : Bytes → P → Io (Option P)) (n type : ℕ) (buff : Bytes) (p : P)
      → AgainTracks again
      → Tracks (package_body target parser newest again n type buff p)
  unfolding package_body
  body-Tracks again n type buff p h c t = elim (Bool-cases (ltb n 3)) [
    | inl short ↦ rw short t
    | inr whole ↦ rw whole (
        after_eq-Tracks _ (receive_socket buff (n - 3) 3 c)
          (receive_socket-Tracks buff (n - 3) 3 c t) λ r c' e t'. after_read r.0 r.1 c' e t')
  ]
    where
      after_read :
          (o : Option ℕ) (b : Bytes) (c' : Client)
          → receive_socket buff (n - 3) 3 c ≡ (ok (o, b), c')
          → IsTracked c'
          → IsTracked
              (elim o as (λ _. Io (Option P)) [
                | none ↦ return (some p)
                | some zero ↦ return (some p)
                | some (suc k) ↦ package_read target parser newest again n type b p
              ]
                c').1
      after_read none b c' e t' = t'
      after_read (some zero) b c' e t' = t'
      after_read (some (suc k)) b c' e t' =
          read-Tracks again n type b p h c' (receive_socket_open buff (n - 3) 3 (suc k) b c c' e) t'

  head-Tracks :
      (again : Bytes → P → Io (Option P)) (buff : Bytes) (p : P)
      → AgainTracks again
      → Tracks (package_head target parser newest again buff p)
  unfolding package_head
  head-Tracks again buff p h c t =
      after-Tracks _ (receive_socket buff 3 0 c) (receive_socket-Tracks buff 3 0 c t)
        λ r. after_read r.0 r.1
    where
      after_read :
          (o : Option ℕ) (b : Bytes)
          → Tracks (elim o as (λ _. Io (Option P)) [
            | none ↦ return (some p)
            | some k ↦ lift (unpack w16 b) >>= λ n.
                lift (at b 2) >>= λ type. package_body target parser newest again n type b p
          ])
      after_read none b c' t' = t'
      after_read (some k) b c' t' =
          after-Tracks _ (unpack w16 b, c') t'
            λ n c1 t1. after-Tracks _ (at b 2, c1) t1 λ type. body-Tracks again n type b p h

  loop-Tracks : (fuel : ℕ) → AgainTracks (receive_loop target parser newest fuel)
  unfolding receive_loop
  loop-Tracks zero buff p c t = t
  loop-Tracks (suc fuel) buff p c t =
      head-Tracks (receive_loop target parser newest fuel) buff p (loop-Tracks fuel) c t

  pub received-Tracks : (p : P) → Tracks {A = P} (received (receive target parser newest p))
  unfolding receive
  received-Tracks p c t =
      after-Tracks _ (receive target parser newest p c) (loop-Tracks (suc (pending c)) _ p c t)
        given
    where
      given :
          (r : Option P)
          → Tracks {A = P} (elim r as (λ _. Io P) [ some q ↦ return q | none ↦ lift fault ])
      given none c' t' = t'
      given (some q) c' t' = t'
