-- ===== src/Rtsi/Client/Ends.antt =====
-- `receive` ends: the fuel of the model is enough on every input.
use elite_robots_cs_sdk.Shared.{
  ℕ, zero, suc, ◌+◌, ◌-◌, ◌<◌, ◌≡◌, ◌≢◌, refl, Bytes, Bool, Option, none, some, Result, ok, throws,
  fault, leb, ltb, ◌==◌, arith, length-drop, Bool-cases, Option-cases, inl, inr,
}
use elite_robots_cs_sdk.Endian.{at, w16, unpack}
use elite_robots_cs_sdk.Rtsi.Client.Monad.{
  Client, Io, after, ◌>>=◌, return, lift, socket_disconnect, run_context,
}
use elite_robots_cs_sdk.Rtsi.Client.Receive.{
  PackageType, type_byte, available, receive_socket, package_read, package_body, package_head,
  package_done, receive_loop, receive, pending,
}

-- A read that succeeds takes its bytes from what is to come.
receive_socket-pending :
    (buff : Bytes) (size offset k : ℕ) (b : Bytes) (c c' : Client)
    → receive_socket buff size offset c ≡ (ok (some k, b), c')
    → (k ≡ size) × (pending c' + size ≡ pending c)
unfolding receive_socket socket_disconnect run_context
receive_socket-pending buff size offset k b c c' e = elim (Option-cases c.socket) [
  | inl missing ↦ ground arith
  | inr (s, f) ↦ ground (arith, f, length-drop size s.incoming)
]

available-pending : (n : ℕ) (c c' : Client) → available c ≡ (ok n, c') → pending c' ≡ pending c
unfolding available
available-pending n c c' e = elim (Option-cases c.socket) [
  | inl missing ↦ ground arith
  | inr (s, f) ↦ ground (arith, f)
]

-- An action ends with a result that is not "out of fuel" if all that may follow it does.
after-ends :
    {A P : Type 0} (f : A → Io (Option P)) (r : Result A × Client)
    → ((a : A) (c : Client) → r ≡ (ok a, c) → (f a c).0 ≢ ok none)
    → (after f r).0 ≢ ok none
after-ends f (ok a, c) h = h a c refl
after-ends f (throws e, c) h = λ q. cc
after-ends f (fault, c) h = λ q. cc

module _ {P : Type 0} (target : PackageType) (parser : ℕ → Bytes → P → Io P) (newest : Bool)
    (keeps : (n : ℕ) (buff : Bytes) (p q : P) (c c' : Client)
      → parser n buff p c ≡ (ok q, c')
      → pending c' ≡ pending c) where
  abbrev EndsBelow : ℕ → (Bytes → P → Io (Option P)) → Type 0
  EndsBelow m again =
      (buff : Bytes) (p : P) (c : Client) → pending c < m → (again buff p c).0 ≢ ok none

  done-ends :
      (m : ℕ) (again : Bytes → P → Io (Option P)) (buff : Bytes) (p : P) (c : Client)
      → EndsBelow m again
      → pending c < m
      → (package_done target parser newest again buff p c).0 ≢ ok none
  unfolding package_done
  done-ends m again buff p c h small = elim (Bool-cases newest) [
    | inr first ↦ rw (first, package_done) (λ q. cc)
    | inl last ↦
        rw (last, package_done)
          (after-ends _ (available c) λ n c' e. elim (Bool-cases (leb 3 n)) [
            | inl more ↦ rw more (h buff p c' (omega (arith, available-pending n c c' e)))
            | inr no_more ↦ rw no_more (λ q. cc)
          ])
  ]

  read-ends :
      (m : ℕ) (again : Bytes → P → Io (Option P)) (n type : ℕ) (buff : Bytes) (p : P) (c : Client)
      → EndsBelow m again
      → pending c < m
      → (package_read target parser newest again n type buff p c).0 ≢ ok none
  unfolding package_read
  read-ends m again n type buff p c h small = elim (Bool-cases (type_byte target == type)) [
    | inl same ↦ rw same (
        after-ends _ (parser n buff p c)
          λ q c' e. done-ends m again buff q c' h (omega (arith, keeps n buff p q c c' e)))
    | inr other ↦ rw other (h buff p c small)
  ]

  body-ends :
      (m : ℕ) (again : Bytes → P → Io (Option P)) (n type : ℕ) (buff : Bytes) (p : P) (c : Client)
      → EndsBelow m again
      → pending c < m
      → (package_body target parser newest again n type buff p c).0 ≢ ok none
  unfolding package_body
  body-ends m again n type buff p c h small = elim (Bool-cases (ltb n 3)) [
    | inl short ↦ rw short (λ q. cc)
    | inr whole ↦
        rw whole (after-ends _ (receive_socket buff (n - 3) 3 c) (λ r c' e. after_read r c' e))
  ]
    where
      after_read :
          (r : Option ℕ × Bytes) (c' : Client)
          → receive_socket buff (n - 3) 3 c ≡ (ok r, c')
          → (elim r.0 as (λ _. Io (Option P)) [
            | none ↦ return (some p)
            | some zero ↦ return (some p)
            | some (suc k) ↦ package_read target parser newest again n type r.1 p
          ]
              c').0
            ≢ ok none
      after_read (none, b) c' e = λ q. cc
      after_read (some zero, b) c' e = λ q. cc
      after_read (some (suc k), b) c' e =
          read-ends m again n type b p c' h
            (omega (arith, (receive_socket-pending buff (n - 3) 3 (suc k) b c c' e).1))

  head-ends :
      (m : ℕ) (again : Bytes → P → Io (Option P)) (buff : Bytes) (p : P) (c : Client)
      → EndsBelow m again
      → pending c < suc m
      → (package_head target parser newest again buff p c).0 ≢ ok none
  unfolding package_head
  head-ends m again buff p c h small =
      after-ends _ (receive_socket buff 3 0 c) (λ r c' e. after_read r c' e)
    where
      parsed :
          (k : ℕ) (b : Bytes) (c' : Client)
          → receive_socket buff 3 0 c ≡ (ok (some k, b), c')
          → (n type : ℕ) → (package_body target parser newest again n type b p c').0 ≢ ok none
      parsed k b c' e n type = body-ends m again n type b p c' h (
          omega (
            arith,
            (receive_socket-pending buff 3 0 k b c c' e).0,
            (receive_socket-pending buff 3 0 k b c c' e).1,
          ))

      after_read :
          (r : Option ℕ × Bytes) (c' : Client)
          → receive_socket buff 3 0 c ≡ (ok r, c')
          → (elim r.0 as (λ _. Io (Option P)) [
            | none ↦ return (some p)
            | some k ↦ lift (unpack w16 r.1) >>= λ n.
                lift (at r.1 2) >>= λ type. package_body target parser newest again n type r.1 p
          ]
              c').0
            ≢ ok none
      after_read (none, b) c' e = λ q. cc
      after_read (some k, b) c' e =
          after-ends _ (unpack w16 b, c')
            λ n c1 e1.
              after-ends _ (at b 2, c1)
                λ type c2 e2. let same : c2 ≡ c' = cc in rw same (parsed k b c' e n type)

  loop-ends : (fuel : ℕ) → EndsBelow fuel (receive_loop target parser newest fuel)
  unfolding receive_loop
  loop-ends zero buff p c h = elim h [ ]
  loop-ends (suc fuel) buff p c h =
      head-ends fuel (receive_loop target parser newest fuel) buff p c (loop-ends fuel) h

  -- Where the peer sends finitely many bytes, and then says nothing or breaks the connection, `receive`
  -- returns, throws or is undefined, and does not run out of the model's fuel, if its callback, where it
  -- succeeds, leaves the bytes that are to come as they are in number.
  pub receive_ends : (p : P) (c : Client) → (receive target parser newest p c).0 ≢ ok none
  unfolding receive
  receive_ends p c = loop-ends (suc (pending c)) _ p c (omega arith)
