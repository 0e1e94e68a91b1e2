-- ===== src/Rtsi/Client/Skip.antt =====
-- `receive` passes over the packages of other types, and hands the first of the target's type to the
-- callback.
use elite_robots_cs_sdk.Shared.{
  ℕ, zero, suc, ◌+◌, ◌/◌, ◌%◌, ◌≤◌, ◌<◌, ◌≡◌, ◌≢◌, refl, ap, ◌∙◌, List, [], ◌∷◌, ◌++◌, Bytes, Bool,
  false, Option, some, ◌==◌, length, replicate, arith, length-append, All, ==_refl,
}
use elite_robots_cs_sdk.Rtsi.Client.Monad.{Socket, Client, Io, IsSettled, ◌>>=◌, return}
use elite_robots_cs_sdk.Rtsi.Client.Receive.{
  PackageType, type_byte, frame, package_read, package_done, receive_loop, receive, pending,
}
use elite_robots_cs_sdk.Rtsi.Client.Rounds.{left, round-package}

-- A package with a body: its type, the first byte of the body, and the others.
pub record Package : Type 0 where
  pub cmd : PackageType
  pub head : ℕ
  pub tail : Bytes

abbrev pub sent_as : Package → Bytes
sent_as q = frame q.cmd (q.head ∷ q.tail)

-- Packages one behind the other, and what comes after them.
unfoldable pub stream : List Package → Bytes → Bytes
stream [] rest = rest
stream (q ∷ qs) rest = sent_as q ++ stream qs rest

-- The length of the package fits its two bytes.
abbrev pub IsCarried : Package → Type 0
IsCarried q = length q.tail < 65532

frame-bytes :
    (q : Package)
    → IsCarried q
    → frame q.cmd (q.head ∷ q.tail)
      ≡ ((4 + length q.tail) / 256)
        ∷ ((4 + length q.tail) % 256)
        ∷ type_byte q.cmd
        ∷ q.head
        ∷ q.tail
unfolding frame
frame-bytes q h =
    let total : (3 + suc (length q.tail)) % 65536 ≡ 4 + length q.tail = omega arith in rw total

module _ {P : Type 0} (target : PackageType) (parser : ℕ → Bytes → P → Io P) where
  -- One round on a package, as it was sent.
  round-sent :
      (newest : Bool) (fuel : ℕ) (q : Package) (rest buff : Bytes) (p : P) (c : Client) (s : Socket)
      → IsCarried q
      → c.socket ≡ some s
      → s.incoming ≡ sent_as q ++ rest
      → IsSettled c
      → (junk : Bytes) × (receive_loop target parser newest (suc fuel) buff p c
          ≡ package_read target parser newest
              (receive_loop target parser newest fuel)
              (4 + length q.tail)
              (type_byte q.cmd)
              (sent_as q ++ junk)
              p
              (left c s rest))
  round-sent newest fuel q rest buff p c s small e f settled =
      let n = 4 + length q.tail in
      let (junk, run) =
        round-package target parser newest fuel (n / 256) (n % 256) (type_byte q.cmd) q.head q.tail
          rest buff p c s e (f ∙ ap (λ t. t ++ rest) (frame-bytes q small)) (omega arith) settled in
      (junk, rw (frame-bytes q small) run)

  read_target :
      (q : Package) (again : Bytes → P → Io (Option P)) (n : ℕ) (buff : Bytes) (p : P) (c : Client)
      → q.cmd ≡ target
      → package_read target parser false again n (type_byte q.cmd) buff p c
        ≡ (parser n buff p >>= λ p'. return (some p')) c
  unfolding package_read package_done
  read_target q again n buff p c t = rw (t, ==_refl)

  read_other :
      (newest : Bool) (o : Package) (again : Bytes → P → Io (Option P)) (n : ℕ) (buff : Bytes)
      (p : P) (c : Client)
      → type_byte target ≢ type_byte o.cmd
      → package_read target parser newest again n (type_byte o.cmd) buff p c ≡ again buff p c
  unfolding package_read
  read_other newest o again n buff p c differs =
      let skipped : (type_byte target == type_byte o.cmd) ≡ false = ground arith in rw skipped

  skip-others :
      (others : List Package) (q : Package) (rest buff : Bytes) (fuel : ℕ) (p : P) (c : Client)
      (s : Socket)
      → All (λ o. IsCarried o × (type_byte target ≢ type_byte o.cmd)) others
      → IsCarried q
      → q.cmd ≡ target
      → length others < fuel
      → c.socket ≡ some s
      → s.incoming ≡ stream others (sent_as q ++ rest)
      → IsSettled c
      → (junk : Bytes) × (receive_loop target parser false fuel buff p c
          ≡ (parser (4 + length q.tail) (sent_as q ++ junk) p >>= λ p'. return (some p'))
              (left c s rest))
  unfolding stream
  skip-others others q rest buff zero p c s h small t room e f settled = elim room [ ]
  skip-others [] q rest buff (suc fuel) p c s h small t room e f settled =
      let (junk, run) = round-sent false fuel q rest buff p c s small e f settled in
      (junk, run ∙ read_target q (receive_loop target parser false fuel) _ _ p (left c s rest) t)
  skip-others (o ∷ others) q rest buff (suc fuel) p c s ((fits, differs), h) small t room e f
        settled =
      let (junk, run) =
        round-sent false fuel o (stream others (sent_as q ++ rest)) buff p c s fits e f settled in
      let (junk', run') =
        skip-others others q rest (sent_as o ++ junk) fuel p
          (left c s (stream others (sent_as q ++ rest)))
          (record s { incoming = stream others (sent_as q ++ rest) }) h small t (omega arith) refl
          refl settled in
      (
        junk',
        run ∙ read_other false o (receive_loop target parser false fuel) _ _ p _ differs ∙ run',
      )

length-stream : (qs : List Package) (rest : Bytes) → length qs ≤ length (stream qs rest)
unfolding stream frame
length-stream [] rest = omega arith
length-stream (q ∷ qs) rest =
    omega (arith, length-append (sent_as q) (stream qs rest), length-stream qs rest)

-- `receive`, where no handler of an earlier call is left to run, when packages of other types come
-- first and then one of the target's type: the callback
-- is called once, with the length of that package and a buffer that begins with it. What follows the
-- package stays in the socket.
pub receive-stream :
    {P : Type 0} (target : PackageType) (parser : ℕ → Bytes → P → Io P) (others : List Package)
    (q : Package) (rest : Bytes) (p : P) (c : Client) (s : Socket)
    → All (λ o. (length o.tail < 65532) × (type_byte target ≢ type_byte o.cmd)) others
    → length q.tail < 65532
    → q.cmd ≡ target
    → c.socket ≡ some s
    → s.incoming ≡ stream others (sent_as q ++ rest)
    → IsSettled c
    → (junk : Bytes) × (receive target parser false p c
        ≡ (parser (4 + length q.tail) (sent_as q ++ junk) p >>= λ p'. return (some p'))
            (record c { socket = some (record s { incoming = rest }) }))
unfolding receive
receive-stream target parser others q rest p c s h small t e f settled =
    let room : pending c ≡ length (stream others (sent_as q ++ rest)) = rw (e, f) in
    skip-others target parser others q rest (replicate 4069 0) (suc (pending c)) p c s h small t
      (omega (arith, length-stream others (sent_as q ++ rest))) e f settled
