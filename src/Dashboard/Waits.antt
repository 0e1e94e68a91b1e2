-- ===== src/Dashboard/Waits.antt =====
-- What the requests of the dashboard have read, and what its waits have seen.
use elite_robots_cs_sdk.Shared.{
  ℕ, zero, suc, ◌+◌, ◌≡◌, refl, sym, ap, ◌∙◌, [], ◌∷◌, Bytes, Bool, true, false, List, Option, none,
  some, Result, ok, throws, fault, if◌then◌else◌, arith,
}
use elite_robots_cs_sdk.Shared.Action.{followed, ◌>>=◌, return}
use elite_robots_cs_sdk.Dashboard.Regex.{Pattern, regex_match, regex_search, has_empty, rests}
use elite_robots_cs_sdk.Dashboard.{
  Dashboard, Act, send_taken, send_command, async_read_line, send_and_request, wait_loop, expect,
  found_or_throw, after_reply,
}

-- How far one state is behind another: as many replies have been read, and the socket is kept.
abbrev pub Behind : ℕ → Dashboard → Dashboard → Type 0
Behind n w v = (v.has_socket ≡ w.has_socket) × ((j : ℕ) → v.replies j ≡ w.replies (n + j))

-- The last reply that was read on the way from one state to another.
abbrev pub LastReply : Bytes → Dashboard → Dashboard → Type 0
LastReply response w v =
    (i : ℕ) × (w.replies i ≡ some response) × ((j : ℕ) → v.replies j ≡ w.replies (suc i + j))

send_command-Behind : (cmd : Bytes) (w : Dashboard) → Behind 0 w (send_command cmd w).1
unfolding send_command
send_command-Behind cmd w = by_writes w.writes
  where
    by_writes : (l : List (Option ℕ)) → Behind 0 w (send_taken l cmd w).1
    by_writes [] = (refl, λ j. ap w.replies (omega arith))
    by_writes (none ∷ later) = (refl, λ j. ap w.replies (omega arith))
    by_writes (some n ∷ later) = (refl, λ j. ap w.replies (omega arith))

-- What a request with a socket has read.
abbrev pub Reads : Dashboard → Option Pattern → Result Bytes × Dashboard → Type 0
Reads w expected (ok response, v) = Behind 1 w v × (expected ≡ none → w.replies 0 ≡ some response)
Reads w expected (throws e, v) = Unit {0}
Reads w expected (fault, v) = Unit {0}

expect-Reads :
    (w u : Dashboard) (expected : Option Pattern) (response : Bytes)
    → Behind 1 w u
    → w.replies 0 ≡ some response
    → Reads w expected (expect expected response u)
unfolding regex_search
expect-Reads w u none response b e = (b, λ _. e)
expect-Reads w u (some p) response b e = by_search (regex_search response p)
  where
    by_search : (o : Option Bytes) → Reads w (some p) (found_or_throw o u)
    by_search none = tt
    by_search (some found) = (b, λ f. absurd (cc))

line-Reads :
    (w u : Dashboard) (expected : Option Pattern)
    → Behind 0 w u
    → Reads w expected ((async_read_line >>= λ response. expect expected response) u)
unfolding async_read_line
line-Reads w u expected (s, r) = by_reply (u.replies 0) refl
  where
    behind : Behind 1 w (after_reply u)
    behind = (s, λ j. r (suc j) ∙ ap w.replies (omega arith))

    by_reply :
        (o : Option Bytes)
        → u.replies 0 ≡ o
        → Reads w expected ((async_read_line >>= λ response. expect expected response) u)
    by_reply none e = rw (e, async_read_line) tt
    by_reply (some response) e =
        rw (e, async_read_line)
          (expect-Reads w (after_reply u) expected response behind (sym (r 0) ∙ e))

sent-Reads :
    (w : Dashboard) (expected : Option Pattern) (r : Result (Unit {0}) × Dashboard)
    → Behind 0 w r.1
    → Reads w expected (followed (λ _. async_read_line >>= λ response. expect expected response) r)
sent-Reads w expected (ok u, v) b = line-Reads w v expected b
sent-Reads w expected (throws e, v) b = tt
sent-Reads w expected (fault, v) b = tt

pub request-Reads :
    (cmd : Bytes) (expected : Option Pattern) (w : Dashboard)
    → w.has_socket ≡ true
    → Reads w expected (send_and_request cmd expected w)
unfolding send_and_request
request-Reads cmd expected w e =
    if-Reads w.has_socket _ _ e
      (sent-Reads w expected (send_command cmd w) (send_command-Behind cmd w))
  where
    if-Reads :
        (b : Bool) (x y : Result Bytes × Dashboard)
        → b ≡ true
        → Reads w expected x
        → Reads w expected (if b then x else y)
    if-Reads b x y e h = rw e h

-- A wait that returns true has read a line that matches, and nothing after it.
abbrev pub Waits : Pattern → Dashboard → Result Bool × Dashboard → Type 0
Waits p w (ok true, v) =
    (i : ℕ) × (response : Bytes) × (w.replies i ≡ some response)
    × (regex_match response p ≡ true)
    × (v.has_socket ≡ true)
    × ((j : ℕ) → v.replies j ≡ w.replies (suc i + j))
Waits p w (ok false, v) = Unit {0}
Waits p w (throws e, v) = Unit {0}
Waits p w (fault, v) = Unit {0}

Waits-later :
    (p : Pattern) (w v : Dashboard) (r : Result Bool × Dashboard)
    → Behind 1 w v
    → Waits p v r
    → Waits p w r
Waits-later p w v (ok true, x) (s, b) (i, response, e, m, h, c) = (
  suc i,
  response,
  ap w.replies (omega arith) ∙ sym (b i) ∙ e,
  m,
  h,
  λ j. c j ∙ b (suc i + j) ∙ ap w.replies (omega arith),
)
Waits-later p w v (ok false, x) b h = tt
Waits-later p w v (throws e, x) b h = tt
Waits-later p w v (fault, x) b h = tt

pub wait_loop-Waits :
    (n : ℕ) (cmd : Bytes) (p : Pattern) (w : Dashboard)
    → w.has_socket ≡ true
    → Waits p w (wait_loop n cmd p w)
unfolding wait_loop
wait_loop-Waits zero cmd p w e = tt
wait_loop-Waits (suc n) cmd p w e =
    round (wait_loop-Waits n cmd p) (send_and_request cmd none w) (request-Reads cmd none w e)
  where
    round :
        ((v : Dashboard) → v.has_socket ≡ true → Waits p v (wait_loop n cmd p v))
        → (r : Result Bytes × Dashboard) → Reads w none r
        → Waits p w (
            followed
              (λ response. elim (regex_match response p) as (λ _. Act Bool) [
                | true ↦ return true
                | false ↦ wait_loop n cmd p
              ])
              r)
    round later (ok response, v) (b, first) = by_match (regex_match response p) refl
      where
        by_match :
            (m : Bool)
            → regex_match response p ≡ m
            → Waits p w
                (elim m as (λ _. Act Bool) [ true ↦ return true | false ↦ wait_loop n cmd p ] v)
        by_match true m = (0, response, first refl, m, b.0 ∙ e, b.1)
        by_match false m = Waits-later p w v _ b (later v (b.0 ∙ e))
    round later (throws c, v) b = tt
    round later (fault, v) b = tt

if-false : {A : Type 0} (b : Bool) (x y : A) → b ≡ false → (if b then x else y) ≡ y
if-false b x y e = rw e

pub request-closed :
    (cmd : Bytes) (expected : Option Pattern) (w : Dashboard)
    → w.has_socket ≡ false
    → send_and_request cmd expected w ≡ (ok [], w)
unfolding send_and_request
request-closed cmd expected w e = if-false w.has_socket _ _ e

-- Without a socket every answer is the empty text.
pub wait_loop-closed :
    (n : ℕ) (cmd : Bytes) (p : Pattern) (w : Dashboard)
    → w.has_socket ≡ false
    → has_empty (rests p []) ≡ false
    → wait_loop n cmd p w ≡ (ok false, w)
unfolding wait_loop send_and_request
wait_loop-closed zero cmd p w e f = refl
wait_loop-closed (suc n) cmd p w e f =
    rw (request-closed cmd none w e)
      (unmatched (has_empty (rests p [])) f (wait_loop-closed n cmd p w e f))
  where
    unmatched :
        (m : Bool)
        → m ≡ false
        → wait_loop n cmd p w ≡ (ok false, w)
        → (elim m as (λ _. Act Bool) [ true ↦ return true | false ↦ wait_loop n cmd p ]) w
          ≡ (ok false, w)
    unmatched m f later = rw f later
