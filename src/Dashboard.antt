-- ===== src/Dashboard.antt =====
-- DashboardClient (source/Dashboard/DashboardClient.cpp): the connection, and how a command is sent and
-- its answer read.
pub mod Regex
pub mod Commands
pub mod Status
pub mod Tasks
pub mod Matches
pub mod Waits
pub mod Seen
pub mod Escapes
pub mod Logging
pub mod Names
mod Tests
use elite_robots_cs_sdk.Shared.{
  ℕ, zero, suc, [], ◌∷◌, ◌++◌, Bytes, Bool, true, false, not, List, Option, none, some, Result, ok,
  throws, fault, if◌then◌else◌, take, bytes_eq, codes, socket_connect_fail, socket_fail,
  dashboard_not_expect_recive,
}
use elite_robots_cs_sdk.Shared.Action.{Action, ◌>>=◌, ◌>>◌, return, throw, update}
use elite_robots_cs_sdk.Dashboard.Regex.{Pattern, regex_match, regex_search}

-- Whether a socket is there; how many bytes each `send` takes (`none` for an error; behind the end all);
-- what was sent; what each read until a newline gives, with what came in behind the newline
-- (`none` for an error); and how many rounds the clock gives a wait.
pub record Dashboard : Type 0 where
  pub has_socket : Bool
  pub writes : List (Option ℕ)
  pub sent : Bytes
  pub replies : ℕ → Option Bytes
  pub rounds : ℕ

abbrev pub Act : Type 0 → Type 0
Act A = Action Dashboard A

abbrev pub send_taken : List (Option ℕ) → Bytes → Act (Unit {0})
send_taken [] cmd w = (ok tt, record w { sent = w.sent ++ cmd })
send_taken (none ∷ later) cmd w = (throws socket_fail, record w { writes = later })
send_taken (some n ∷ later) cmd w =
    (ok tt, record w { writes = later; sent = w.sent ++ take n cmd })

unfoldable pub send_command : Bytes → Act (Unit {0})
send_command cmd w = send_taken w.writes cmd w

abbrev pub after_reply : Dashboard → Dashboard
after_reply w = record w { replies = λ n. w.replies (suc n) }

-- `asyncReadLine`: it goes round until the read is done, whatever the timeout.
unfoldable pub async_read_line : Act Bytes
async_read_line w = elim (w.replies 0) [
  | none ↦ (throws socket_fail, after_reply w)
  | some line ↦ (ok line, after_reply w)
]

-- How an attempt to connect goes.
pub data Attempt : Type 0 where
  accepted refused raised : Attempt

abbrev attempted : Attempt → Act Bool
attempted accepted = return true
attempted refused = return false
attempted raised = throw socket_connect_fail

-- `connect` reads the greeting also where the connection was refused.
unfoldable pub connect_dashboard : Attempt → Act Bool
unfolding async_read_line
connect_dashboard a = update (λ w. record w { has_socket = true }) >>= λ _.
    attempted a >>= λ result. async_read_line >> return result

unfoldable pub disconnect_dashboard : Act (Unit {0})
disconnect_dashboard = update λ w. record w { has_socket = false }

abbrev ends_line : Bytes → Bool
ends_line [] = false
ends_line (c ∷ []) = bytes_eq (c ∷ []) (10 ∷ [])
ends_line (c ∷ d ∷ cs) = ends_line (d ∷ cs)

-- `sendAndReceive`; `back()` of an empty text is undefined, and so is a null socket.
unfoldable pub send_and_receive : Bytes → Act Bytes
unfolding send_command async_read_line
send_and_receive [] w = (fault, w)
send_and_receive (c ∷ cmd) w =
    if w.has_socket
    then (send_command (if ends_line (c ∷ cmd) then c ∷ cmd else (c ∷ cmd) ++ (10 ∷ []))
          >> async_read_line)
        w
    else (fault, w)

abbrev pub found_or_throw : Option Bytes → Act Bytes
found_or_throw none = throw dashboard_not_expect_recive
found_or_throw (some found) = return found

-- The part of an answer that is expected, or all of it.
abbrev pub expect : Option Pattern → Bytes → Act Bytes
expect none response = return response
expect (some p) response = found_or_throw (regex_search response p)

-- `sendAndRequest`.
unfoldable pub send_and_request : Bytes → Option Pattern → Act Bytes
unfolding send_command async_read_line
send_and_request cmd expected w =
    if w.has_socket
    then (send_command cmd >>= λ _. async_read_line >>= λ response. expect expected response) w
    else (ok [], w)

-- The loop of `waitForReply`, with the rounds that are left.
unfoldable pub wait_loop : ℕ → Bytes → Pattern → Act Bool
unfolding send_and_request regex_match
wait_loop zero cmd expected = return false
wait_loop (suc n) cmd expected = send_and_request cmd none >>= λ response.
    elim (regex_match response expected) [ true ↦ return true | false ↦ wait_loop n cmd expected ]

unfoldable pub wait_for_reply : Bytes → Pattern → Act Bool
unfolding wait_loop
wait_for_reply cmd expected w = wait_loop w.rounds cmd expected w

-- `empty()` of an answer.
abbrev pub is_answer : Bytes → Bool
is_answer [] = false
is_answer response = true
