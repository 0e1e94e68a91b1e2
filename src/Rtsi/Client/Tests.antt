-- ===== src/Rtsi/Client/Tests.antt =====
-- Properties of the client at concrete packages.
use elite_robots_cs_sdk.Shared.{
  ℕ, ◌<◌, ◌≡◌, ◌≢◌, refl, List, [], ◌∷◌, ◌++◌, Bytes, true, false, none, some, ok, throws, fault,
  length, arith, All, socket_fail,
}
use elite_robots_cs_sdk.Rtsi.Client.Monad.{
  silent, Socket, disconnected, connected, started, idle, will_connect, Client, Io, ◌>>=◌, return,
  run_context, socket_disconnect,
}
use elite_robots_cs_sdk.Rtsi.Client.Receive.{
  PackageType, type_byte, text_message, control_package_start, receive, pending, send_all,
  receive_loop, package_head, receive_socket,
}
use elite_robots_cs_sdk.Rtsi.Client.Skip.{Package, sent_as, stream, receive-stream}
use elite_robots_cs_sdk.Rtsi.Client.Ends.{receive_ends}
use elite_robots_cs_sdk.Rtsi.Client.Requests.{connect, disconnect, accepted, refused, start}
use elite_robots_cs_sdk.Rtsi.Client.Calls.{Call, connects, starts, call, calls, calls-IsTracked}
use elite_robots_cs_sdk.Rtsi.Client.Answers.{Answered, asked, start_answered}

abbrev hello : Package
hello = record { cmd = text_message; head = 2; tail = 104 ∷ 105 ∷ [] }

abbrev yes_to : PackageType → Package
yes_to cmd = record { cmd = cmd; head = 1; tail = [] }

abbrev open_socket : Bytes → Socket
open_socket incoming = record {
  incoming = incoming;
  ending = silent;
  polls = [];
  writes = [];
  sent = [];
}

abbrev open_client : Bytes → Client
open_client incoming = record {
  socket = some (open_socket incoming);
  connection_state = connected;
  stopped = true;
  late = idle;
}

abbrev coming : PackageType → Bytes
coming cmd = stream (hello ∷ []) (sent_as (yes_to cmd) ++ (7 ∷ []))

-- A callback that takes the length of the package.
abbrev length_parser : ℕ → Bytes → ℕ → Io ℕ
length_parser n m p = return n

start-differs :
    All
      (λ o. (length o.tail < 65532) × (type_byte control_package_start ≢ type_byte o.cmd))
      (hello ∷ [])
start-differs = ((omega arith, omega arith), tt)

receive-stream_example :
    (junk : Bytes) × (receive control_package_start length_parser false 0
        (open_client (coming control_package_start))
      ≡ (length_parser 4 (sent_as (yes_to control_package_start) ++ junk) 0 >>= λ p.
            return (some p))
          (record (open_client (coming control_package_start)) {
            socket =
                some (record (open_socket (coming control_package_start)) { incoming = 7 ∷ [] });
          }))
receive-stream_example =
    receive-stream control_package_start length_parser (hello ∷ []) (yes_to control_package_start)
      (7 ∷ []) 0 (open_client (coming control_package_start))
      (open_socket (coming control_package_start)) start-differs (omega arith) refl refl refl
      (refl, refl)

length_parser-keeps :
    (n : ℕ) (buff : Bytes) (p q : ℕ) (c c' : Client)
    → length_parser n buff p c ≡ (ok q, c')
    → pending c' ≡ pending c
length_parser-keeps n buff p q c c' e = ground arith

receive_ends_example :
    (receive control_package_start length_parser true 0 (open_client (0 ∷ 4 ∷ 83 ∷ 1 ∷ 0 ∷ []))).0
    ≢ ok none
receive_ends_example =
    receive_ends control_package_start length_parser true length_parser-keeps 0
      (open_client (0 ∷ 4 ∷ 83 ∷ 1 ∷ 0 ∷ []))

abbrev new_client : Client
new_client = record { socket = none; connection_state = disconnected; stopped = false; late = idle }

abbrev session : List Call
session = connects (accepted (open_socket [])) ∷ starts ∷ []

-- The controller does not answer: the cancelled read throws, and the client has given its socket up.
session_closes : (calls session new_client).socket ≡ none
unfolding calls call start connect send_all receive receive_loop package_head receive_socket
    run_context socket_disconnect
session_closes = refl

silent_start : (start (open_client [])).0 ≡ throws socket_fail
unfolding start send_all receive receive_loop package_head receive_socket run_context
silent_start = refl

-- A second connect: `run` returns at once, and the handler runs with the first read.
second_connect :
    (connect (accepted (open_socket [])) (disconnect (open_client [])).1).1
    ≡ record new_client { socket = some (open_socket []); stopped = true; late = will_connect }
unfolding connect disconnect socket_disconnect
second_connect = refl

-- Where that connection fails, the handler prints the port, which is gone.
second_connect_fails :
    (start (connect (refused (open_socket [])) (disconnect (open_client [])).1).1).0 ≡ fault
unfolding connect disconnect socket_disconnect start send_all receive receive_loop package_head
    receive_socket run_context
second_connect_fails = refl

calls-IsTracked_example : (calls session new_client).connection_state ≡ disconnected
calls-IsTracked_example = calls-IsTracked session new_client (λ e. refl) session_closes

abbrev answer :
    (cmd : PackageType)
    → type_byte cmd ≢ type_byte text_message
    → Answered cmd
        (hello ∷ [])
        (yes_to cmd)
        (7 ∷ [])
        (open_client (coming cmd))
        (open_socket (coming cmd))
answer cmd differs = record {
  skipped = ((omega arith, differs), tt);
  short = omega arith;
  same_type = refl;
  opened = refl;
  incoming = refl;
  writable = refl;
  settled = (refl, refl);
}

start_answered_example : start (open_client (coming control_package_start)) ≡ (
  ok true,
  record (asked
      (open_client (coming control_package_start))
      (open_socket (coming control_package_start))
      (0 ∷ 3 ∷ 83 ∷ [])
      (7 ∷ [])) { connection_state = started },
)
start_answered_example =
    start_answered (hello ∷ []) (yes_to control_package_start) (7 ∷ [])
      (open_client (coming control_package_start)) (open_socket (coming control_package_start))
      (answer control_package_start (omega arith))
