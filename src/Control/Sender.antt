-- ===== src/Control/Sender.antt =====
-- ScriptSender (source/Control/ScriptSender.cpp): it hands out the control script to a robot that asks for it.
pub mod Chunks
mod Tests
use elite_robots_cs_sdk.Shared.{
  ℕ, [], ◌∷◌, ◌++◌, Bytes, Bool, true, false, List, Option, none, some, if◌then◌else◌, ◌==◌, take,
  bytes_eq, codes,
}

-- A connection: the bytes of `recv_request_buffer_` since the last newline, how many bytes each
-- `write_some` takes (`none` for an error; behind the end all), what was written, and whether the
-- next request is waited for.
pub record Sender : Type 0 where
  pub recv_request_buffer : Bytes
  pub writes : List (Option ℕ)
  pub sent : Bytes
  pub listening : Bool

abbrev pub write_taken : List (Option ℕ) → Bytes → Sender → Sender
write_taken [] program s = record s { sent = s.sent ++ program }
write_taken (none ∷ later) program s = record s { writes = later; listening = false }
write_taken (some n ∷ later) program s = record s {
  writes = later;
  sent = s.sent ++ take n program;
}

-- The handler of `responseRequest` for a line. After an error of the write it reads no more.
unfoldable pub response_request : Bytes → Bytes → Sender → Sender
response_request program request s =
    if bytes_eq request (codes "request_program") then write_taken s.writes program s else s

-- A byte that comes in: a newline completes the line that `getline` takes.
unfoldable pub take_byte : Bytes → ℕ → Sender → Sender
unfolding response_request
take_byte program b s =
    if s.listening
    then (if b == 10
        then response_request program s.recv_request_buffer (record s { recv_request_buffer = [] })
        else record s { recv_request_buffer = s.recv_request_buffer ++ (b ∷ []) })
    else s

-- The bytes of a chunk.
unfoldable pub receive_chunk : Bytes → Bytes → Sender → Sender
unfolding take_byte
receive_chunk program [] s = s
receive_chunk program (b ∷ bs) s = receive_chunk program bs (take_byte program b s)
