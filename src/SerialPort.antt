-- ===== src/SerialPort.antt =====
-- SerialCommunicationImpl (source/Elite/SerialCommunicationImpl.cpp): the TCP connection to a serial port of the robot.
-- What Boost.Asio does is an argument of each call.
pub mod Reads
mod Tests
use elite_robots_cs_sdk.Shared.{
  ℕ, ◌%◌, ◌^◌, [], ◌++◌, Bytes, Bool, true, false, not, ◌&&◌, Option, none, some, Result, ok, fault,
  if◌then◌else◌, ltb, leb, length, take, drop, ℤ, pos, negsuc, signed, ltb_ℤ,
}
use elite_robots_cs_sdk.Shared.Action.{Action}

-- Whether the socket is open; the bytes that the robot will have sent and that have not been taken;
-- whether it then ends the connection, or says nothing more; what was written; and whether a read whose time has run out is still
-- to be completed: its handler refers to variables of a call that has returned.
pub record SerialPort : Type 0 where
  pub is_open : Bool
  pub incoming : Bytes
  pub ends : Bool
  pub sent : Bytes
  pub pending : Bool

abbrev pub Act : Type 0 → Type 0
Act A = Action SerialPort A

-- How a connect goes: `open` throws; an option or the address throws, where the socket is open; the
-- connection is refused, or does not come in time; or it is there. The robot then sends bytes, and
-- may end the connection.
pub data Attempt : Type 0 where
  open_fails option_fails refused : Attempt
  late connects : Bytes → Bool → Attempt

unfoldable pub disconnect_serial : SerialPort → SerialPort
disconnect_serial s = record s { is_open = false; incoming = [] }

abbrev pub opened : Bytes → Bool → SerialPort → SerialPort
opened bytes ends s = record s { is_open = true; incoming = bytes; ends = ends }

-- A read that is to be completed has been cancelled, and its handler runs with the context.
abbrev pub attempted : Attempt → Act Bool
attempted open_fails s = (ok false, s)
attempted option_fails s = (ok false, opened [] true s)
attempted refused s = if s.pending then (fault, s) else (ok false, opened [] true s)
attempted (late bytes ends) s = if s.pending then (fault, s) else (ok false, opened bytes ends s)
attempted (connects bytes ends) s = if s.pending then (fault, s) else (ok true, opened bytes ends s)

unfoldable pub connect_serial : Attempt → Act Bool
unfolding disconnect_serial
connect_serial attempt s = attempted attempt (disconnect_serial s)

unfoldable pub is_serial_connected : SerialPort → Bool
is_serial_connected s = if s.is_open then true else false

-- A size as an `int`.
abbrev pub as_int : ℕ → ℤ
as_int n = signed 32 (n % 2 ^ 32)

-- `boost::asio::write`: all bytes, or an error behind some of them.
unfoldable pub write_serial : Option ℕ → Bytes → SerialPort → ℤ × SerialPort
write_serial outcome bytes s =
    if s.is_open
    then (elim outcome [
      | none ↦ (as_int (length bytes), record s { sent = s.sent ++ bytes })
      | some n ↦ (negsuc 0, record s { sent = s.sent ++ take n bytes })
    ])
    else (negsuc 0, s)

-- What is returned for a number of bytes, with or without an error.
abbrev pub reported : Bool → ℕ → ℤ
reported error n = if error && not (ltb_ℤ (pos 0) (as_int n)) then negsuc 0 else as_int n

-- The result of a read and the bytes that are in the buffer, or `none` where it does not return.
abbrev pub Read : Type 0
Read = Option (ℤ × Bytes)

-- The read without a timeout goes on until it has all bytes or the connection ends, and for ever where
-- neither comes.
unfoldable pub read_blocking : ℕ → Act Read
read_blocking size s =
    let got = take size s.incoming in
    if ltb (length got) size && not s.ends then (ok none, s) else (
      ok (some (reported (ltb (length got) size) (length got), got)),
      record s { incoming = drop size s.incoming },
    )

-- The read with a timeout. `arrived` says how many bytes come in time; more than there are stands for an
-- end of the connection in time. A read that is still to be completed would take the bytes first.
unfoldable pub read_timed : ℕ → ℕ → Act Read
read_timed size arrived s =
    let there = take arrived s.incoming in
    if s.pending && ltb 0 arrived
    then (fault, s)
    else (if leb size (length there)
        then (
          ok (some (as_int size, take size s.incoming)),
          record s { incoming = drop size s.incoming },
        )
        else (if s.ends && ltb (length s.incoming) arrived
            then (
              ok (some (reported true (length there), there)),
              record s { incoming = drop arrived s.incoming },
            )
            else (
              ok (some (pos 0, there)),
              record s { incoming = drop arrived s.incoming; pending = true },
            )))

unfoldable pub read_serial : ℕ → ℤ → ℕ → Act Read
unfolding read_blocking read_timed
read_serial size timeout_ms arrived s =
    if s.is_open
    then (if ltb_ℤ (pos 0) timeout_ms then read_timed size arrived s else read_blocking size s)
    else (ok (some (negsuc 0, [])), s)
