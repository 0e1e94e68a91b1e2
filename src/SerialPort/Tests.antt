-- ===== src/SerialPort/Tests.antt =====
-- Tests of the serial port.
use elite_robots_cs_sdk.Shared.{
  ◌≡◌, refl, [], Bytes, true, false, none, ok, fault, ℤ, pos, negsuc, codes, arith, some, ltb_ℤ,
  length, ◌<◌, ◌⊎◌,
}
use elite_robots_cs_sdk.SerialPort.{
  SerialPort, late, connect_serial, disconnect_serial, is_serial_connected, write_serial,
  read_serial, read_timed, read_blocking,
}
use elite_robots_cs_sdk.SerialPort.Reads.{Counts, read_serial-Counts}

abbrev line : SerialPort
line = record { is_open = true; incoming = codes "abcdef"; sent = []; pending = false; ends = true }

read_serial-Counts_example :
    ((ltb_ℤ (pos 0) (pos 100) ≡ false)
      × ((length line.incoming < 4) × (line.ends ≡ false))
      × (read_serial 4 (pos 100) 3 line ≡ (ok none, line)))
    ⊎ ((r : ℤ) × (data_bytes : Bytes) × (t : SerialPort) × (read_serial 4 (pos 100) 3 line
          ≡ (ok (some (r, data_bytes)), t))
        × Counts 4 line r data_bytes t)
read_serial-Counts_example = read_serial-Counts 4 3 (pos 100) line refl refl (omega arith)

-- Three bytes have come when the time runs out: the result is 0, and they are gone.
late_bytes :
    read_serial 4 (pos 100) 3 line
    ≡ (ok (some (pos 0, codes "abc")), record line { incoming = codes "def"; pending = true })
unfolding read_serial read_timed
late_bytes = refl

-- The next read with a timeout runs the handler of the first, whose variables are gone.
then_undefined :
    (read_serial 4 (pos 100) 3 (record line { incoming = codes "def"; pending = true })).0 ≡ fault
unfolding read_serial read_timed
then_undefined = refl

whole_line :
    read_serial 4 (negsuc 0) 0 line
    ≡ (ok (some (pos 4, codes "abcd")), record line { incoming = codes "ef" })
unfolding read_serial read_blocking
whole_line = refl

ended_line : (read_serial 9 (pos 100) 7 line).0 ≡ ok (some (pos 6, codes "abcdef"))
unfolding read_serial read_timed
ended_line = refl

-- A robot that says nothing more: a read without a timeout does not return.
silent_line :
    read_serial 9 (pos 0) 0 (record line { ends = false }) ≡ (ok none, record line { ends = false })
unfolding read_serial read_blocking
silent_line = refl

-- A connect that has failed leaves an open socket.
failed_connect :
    is_serial_connected (connect_serial (late [] false) (disconnect_serial line)).1 ≡ true
unfolding is_serial_connected connect_serial disconnect_serial
failed_connect = refl

written : (write_serial none (codes "xy") line).0 ≡ pos 2
unfolding write_serial
written = refl

not_written : (write_serial none (codes "xy") (disconnect_serial line)).0 ≡ negsuc 0
unfolding write_serial disconnect_serial
not_written = refl
