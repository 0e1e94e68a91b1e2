-- ===== src/Rtsi/Client/Receive.antt =====
-- `sendAll`, `receiveSocket` and `receive`.
use elite_robots_cs_sdk.Shared.{
  ℕ, zero, suc, ◌+◌, ◌-◌, ◌/◌, ◌%◌, [], ◌∷◌, ◌++◌, Bytes, Bool, true, false, Option, none, some,
  throws, fault, leb, ltb, ◌==◌, if◌then◌else◌, length, take, drop, replicate, socket_fail,
}
use elite_robots_cs_sdk.Endian.{at, w16, unpack}
use elite_robots_cs_sdk.Rtsi.Client.Monad.{
  silent, broken, Socket, Client, Io, ◌>>=◌, ◌>>◌, return, lift, socket_disconnect, with_socket,
  put_socket, run_context,
}

-- PackageType.
pub data PackageType : Type 0 where
  request_protocol_version get_elite_control_version text_message data_package : PackageType
  control_package_setup_outputs control_package_setup_inputs : PackageType
  control_package_start control_package_pause : PackageType

abbrev pub type_byte : PackageType → ℕ
type_byte request_protocol_version = 86
type_byte get_elite_control_version = 118
type_byte text_message = 77
type_byte data_package = 85
type_byte control_package_setup_outputs = 79
type_byte control_package_setup_inputs = 73
type_byte control_package_start = 83
type_byte control_package_pause = 80

abbrev pub header_size : ℕ
header_size = 3

-- The message of `sendAll`: `message_len` is a uint16_t.
unfoldable pub frame : PackageType → Bytes → Bytes
frame cmd payload =
    let message_len = (header_size + length payload) % 65536 in
    (message_len / 256) ∷ (message_len % 256) ∷ type_byte cmd ∷ payload

-- `write_some`: the bytes that are taken, or an error.
abbrev pub write_some : Bytes → Socket → Option Socket
write_some message s = elim s.writes [
  | [] ↦ some (record s { sent = s.sent ++ message })
  | none ∷ later ↦ none
  | some n ∷ later ↦ some (record s { sent = s.sent ++ take n message; writes = later })
]

-- `sendAll`. The count that `write_some` returns is not looked at.
unfoldable pub send_all : PackageType → Bytes → Io (Unit {0})
send_all cmd payload = with_socket λ s. elim (write_some (frame cmd payload) s) [
  | none ↦ lift (throws socket_fail)
  | some s' ↦ put_socket s'
]

abbrev pub resize : ℕ → Bytes → Bytes
resize n buff = buff ++ replicate (n - length buff) 0

-- `async_read` into `buff.data() + offset`.
abbrev pub fill : Bytes → ℕ → Bytes → Bytes
fill buff offset bytes = take offset buff ++ (bytes ++ drop (offset + length bytes) buff)

-- `receiveSocket`: the count, with `none` for -1, and the buffer. The read is complete, fails, or
-- times out. A timeout disconnects and runs the handler of the cancelled read, which throws, so that
-- the -1 behind it is not reached.
unfoldable pub receive_socket : Bytes → ℕ → ℕ → Io (Option ℕ × Bytes)
unfolding socket_disconnect run_context
receive_socket buff size offset = with_socket λ s.
    run_context
    >> (if leb size (length s.incoming)
        then put_socket (record s { incoming = drop size s.incoming })
          >> return (some size, fill (resize (size + offset) buff) offset (take size s.incoming))
        else elim s.ending [
          | silent ↦ socket_disconnect >> lift (throws socket_fail)
          | broken ↦ put_socket (record s { incoming = [] }) >> lift (throws socket_fail)
        ])

-- `socket_ptr_->available()`.
unfoldable pub available : Io ℕ
available = with_socket λ s. elim s.polls [
  | [] ↦ return 0
  | n ∷ later ↦ put_socket (record s { polls = later }) >> return n
]

-- The bytes that are still to come.
abbrev pub pending : Client → ℕ
pending c = elim c.socket [ none ↦ 0 | some s ↦ length s.incoming ]

module _ {P : Type 0} (target : PackageType) (parser : ℕ → Bytes → P → Io P) (newest : Bool) where
  -- After a whole package. `again` goes round the loop.
  unfoldable pub package_done : (Bytes → P → Io (Option P)) → Bytes → P → Io (Option P)
  unfolding available
  package_done again buff p = elim newest [
    | false ↦ return (some p)
    | true ↦ available >>= λ n. elim (leb header_size n) [
      | true ↦ again buff p
      | false ↦ return (some p)
    ]
  ]

  unfoldable pub package_read : (Bytes → P → Io (Option P)) → ℕ → ℕ → Bytes → P → Io (Option P)
  package_read again pkg_len pkg_type buff p =
      if type_byte target == pkg_type
      then parser pkg_len buff p >>= (λ p'. package_done again buff p')
      else again buff p

  -- A length below that of the header asks for a negative number of bytes: undefined.
  unfoldable pub package_body : (Bytes → P → Io (Option P)) → ℕ → ℕ → Bytes → P → Io (Option P)
  package_body again pkg_len pkg_type buff p =
      if ltb pkg_len header_size
      then lift fault
      else receive_socket buff (pkg_len - header_size) header_size >>= λ r. elim r.0 [
        | none ↦ return (some p)
        | some zero ↦ return (some p)
        | some (suc n) ↦ package_read again pkg_len pkg_type r.1 p
      ]

  unfoldable pub package_head : (Bytes → P → Io (Option P)) → Bytes → P → Io (Option P)
  package_head again buff p = receive_socket buff header_size 0 >>= λ r. elim r.0 [
    | none ↦ return (some p)
    | some n ↦ lift (unpack w16 r.1) >>= λ pkg_len.
        lift (at r.1 2) >>= λ pkg_type. package_body again pkg_len pkg_type r.1 p
  ]

  -- The loop of `receive`. `none` means that the fuel ran out; `P` is what the callback changes
  -- outside the client.
  unfoldable pub receive_loop : ℕ → Bytes → P → Io (Option P)
  receive_loop zero buff p = return none
  receive_loop (suc fuel) buff p = package_head (receive_loop fuel) buff p

  -- `receive`. Each round but the last takes a header at least.
  unfoldable pub receive : P → Io (Option P)
  receive p c = receive_loop (suc (pending c)) (replicate 4069 0) p c
