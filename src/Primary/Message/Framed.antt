-- ===== src/Primary/Message/Framed.antt =====
-- `parserMessage` on messages as the controller frames them.
use elite_robots_cs_sdk.Shared.{
  ℕ, ◌+◌, ◌-◌, ◌≤◌, ◌<◌, ◌^◌, ◌≡◌, ◌∙◌, List, [], ◌∷◌, ◌++◌, Bytes, Bool, true, false, ok, leb,
  le→leb, lt→leb, if◌then◌else◌, length, length-append, length-take, Bool-cases, inl, inr,
  take-length-append, drop-length-append, arith, All,
}
use elite_robots_cs_sdk.Endian.{pack, w32}
use elite_robots_cs_sdk.Endian.RoundTrip.{unpack-pack, length-pack}
use elite_robots_cs_sdk.Primary.Port.{Port}
use elite_robots_cs_sdk.Primary.Port.Loop.{Sub, IsSub, body, deliver_all, parser_state_body_whole}
use elite_robots_cs_sdk.Primary.Exceptions.{RobotException, robot_error, runtime_exception}
use elite_robots_cs_sdk.Primary.Exceptions.RoundTrip.{
  exception_bytes, IsException, parser_exception-bytes,
}
use elite_robots_cs_sdk.Primary.Message.{
  Wire, leaves, body_of_type, parser_message_body, parser_head, found, parser_message,
}

-- A message: its length with the head, its type, and its body.
abbrev pub message : ℕ → Bytes → Bytes
message kind text = pack w32 (5 + length text) ++ (kind ∷ text)

-- An open socket with the bytes, of which some are there at once.
abbrev pub wire : Bytes → ℕ → Wire
wire bytes ready = record {
  is_open = true;
  incoming = bytes;
  ready = ready;
  broken = false;
  pending = false;
}

parser_head-framed :
    (has_callback : Bool) (kind : ℕ) (text rest : Bytes) (port : Port)
    → 0 < length text
    → 5 + length text < 2 ^ 31
    → parser_head has_callback false (message kind text ++ rest) port
      ≡ body_of_type has_callback kind text rest port
unfolding parser_head parser_message_body pack
parser_head-framed has_callback kind text rest port some_body short =
    let total = unpack-pack w32 (5 + length text) (kind ∷ (text ++ rest)) (omega arith) in
    let long = lt→leb (5 + length text) 5 (omega arith) in
    let fits = lt→leb 2147483648 (5 + length text) (omega arith) in
    let body_len : 5 + length text - 5 ≡ length text = omega arith in
    let came =
      le→leb (length text) (length (text ++ rest)) (omega (arith, length-append text rest)) in
    rw (
      total,
      long,
      fits,
      body_len,
      came,
      take-length-append text rest,
      drop-length-append text rest,
    )

head-found :
    (kind ready : ℕ) (text rest : Bytes)
    → 5 ≤ ready
    → leb 5 (found (wire (message kind text ++ rest) ready)) ≡ true
head-found kind ready text rest there = le→leb 5 _ (
    omega (
      arith,
      length-take ready (message kind text ++ rest),
      length-append (message kind text) rest,
      length-append (pack w32 (5 + length text)) (kind ∷ text),
      length-pack w32 (5 + length text),
    ))

parser_message-framed :
    (has_callback : Bool) (kind ready : ℕ) (text rest : Bytes) (port : Port)
    → 5 ≤ ready
    → 0 < length text
    → 5 + length text < 2 ^ 31
    → parser_message has_callback (wire (message kind text ++ rest) ready) port
      ≡ body_of_type has_callback kind text rest port
unfolding parser_message
parser_message-framed has_callback kind ready text rest port there some_body short =
    rw (head-found kind ready text rest there)
      (parser_head-framed has_callback kind text rest port some_body short)

exception-some : (source : ℕ) (e : RobotException) → 0 < length (exception_bytes source e)
unfolding pack
exception-some source (robot_error timestamp code sub_code from level t d) = omega arith
exception-some source (runtime_exception timestamp line column text) = omega arith

-- A message of the exception type with an exception that fits its types, of which five bytes are
-- there at once, the rest comes and the length fits an int: the callback, if it is set, is called
-- once, with the exception that was sent; the result is true, the waiting packages are not changed,
-- and what follows the message stays in the socket.
parser_message-exception :
    (has_callback : Bool) (source ready : ℕ) (e : RobotException) (rest : Bytes) (port : Port)
    → IsException e
    → 5 ≤ ready
    → 5 + length (exception_bytes source e) < 2 ^ 31
    → parser_message has_callback (wire (message 20 (exception_bytes source e) ++ rest) ready) port
      ≡ leaves true rest port (if has_callback then e ∷ [] else [])
unfolding body_of_type
parser_message-exception has_callback source ready e rest port h there short =
    let text = exception_bytes source e in
    parser_message-framed has_callback 20 ready text rest port there (exception-some source e) short
    ∙ (elim (Bool-cases has_callback) [
      | inl set ↦ rw (set, parser_exception-bytes source e h)
      | inr unset ↦ rw unset
    ])

-- A message of the state type with whole sub-packages, at least one, of which five bytes are there
-- at once, the rest comes, the length fits an int and all deliveries succeed: each sub-package is
-- delivered in order, the result is true, and what follows the message stays in the socket.
pub parser_message-state :
    (has_callback : Bool) (ready : ℕ) (qs : List Sub) (rest : Bytes) (port later : Port)
    → All IsSub qs
    → deliver_all qs [] port ≡ ok later
    → 5 ≤ ready
    → 0 < length (body qs [])
    → 5 + length (body qs []) < 2 ^ 31
    → parser_message has_callback (wire (message 16 (body qs []) ++ rest) ready) port
      ≡ leaves true rest later []
unfolding body_of_type
parser_message-state has_callback ready qs rest port later h delivered there some_body short =
    parser_message-framed has_callback 16 ready (body qs []) rest port there some_body short
    ∙ rw (parser_state_body_whole qs port h, delivered)
