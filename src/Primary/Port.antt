-- ===== src/Primary/Port.antt =====
-- PrimaryPort (source/Primary/PrimaryPort.cpp): the waiting packages, and the state message that fills
-- them.
pub mod Loop
pub mod Waiting
pub mod Get
pub mod Steps
mod Tests
use elite_robots_cs_sdk.Shared.{
  ℕ, zero, suc, ◌+◌, ◌-◌, List, [], ◌∷◌, Bytes, Bool, true, false, not, ◌||◌, Option, none, some,
  Result, ok, throws, fault, ◌>>=◌, ltb, leb, ◌==◌, if◌then◌else◌, length, drop,
}
use elite_robots_cs_sdk.Endian.{at, unpack, w32}
use elite_robots_cs_sdk.Primary.Packages.{Contents, get_type, parser}

-- An object of a class that derives from PrimaryPackage.
pub record Package : Type 0 where
  pub contents : Contents
  pub ready : Bool

-- The objects by pointer, and `parser_sub_msg_`: the pointer that waits for a type.
pub record Port : Type 0 where
  pub heap : ℕ → Package
  pub parser_sub_msg : ℕ → Option ℕ

abbrev pub write : {A : Type 0} → ℕ → A → (ℕ → A) → ℕ → A
write k a f j = if j == k then a else f j

abbrev pub head_length : ℕ
head_length = 5

-- A waiting package of the type is parsed, marked ready (`notifyUpated`) and waits no more.
unfoldable pub deliver : ℕ → ℕ → Bytes → Port → Result Port
deliver sub_type sub_len iter port = elim (port.parser_sub_msg sub_type) [
  | none ↦ ok port
  | some p ↦ parser sub_len iter (port.heap p).contents >>= λ d. ok (record {
    heap = write p (record { contents = d; ready = true }) port.heap;
    parser_sub_msg = write sub_type none port.parser_sub_msg;
  })
]

-- The loop of `parserMessageBody` over the sub-packages; `none` means that the fuel ran out. The
-- length is read before the test of what remains.
unfoldable pub sub_packages : ℕ → Bytes → Port → Result (Option Bool × Port)
sub_packages fuel [] port = ok (some true, port)
sub_packages zero (b ∷ iter) port = ok (none, port)
sub_packages (suc fuel) (b ∷ iter) port = unpack w32 (b ∷ iter) >>= λ sub_len.
    if leb sub_len head_length || ltb (length (b ∷ iter)) sub_len
    then ok (some false, port)
    else at (b ∷ iter) 4 >>= λ sub_type. deliver sub_type sub_len (b ∷ iter) port >>= λ port'.
        sub_packages fuel (drop sub_len (b ∷ iter)) port'

-- `parserMessageBody` on the body of a state message, whole in `message_body_`. A round takes a head
-- at least.
unfoldable pub parser_state_body : Bytes → Port → Result (Option Bool × Port)
unfolding sub_packages
parser_state_body message_body port = sub_packages (length message_body) message_body port

-- The state messages that the background thread parses while a caller waits.
unfoldable pub arrive : List Bytes → Port → Result Port
unfolding parser_state_body
arrive [] port = ok port
arrive (m ∷ ms) port = parser_state_body m port >>= λ r. arrive ms r.1

-- The registration that a caller takes back when its wait is over in vain.
abbrev pub give_up : ℕ → ℕ → Port → Port
give_up sub_type p port = elim (port.parser_sub_msg sub_type) [
  | none ↦ port
  | some q ↦
      if q == p
      then record port { parser_sub_msg = write sub_type none port.parser_sub_msg }
      else port
]

-- `parser_sub_msg_.insert`: whether the type was free.
abbrev pub insert_package : ℕ → Port → Bool × Port
insert_package p port =
    let sub_type = get_type (port.heap p).contents in
    elim (port.parser_sub_msg sub_type) [
      | some q ↦ (false, port)
      | none ↦ (true, record port { parser_sub_msg = write sub_type (some p) port.parser_sub_msg })
    ]

-- `getPackage`, with the messages that come until its wait is over. Where the type is taken there is no
-- wait, and no message is parsed before the call returns.
unfoldable pub get_package : ℕ → List Bytes → Port → Result (Bool × Port)
unfolding arrive
get_package p messages port =
    let inserted = insert_package p port in
    if inserted.0
    then (arrive messages inserted.1 >>= λ later.
        if (later.heap p).ready
        then ok (true, later)
        else ok (false, give_up (get_type (port.heap p).contents) p later))
    else ok (false, inserted.1)
