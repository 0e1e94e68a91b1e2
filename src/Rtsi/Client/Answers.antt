-- ===== src/Rtsi/Client/Answers.antt =====
-- The requests when the controller answers, and a data package from `send` to `receiveData`.
use elite_robots_cs_sdk.Shared.{
  ℕ, ◌+◌, ◌/◌, ◌%◌, ◌<◌, ◌≡◌, ◌≢◌, refl, ap, ◌∙◌, List, [], ◌∷◌, ◌++◌, Bytes, false, not, none,
  some, Result, ok, throws, fault, ◌==◌, if◌then◌else◌, Bool-cases, inl, inr, length, All,
}
use elite_robots_cs_sdk.Rtsi.Client.Monad.{
  Socket, IsSettled, started, stoped, Client, Io, after, lift, return, ◌>>=◌,
}
use elite_robots_cs_sdk.Rtsi.Client.Receive.{
  PackageType, type_byte, request_protocol_version, control_package_start, control_package_pause,
  frame, send_all, receive,
}
use elite_robots_cs_sdk.Rtsi.Client.Skip.{Package, sent_as, stream, receive-stream}
use elite_robots_cs_sdk.Rtsi.Client.Requests.{
  received, flag_of, accept_parser, negotiate_protocol_version, state_parser, start, pause,
}

-- Packages of other types, each short enough for its length field.
abbrev pub Others : PackageType → List Package → Type 0
Others target others =
    All (λ o. (length o.tail < 65532) × (type_byte target ≢ type_byte o.cmd)) others

-- What the network holds for a request: other packages, then the answer, then the rest; every write is
-- taken whole; and no handler of an earlier call is left to run.
pub record Answered (target : PackageType) (others : List Package) (q : Package) (rest : Bytes)
    (c : Client) (s : Socket) : Type 0 where
  pub skipped : Others target others
  pub short : length q.tail < 65532
  pub same_type : q.cmd ≡ target
  pub opened : c.socket ≡ some s
  pub incoming : s.incoming ≡ stream others (sent_as q ++ rest)
  pub writable : s.writes ≡ []
  pub settled : IsSettled c

-- The client after it: the message is sent, and the answer taken.
abbrev pub asked : Client → Socket → Bytes → Bytes → Client
asked c s message rest = record c {
  socket = some (record s { incoming = rest; sent = s.sent ++ message });
}

send_all-open :
    (cmd : PackageType) (payload : Bytes) (c : Client) (s : Socket)
    → c.socket ≡ some s
    → s.writes ≡ []
    → send_all cmd payload c
      ≡ (ok tt, record c { socket = some (record s { sent = s.sent ++ frame cmd payload }) })
unfolding send_all
send_all-open cmd payload c s e w = rw (e, w)

pub received-return :
    {P : Type 0} (r : Result P × Client)
    → after
        (λ o. elim o as (λ _. Io P) [ some p ↦ return p | none ↦ lift fault ])
        (after (λ p. return (some p)) r)
      ≡ r
received-return (ok p, c) = refl
received-return (throws e, c) = refl
received-return (fault, c) = refl

request_answered :
    {P : Type 0} (message target : PackageType) (payload : Bytes) (parser : ℕ → Bytes → P → Io P)
    (p : P) (others : List Package) (q : Package) (rest : Bytes) (c : Client) (s : Socket)
    → Answered target others q rest c s
    → (junk : Bytes) × ((send_all message payload >>= λ _. received (receive target parser false p))
          c
        ≡ parser (4 + length q.tail) (sent_as q ++ junk) p (asked c s (frame message payload) rest))
request_answered {P} message target payload parser p others q rest c s a =
    let s1 = record s { sent = s.sent ++ frame message payload } in
    let c1 = record c { socket = some s1 } in
    let (junk, run) =
      receive-stream target parser others q rest p c1 s1 a.skipped a.short a.same_type refl
        a.incoming a.settled in
    (
      junk,
      ap (after (λ _. received (receive target parser false p)))
            (send_all-open message payload c s a.opened a.writable)
          ∙ ap (after (λ o. elim o as (λ _. Io P) [ some p ↦ return p | none ↦ lift fault ])) run
          ∙ received-return (
              parser (4 + length q.tail) (sent_as q ++ junk) p
                (asked c s (frame message payload) rest)),
    )

-- The fourth byte of a package is the first of its body.
flag_of-sent_as :
    (q : Package) (junk : Bytes) (c : Client)
    → flag_of (sent_as q ++ junk) c ≡ (ok (not (q.head == 0)), c)
unfolding frame
flag_of-sent_as q junk c = refl

-- `start` with an answer: packages of other types come first, then the answer with a body, all
-- short enough for their length field, the write is taken whole, and no handler of an earlier call is
-- left to run: the message is `00 03 53`, the
-- result is whether the answer's first byte is not 0, the client is started exactly in that case
-- and else keeps its state, and what follows the answer stays in the socket.
pub start_answered :
    (others : List Package) (q : Package) (rest : Bytes) (c : Client) (s : Socket)
    → Answered control_package_start others q rest c s
    → start c ≡ (
      ok (not (q.head == 0)),
      record (asked c s (0 ∷ 3 ∷ 83 ∷ []) rest) {
        connection_state = if q.head == 0 then c.connection_state else started;
      },
    )
unfolding start state_parser frame
start_answered others q rest c s a =
    let (junk, run) =
      request_answered control_package_start control_package_start [] (state_parser started) false
        others q rest c s a in
    run ∙ (elim (Bool-cases (q.head == 0)) [ inl e ↦ rw e | inr e ↦ rw e ])

-- `pause` with an answer: packages of other types come first, then the answer with a body, all
-- short enough for their length field, and the write is taken whole: the message is `00 03 50`, the
-- result is whether the answer's first byte is not 0, the client is stopped exactly in that case
-- and else keeps its state, and what follows the answer stays in the socket.
pause_answered :
    (others : List Package) (q : Package) (rest : Bytes) (c : Client) (s : Socket)
    → Answered control_package_pause others q rest c s
    → pause c ≡ (
      ok (not (q.head == 0)),
      record (asked c s (0 ∷ 3 ∷ 80 ∷ []) rest) {
        connection_state = if q.head == 0 then c.connection_state else stoped;
      },
    )
unfolding pause state_parser frame
pause_answered others q rest c s a =
    let (junk, run) =
      request_answered control_package_pause control_package_pause [] (state_parser stoped) false
        others q rest c s a in
    run ∙ (elim (Bool-cases (q.head == 0)) [ inl e ↦ rw e | inr e ↦ rw e ])

-- `negotiateProtocolVersion` with an answer: packages of other types come first, then the answer
-- with a body, all short enough for their length field, and the write is taken whole: the message
-- has the version's low 16 bits, big end first, the result is whether the answer's first byte is
-- not 0, the client keeps its state, and what follows the answer stays in the socket.
negotiate_answered :
    (version : ℕ) (others : List Package) (q : Package) (rest : Bytes) (c : Client) (s : Socket)
    → Answered request_protocol_version others q rest c s
    → negotiate_protocol_version version c ≡ (
      ok (not (q.head == 0)),
      asked c s (0 ∷ 5 ∷ 86 ∷ (version / 256 % 256) ∷ (version % 256) ∷ []) rest,
    )
unfolding negotiate_protocol_version accept_parser frame
negotiate_answered version others q rest c s a =
    (request_answered request_protocol_version request_protocol_version
      ((version / 256 % 256) ∷ (version % 256) ∷ []) accept_parser false others q rest c s a).1
