-- ===== src/Primary/Port/Loop.antt =====
-- The loop of `parserMessageBody` and what a robot sends.
use elite_robots_cs_sdk.Shared.{
  ℕ, zero, suc, ◌+◌, ◌-◌, ◌≤◌, ◌<◌, ◌^◌, ◌≡◌, refl, sym, ap, ◌∙◌, List, [], ◌∷◌, ◌++◌, Bytes, true,
  false, ◌||◌, some, Result, ok, throws, fault, ◌>>=◌, ltb, leb, le→ltb, lt→leb, length, drop, All,
  arith, length-append, drop-length-append, ◌⊎◌,
}
use elite_robots_cs_sdk.Endian.{unpack, pack, w32}
use elite_robots_cs_sdk.Endian.RoundTrip.{unpack-pack, length-pack}
use elite_robots_cs_sdk.Primary.Port.{Port, deliver, sub_packages, parser_state_body}

-- A sub-package: its type, and what stands behind its head.
pub record Sub : Type 0 where
  pub sub_type : ℕ
  pub payload : Bytes

abbrev pub sub_len : Sub → ℕ
sub_len q = 5 + length q.payload

abbrev pub sub_bytes : Sub → Bytes
sub_bytes q = pack w32 (sub_len q) ++ (q.sub_type ∷ q.payload)

-- Sub-packages one behind the other, and what comes after them.
abbrev pub body : List Sub → Bytes → Bytes
body [] rest = rest
body (q ∷ qs) rest = sub_bytes q ++ body qs rest

-- What each of them does, in the order of the message. A parser is given the rest of the message too.
abbrev pub deliver_all : List Sub → Bytes → Port → Result Port
deliver_all [] rest port = ok port
deliver_all (q ∷ qs) rest port =
    deliver q.sub_type (sub_len q) (body (q ∷ qs) rest) port >>= λ port'. deliver_all qs rest port'

-- A sub-package has a body, and its length fits four bytes.
abbrev pub IsSub : Sub → Type 0
IsSub q = (0 < length q.payload) × (5 + length q.payload < 2 ^ 32)

length-sub_bytes : (q : Sub) → length (sub_bytes q) ≡ sub_len q
length-sub_bytes q =
    length-append (pack w32 (sub_len q)) (q.sub_type ∷ q.payload)
    ∙ rw (length-pack w32 (sub_len q)) (omega arith)

round-sub :
    (q : Sub) (rest : Bytes) (fuel : ℕ) (port : Port)
    → IsSub q
    → sub_packages (suc fuel) (sub_bytes q ++ rest) port ≡ (
        deliver q.sub_type (sub_len q) (sub_bytes q ++ rest) port >>= λ port'.
        sub_packages fuel rest port')
unfolding sub_packages pack
round-sub q rest fuel port (some_body, short) =
    let total = unpack-pack w32 (sub_len q) (q.sub_type ∷ (q.payload ++ rest)) (omega arith) in
    let low = lt→leb (sub_len q) 5 (omega arith) in
    let size = length-append (sub_bytes q) rest in
    let high =
      le→ltb (length (sub_bytes q ++ rest)) (sub_len q) (omega (arith, size, length-sub_bytes q)) in
    let tail : drop (sub_len q) (sub_bytes q ++ rest) ≡ rest =
      ap (λ n. drop n (sub_bytes q ++ rest)) (sym (length-sub_bytes q))
      ∙ drop-length-append (sub_bytes q) rest in
    rw (total, low, high, tail)

bind_assoc :
    {A : Type 0} (m : Result Port) (f : Port → Result A) (g : Port → Result Port)
    (h : Port → Result A)
    → ((port : Port) → f port ≡ (g port >>= h))
    → (m >>= f) ≡ (m >>= g >>= h)
bind_assoc (ok port) f g h e = e port
bind_assoc (throws c) f g h e = refl
bind_assoc fault f g h e = refl

-- Fuel for the given sub-packages and more.
abbrev rounds : List Sub → ℕ → ℕ
rounds [] fuel = fuel
rounds (q ∷ qs) fuel = suc (rounds qs fuel)

rounds_eq : (qs : List Sub) (fuel : ℕ) → rounds qs fuel ≡ length qs + fuel
rounds_eq [] fuel = omega arith
rounds_eq (q ∷ qs) fuel = omega (arith, rounds_eq qs fuel)

sub_packages-body :
    (qs : List Sub) (rest : Bytes) (fuel : ℕ) (port : Port)
    → All IsSub qs
    → sub_packages (rounds qs fuel) (body qs rest) port
      ≡ (deliver_all qs rest port >>= λ port'. sub_packages fuel rest port')
sub_packages-body [] rest fuel port h = refl
sub_packages-body (q ∷ qs) rest fuel port (h, hs) =
    round-sub q (body qs rest) (rounds qs fuel) port h
    ∙ bind_assoc (deliver q.sub_type (sub_len q) (body (q ∷ qs) rest) port) _ (deliver_all qs rest)
        _ (λ port'. sub_packages-body qs rest fuel port' hs)

length-body : (qs : List Sub) (rest : Bytes) → length qs + length rest ≤ length (body qs rest)
length-body [] rest = omega arith
length-body (q ∷ qs) rest =
    omega
      (arith, length-append (sub_bytes q) (body qs rest), length-sub_bytes q, length-body qs rest)

parser_state_body-body :
    (qs : List Sub) (rest : Bytes) (port : Port)
    → All IsSub qs
    → parser_state_body (body qs rest) port ≡ (
        deliver_all qs rest port >>= λ port'.
        sub_packages (length (body qs rest) - length qs) rest port')
unfolding parser_state_body
parser_state_body-body qs rest port h =
    let left_over = length (body qs rest) - length qs in
    let fuel : length (body qs rest) ≡ rounds qs left_over =
      omega (arith, length-body qs rest, rounds_eq qs left_over) in
    ap (λ n. sub_packages n (body qs rest) port) fuel
    ∙ sub_packages-body qs rest (length (body qs rest) - length qs) port h

-- A state message that is a sequence of whole sub-packages, each with a body and a length that fits
-- four bytes: each is delivered, in their order, and the result is true.
pub parser_state_body_whole :
    (qs : List Sub) (port : Port)
    → All IsSub qs
    → parser_state_body (body qs []) port
      ≡ (deliver_all qs [] port >>= λ port'. ok (some true, port'))
unfolding sub_packages
parser_state_body_whole qs port h = parser_state_body-body qs [] port h

bad_head :
    (n : ℕ) (tail : Bytes) (fuel : ℕ) (port : Port)
    → 0 < fuel
    → n < 2 ^ 32
    → (n ≤ 5) ⊎ (4 + length tail < n)
    → sub_packages fuel (pack w32 n ++ tail) port ≡ ok (some false, port)
unfolding sub_packages pack
bad_head n tail zero port f small bad = absurd (omega arith)
bad_head n tail (suc fuel) port f small bad =
    let total = unpack-pack w32 n tail small in
    let test : (leb n 5 || ltb (length (pack w32 n ++ tail)) n) ≡ true =
      ground (arith, length-append (pack w32 n) tail, length-pack w32 n) in
    rw (total, test)

-- A sub-package whose length does not exceed that of a head, or exceeds what is left of the message:
-- those before it are delivered, it is not, and the result is false.
parser_state_body_bad :
    (qs : List Sub) (n : ℕ) (tail : Bytes) (port : Port)
    → All IsSub qs
    → n < 2 ^ 32
    → (n ≤ 5) ⊎ (4 + length tail < n)
    → parser_state_body (body qs (pack w32 n ++ tail)) port
      ≡ (deliver_all qs (pack w32 n ++ tail) port >>= λ port'. ok (some false, port'))
parser_state_body_bad qs n tail port h small bad =
    let rest = pack w32 n ++ tail in
    let fuel : 0 < length (body qs rest) - length qs =
      omega (arith, length-body qs rest, length-append (pack w32 n) tail, length-pack w32 n) in
    parser_state_body-body qs rest port h
    ∙ ap (λ k. deliver_all qs rest port >>= k) (λ i port'. bad_head n tail _ port' fuel small bad i)

cut_head :
    (rest : Bytes) (fuel : ℕ) (port : Port)
    → 0 < fuel
    → 0 < length rest
    → length rest < 4
    → sub_packages fuel rest port ≡ fault
unfolding sub_packages unpack
cut_head rest zero port f some_rest short = absurd (omega arith)
cut_head [] (suc fuel) port f some_rest short = absurd (omega arith)
cut_head (a ∷ []) (suc fuel) port f some_rest short = refl
cut_head (a ∷ b ∷ []) (suc fuel) port f some_rest short = refl
cut_head (a ∷ b ∷ c ∷ []) (suc fuel) port f some_rest short = refl
cut_head (a ∷ b ∷ c ∷ d ∷ rest) (suc fuel) port f some_rest short = absurd (omega arith)

-- One to three bytes behind the last sub-package: the length that is read there lies partly outside
-- the message.
pub parser_state_body_outside :
    (qs : List Sub) (rest : Bytes) (port : Port)
    → All IsSub qs
    → 0 < length rest
    → length rest < 4
    → parser_state_body (body qs rest) port ≡ (deliver_all qs rest port >>= λ port'. fault)
parser_state_body_outside qs rest port h some_rest short =
    let fuel : 0 < length (body qs rest) - length qs = omega (arith, length-body qs rest) in
    parser_state_body-body qs rest port h
    ∙ ap (λ k. deliver_all qs rest port >>= k)
        (λ i port'. cut_head rest _ port' fuel some_rest short i)
