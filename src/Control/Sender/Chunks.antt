-- ===== src/Control/Sender/Chunks.antt =====
-- How a stream of requests is cut into chunks does not matter, and every request is answered.
use elite_robots_cs_sdk.Shared.{
  ℕ, ◌≡◌, refl, sym, ap, ◌∙◌, [], ◌∷◌, ◌++◌, Bytes, true, false, List, if◌then◌else◌, ◌==◌, codes,
  bytes_eq, All, Bool-cases, inl, inr,
}
use mathlib.Core.List.{append_assoc, append-nil}
use elite_robots_cs_sdk.Control.Sender.{Sender, response_request, take_byte, receive_chunk}

receive_chunk-append :
    (program a b : Bytes) (s : Sender)
    → receive_chunk program (a ++ b) s ≡ receive_chunk program b (receive_chunk program a s)
unfolding receive_chunk
receive_chunk-append program [] b s = refl
receive_chunk-append program (x ∷ a) b s = receive_chunk-append program a b (take_byte program x s)

-- Chunks, one after another.
unfoldable pub receive_chunks : Bytes → List Bytes → Sender → Sender
unfolding receive_chunk
receive_chunks program [] s = s
receive_chunks program (c ∷ cs) s = receive_chunks program cs (receive_chunk program c s)

abbrev pub joined : List Bytes → Bytes
joined [] = []
joined (c ∷ cs) = c ++ joined cs

chunks-joined :
    (program : Bytes) (cs : List Bytes) (s : Sender)
    → receive_chunks program cs s ≡ receive_chunk program (joined cs) s
unfolding receive_chunks receive_chunk
chunks-joined program [] s = refl
chunks-joined program (c ∷ cs) s =
    chunks-joined program cs (receive_chunk program c s)
    ∙ sym (receive_chunk-append program c (joined cs) s)

-- A line without its newline.
abbrev pub IsLine : Bytes → Type 0
IsLine line = All (λ b. (b == 10) ≡ false) line

-- A connection that is read from, and whose writes are taken whole.
abbrev pub ready : Bytes → Bytes → Sender
ready buffer sent = record {
  recv_request_buffer = buffer;
  writes = [];
  sent = sent;
  listening = true;
}

byte-taken :
    (program : Bytes) (b : ℕ) (buffer sent : Bytes)
    → (b == 10) ≡ false
    → take_byte program b (ready buffer sent) ≡ ready (buffer ++ (b ∷ [])) sent
unfolding take_byte
byte-taken program b buffer sent h = rw h refl

line-taken :
    (program line rest buffer sent : Bytes)
    → IsLine line
    → receive_chunk program (line ++ rest) (ready buffer sent)
      ≡ receive_chunk program rest (ready (buffer ++ line) sent)
unfolding receive_chunk
line-taken program [] rest buffer sent h =
    ap (λ b. receive_chunk program rest (ready b sent)) (sym (append-nil buffer))
line-taken program (b ∷ line) rest buffer sent (h, hs) =
    ap (receive_chunk program (line ++ rest)) (byte-taken program b buffer sent h)
    ∙ line-taken program line rest (buffer ++ (b ∷ [])) sent hs
    ∙ ap (λ t. receive_chunk program rest (ready t sent)) (append_assoc buffer (b ∷ []) line)

-- How often the script is to be written, for lines that come in.
unfoldable pub answers : Bytes → List Bytes → Bytes
answers program [] = []
answers program (line ∷ lines) =
    let later = answers program lines in
    if bytes_eq line (codes "request_program") then program ++ later else later

abbrev pub lines_of : List Bytes → Bytes
lines_of [] = []
lines_of (line ∷ lines) = line ++ (10 ∷ lines_of lines)

request-answered :
    (program line : Bytes) (lines : List Bytes) (sent : Bytes)
    → (t : Bytes) × (take_byte program 10 (ready line sent) ≡ ready [] t)
      × (t ++ answers program lines ≡ sent ++ answers program (line ∷ lines))
unfolding take_byte response_request answers
request-answered program line lines sent =
    elim (Bool-cases (bytes_eq line (codes "request_program"))) [
      | inl e ↦ (sent ++ program, rw e refl, rw (e, append_assoc) refl)
      | inr e ↦ (sent, rw e refl, rw e refl)
    ]

lines-answered :
    (program : Bytes) (lines : List Bytes) (sent : Bytes)
    → All IsLine lines
    → receive_chunk program (lines_of lines) (ready [] sent)
      ≡ ready [] (sent ++ answers program lines)
unfolding receive_chunk answers
lines-answered program [] sent h = ap (ready []) (sym (append-nil sent))
lines-answered program (line ∷ lines) sent (h, hs) =
    let (t, taken, sums) = request-answered program line lines sent in
    line-taken program line (10 ∷ lines_of lines) [] sent h
    ∙ ap (receive_chunk program (lines_of lines)) taken
    ∙ lines-answered program lines t hs
    ∙ ap (ready []) sums

-- A robot's lines over a connection whose writes are taken whole: however they are cut into chunks, the script
-- is written once for each line that asks for it, and for no other, and the connection is read on.
pub chunks-answered :
    (program : Bytes) (chunks lines : List Bytes) (sent : Bytes)
    → All IsLine lines
    → joined chunks ≡ lines_of lines
    → receive_chunks program chunks (ready [] sent) ≡ ready [] (sent ++ answers program lines)
chunks-answered program chunks lines sent h e =
    chunks-joined program chunks (ready [] sent)
    ∙ ap (λ b. receive_chunk program b (ready [] sent)) e
    ∙ lines-answered program lines sent h
