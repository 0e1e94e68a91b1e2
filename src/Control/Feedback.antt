-- ===== src/Control/Feedback.antt =====
-- The feedback of a trajectory (source/Control/TrajectoryInterface.cpp).
use elite_robots_cs_sdk.Shared.{
  ℕ, zero, suc, ◌<◌, ◌^◌, ◌≡◌, refl, sym, ap, ◌∙◌, List, [], ◌∷◌, ◌++◌, Bytes, map, reverse, Bool,
  false, ◌&&◌, Option, none, some, ◌==◌, if◌then◌else◌, length, take, drop, All, ℤ, pos, negsuc,
  signed, arith, true, ◌≢◌, ◌⊎◌, inl, inr, Bool-cases,
}
use mathlib.Core.List.{append-nil}
use elite_robots_cs_sdk.Endian.{host_bytes, host_value, pack, w32}
use elite_robots_cs_sdk.Endian.RoundTrip.{length-pack_array}
use elite_robots_cs_sdk.Rtsi.Value.Set.{signed-wrap}
use elite_robots_cs_sdk.Control.Words.{htonl, memory, host_bytes-htonl, memory-htonl, wrap-lt}
use elite_robots_cs_sdk.Control.Frames.{int}
use elite_robots_cs_sdk.Control.Reads.{IsInt32, length-map}

-- TrajectoryMotionFeedback. A double is its bit pattern.
pub record Feedback : Type 0 where
  pub message_type : ℤ
  pub point_index : ℤ
  pub total_points : ℤ
  pub result : ℤ
  pub point : List ℕ

-- What the callbacks are called with: the motion feedback, and the motion result.
pub data Event : Type 0 where
  motion : Feedback → Event
  finished : ℤ → Event

-- `memcpy` into an array of int32_t.
unfoldable pub words_of : ℕ → Bytes → List ℕ
words_of zero bytes = []
words_of (suc n) bytes = host_value (take 4 bytes) ∷ words_of n (drop 4 bytes)

abbrev pub decode_int32 : ℕ → ℤ
decode_int32 raw_value = signed 32 (htonl raw_value)

-- TrajectoryFeedbackMessageType::RESULT.
abbrev pub is_result : ℤ → Bool
is_result (pos n) = n == 3
is_result (negsuc n) = false

module _ (over_zoom : ℤ → ℕ) where
  -- `over_zoom` is the conversion of an int32_t to a double and its division by POS_ZOOM_RATIO.
  unfoldable pub feedback_of : List ℕ → Option Feedback
  unfolding htonl
  feedback_of (a ∷ b ∷ c ∷ d ∷ p) = some (record {
    message_type = decode_int32 a;
    point_index = decode_int32 b;
    total_points = decode_int32 c;
    result = decode_int32 d;
    point = map (λ w. over_zoom (decode_int32 w)) p;
  })
  feedback_of _ = none

  abbrev pub events_of : Bool → Bool → Option Feedback → List Event
  events_of has_motion has_result none = []
  events_of has_motion has_result (some f) =
      (if has_motion then motion f ∷ [] else [])
      ++ (if is_result f.message_type && has_result then finished f.result ∷ [] else [])

  -- The receive callback, for the callbacks that are set.
  unfoldable pub on_receive : Bool → Bool → Bytes → List Event
  unfolding feedback_of words_of
  on_receive has_motion has_result message =
      if length message == 40
      then events_of has_motion has_result (feedback_of (words_of 10 message))
      else []

host_value-host_bytes : (w : ℕ) → w < 2 ^ 32 → host_value (host_bytes 4 w) ≡ w
host_value-host_bytes w h = omega arith

htonl-lt : (v : ℕ) → htonl v < 2 ^ 32
unfolding htonl
htonl-lt v = omega arith

-- `ntohl` undoes `htonl`.
htonl-htonl : (v : ℕ) → v < 2 ^ 32 → htonl (htonl v) ≡ v
unfolding htonl pack
htonl-htonl v h = ap (λ m. host_value (reverse m)) (host_bytes-htonl v) ∙ omega arith

words_of-memory : (ws : List ℕ) → words_of (length ws) (memory (map htonl ws)) ≡ map htonl ws
unfolding words_of memory
words_of-memory [] = refl
words_of-memory (w ∷ ws) =
    let word = host_value-host_bytes (htonl w) (htonl-lt w) in rw (word, words_of-memory ws)

-- An int32_t that was sent is decoded.
decode_int32-htonl : (z : ℤ) → IsInt32 z → decode_int32 (htonl (int z)) ≡ z
decode_int32-htonl z (lo, hi) =
    ap (signed 32) (htonl-htonl (int z) (wrap-lt z)) ∙ signed-wrap z lo hi

-- Whether a message is one of a result.
result_or : (m : ℤ) → ((is_result m ≡ true) × (m ≡ pos 3)) ⊎ ((is_result m ≡ false) × (m ≢ pos 3))
result_or (pos n) = elim (Bool-cases (n == 3)) [
  | inl e ↦ inl (e, ap pos (ground arith))
  | inr e ↦ inr (e, λ same. let three : n ≡ 3 = cc in absurd (ground arith))
]
result_or (negsuc n) = inr (refl, λ same. cc)

module _ (over_zoom : ℤ → ℕ) where
  decode_int32-map :
      (zs : List ℤ)
      → All IsInt32 zs
      → map (λ w. over_zoom (decode_int32 w)) (map htonl (map int zs)) ≡ map over_zoom zs
  decode_int32-map [] h = refl
  decode_int32-map (z ∷ zs) (h, hs) = rw (decode_int32-htonl z h, decode_int32-map zs hs)

  receive_forty :
      (has_motion has_result : Bool) (message : Bytes)
      → length message ≡ 40
      → on_receive over_zoom has_motion has_result message
        ≡ events_of over_zoom has_motion has_result (feedback_of over_zoom (words_of 10 message))
  unfolding on_receive
  receive_forty has_motion has_result message size = rw size

  -- The feedback whose integers are sent.
  abbrev pub sent_feedback : ℤ → ℤ → ℤ → ℤ → List ℤ → Feedback
  sent_feedback m i t r zs = record {
    message_type = m;
    point_index = i;
    total_points = t;
    result = r;
    point = map over_zoom zs;
  }

  decoded :
      (has_motion has_result : Bool) (m i t r : ℤ) (zs : List ℤ)
      → length zs ≡ 6
      → All IsInt32 (m ∷ i ∷ t ∷ r ∷ zs)
      → on_receive over_zoom has_motion has_result
          (memory (map htonl (map int (m ∷ i ∷ t ∷ r ∷ zs))))
        ≡ events_of over_zoom has_motion has_result (some (sent_feedback m i t r zs))
  unfolding feedback_of
  decoded has_motion has_result m i t r zs six (hm, (hi, (ht, (hr, h)))) =
      let words = map int (m ∷ i ∷ t ∷ r ∷ zs) in
      let ten : length words ≡ 10 = omega (arith, length-map zs) in
      let size : length (memory (map htonl words)) ≡ 40 =
        ap length (memory-htonl words) ∙ length-pack_array w32 words ∙ omega (arith, ten) in
      let read : words_of 10 (memory (map htonl words)) ≡ map htonl words =
        ap (λ n. words_of n (memory (map htonl words))) (sym ten) ∙ words_of-memory words in
      receive_forty has_motion has_result (memory (map htonl words)) size
      ∙ ap (λ ws. events_of over_zoom has_motion has_result (feedback_of over_zoom ws)) read
      ∙ rw (
        decode_int32-htonl m hm,
        decode_int32-htonl i hi,
        decode_int32-htonl t ht,
        decode_int32-htonl r hr,
        decode_int32-map zs h,
      )

  -- A feedback message that the controller sends, as ten big-endian words of integers in the range
  -- of int32_t, and the callbacks that are set. The motion callback, if it is set, is called once with the
  -- feedback, with its integers and the converted joints. If the type of the message is 3, RESULT, the
  -- result callback, if it is set, is then called once with the result; if it is not, it is not called.
  pub on_receive-sent :
      (has_motion has_result : Bool) (m i t r : ℤ) (zs : List ℤ)
      → length zs ≡ 6
      → All IsInt32 (m ∷ i ∷ t ∷ r ∷ zs)
      → ((m ≡ pos 3)
          × (on_receive over_zoom has_motion has_result
                (memory (map htonl (map int (m ∷ i ∷ t ∷ r ∷ zs))))
              ≡ (if has_motion then motion (sent_feedback m i t r zs) ∷ [] else [])
                ++ (if has_result then finished r ∷ [] else [])))
        ⊎ ((m ≢ pos 3)
            × (on_receive over_zoom has_motion has_result
                  (memory (map htonl (map int (m ∷ i ∷ t ∷ r ∷ zs))))
                ≡ (if has_motion then motion (sent_feedback m i t r zs) ∷ [] else [])))
  on_receive-sent has_motion has_result m i t r zs six h = elim (result_or m) [
    | inl (result, three) ↦
        inl (three, decoded has_motion has_result m i t r zs six h ∙ rw result refl)
    | inr (other, not_three) ↦ inr (
      not_three,
      decoded has_motion has_result m i t r zs six h
          ∙ rw other
              (append-nil (if has_motion then motion (sent_feedback m i t r zs) ∷ [] else [])),
    )
  ]
