-- ===== src/Control/Reads.antt =====
-- What a reader of big-endian words finds in the frames.
use elite_robots_cs_sdk.Shared.{
  ℕ, suc, ◌-◌, ◌*◌, ◌<◌, ◌^◌, ◌≡◌, refl, sym, ap, ◌∙◌, List, [], ◌∷◌, ◌++◌, map, Bool, some, ok,
  if◌then◌else◌, length, length-append, replicate, All, All-append, ℤ, pos, negsuc, ◌≤ℤ◌, arith,
}
use mathlib.Core.List.{append-nil}
use elite_robots_cs_sdk.Endian.{unpack_array, w32}
use elite_robots_cs_sdk.Control.Words.{all_int32, unpack_array-memory, to_int32_range, wrap-lt}
use elite_robots_cs_sdk.Control.Frames.{
  Scaling, ControlMode, mode_value, zoom, time_zoom, int, frame_of, joint_words, point_words,
}

abbrev pub IsInt32 : ℤ → Type 0
IsInt32 z = ◌≤ℤ◌ (negsuc (2 ^ 31 - 1)) z × ◌≤ℤ◌ z (pos (2 ^ 31 - 1))

all_int32_range : (zs : List ℤ) → All IsInt32 zs → all_int32 (map some zs) ≡ ok (map int zs)
unfolding all_int32
all_int32_range [] h = refl
all_int32_range (z ∷ zs) ((lo, hi), h) = rw (to_int32_range z lo hi, all_int32_range zs h)

pub length-map : (zs : List ℤ) → length (map int zs) ≡ length zs
length-map [] = refl
length-map (z ∷ zs) = ap suc (length-map zs)

ints-fit : (zs : List ℤ) → All (λ w. w < 2 ^ 32) (map int zs)
ints-fit [] = tt
ints-fit (z ∷ zs) = (wrap-lt z, ints-fit zs)

frame_of-read :
    (ws : List ℕ)
    → All (λ w. w < 2 ^ 32) ws
    → unpack_array w32 (length ws) (frame_of ws) 0 ≡ ok (ws, 4 * length ws)
frame_of-read ws h =
    ap (λ m. unpack_array w32 (length ws) m 0) (sym (append-nil (frame_of ws)))
    ∙ unpack_array-memory ws [] h

-- The words of `writeJointCommand`.
abbrev pub joint_frame : List ℤ → ControlMode → ℤ → List ℕ
joint_frame zs mode timeout = int timeout ∷ (map int zs ++ (int (mode_value mode) ∷ []))

pub joint_words-range :
    (s : Scaling) (p : List ℕ) (zs : List ℤ) (mode : ControlMode) (timeout : ℤ)
    → map (λ x. s.round_double x zoom) p ≡ map some zs
    → All IsInt32 zs
    → joint_words s (some p) mode timeout ≡ ok (joint_frame zs mode timeout)
unfolding joint_words
joint_words-range s p zs mode timeout rounded h = rw (rounded, all_int32_range zs h)

pub frame_of-joint_frame :
    (zs : List ℤ) (mode : ControlMode) (timeout : ℤ)
    → length zs ≡ 6
    → unpack_array w32 8 (frame_of (joint_frame zs mode timeout)) 0
      ≡ ok (joint_frame zs mode timeout, 32)
frame_of-joint_frame zs mode timeout six =
    let ws = joint_frame zs mode timeout in
    let size : length ws ≡ 8 =
      omega (arith, length-append (map int zs) (int (mode_value mode) ∷ []), length-map zs) in
    let fit : All (λ w. w < 2 ^ 32) ws = (
      wrap-lt timeout,
      All-append (λ w. w < 2 ^ 32) (map int zs) (int (mode_value mode) ∷ []) (ints-fit zs)
          (wrap-lt (mode_value mode), tt),
    ) in
    ap (λ n. unpack_array w32 n (frame_of ws) 0) (sym size)
    ∙ frame_of-read ws fit
    ∙ ap (λ n. ok (ws, n)) (omega (arith, size))

-- `writeTrajectoryPoint`, where all scaled numbers round to integers in range: the frame is 21 words,
-- which are the positions, the speed, the acceleration, ten zeros, the time, the blend radius and 1 for
-- a Cartesian motion or 0 for one of the joints.
point_words-read :
    (s : Scaling) (p : List ℕ) (zs : List ℤ) (time blend speed acceleration : ℕ) (t b v a : ℤ)
    (cartesian : Bool)
    → length zs ≡ 6
    → map (λ x. s.round_double x zoom) p ≡ map some zs
    → s.round_float speed zoom ≡ some v
    → s.round_float acceleration zoom ≡ some a
    → s.round_float time time_zoom ≡ some t
    → s.round_float blend zoom ≡ some b
    → All IsInt32 zs
    → All IsInt32 (v ∷ a ∷ t ∷ b ∷ [])
    → (ws : List ℕ) × (point_words s p time blend cartesian speed acceleration ≡ ok ws)
      × (unpack_array w32 21 (frame_of ws) 0
          ≡ ok (
            map int zs
                ++ (int v
                    ∷ int a
                    ∷ (replicate 10 0 ++ (int t ∷ int b ∷ (if cartesian then 1 else 0) ∷ []))),
            84,
          ))
unfolding point_words
point_words-read s p zs time blend speed acceleration t b v a cartesian six rounded ev ea et eb h
      ((v0, v1), ((a0, a1), ((t0, t1), ((b0, b1), _)))) =
    let kind : ℕ = if cartesian then 1 else 0 in
    let tail = int v ∷ int a ∷ (replicate 10 0 ++ (int t ∷ int b ∷ kind ∷ [])) in
    let ws = map int zs ++ tail in
    let size : length ws ≡ 21 = omega (arith, length-append (map int zs) tail, length-map zs) in
    let small : kind < 2 ^ 32 = ground arith in
    let ends : All (λ w. w < 2 ^ 32) (int t ∷ int b ∷ kind ∷ []) =
      (wrap-lt t, (wrap-lt b, (small, tt))) in
    let zeros : All (λ w. w < 2 ^ 32) (replicate 10 0) = ground arith in
    let fit : All (λ w. w < 2 ^ 32) ws =
      All-append (λ w. w < 2 ^ 32) (map int zs) tail (ints-fit zs)
        (
          wrap-lt v,
          (
            wrap-lt a,
            All-append (λ w. w < 2 ^ 32) (replicate 10 0) (int t ∷ int b ∷ kind ∷ []) zeros ends,
          ),
        ) in
    (
      ws,
      rw (
        rounded,
        all_int32_range zs h,
        ev,
        to_int32_range v v0 v1,
        ea,
        to_int32_range a a0 a1,
        et,
        to_int32_range t t0 t1,
        eb,
        to_int32_range b b0 b1,
      ),
      ap (λ n. unpack_array w32 n (frame_of ws) 0) (sym size)
          ∙ frame_of-read ws fit
          ∙ ap (λ n. ok (ws, n)) (omega (arith, size)),
    )
