-- ===== src/Control/Frames.antt =====
-- The frames of ReverseInterface, TrajectoryInterface and ScriptCommandInterface.
use elite_robots_cs_sdk.Shared.{
  ℕ, ◌+◌, ◌-◌, ◌*◌, List, [], ◌∷◌, ◌++◌, Bytes, map, Bool, Option, none, some, Result, ok, ◌>>=◌,
  if◌then◌else◌, replicate, ℤ, pos, negsuc, wrap,
}
use elite_robots_cs_sdk.Control.Words.{htonl, memory, to_int32, all_int32}

-- The processor's conversions, on bit patterns: a number times a ratio, rounded or cut off. `none` is a
-- NaN or an infinity.
pub record Scaling : Type 0 where
  pub round_double : ℕ → ℕ → Option ℤ
  pub cut_double : ℕ → ℕ → Option ℤ
  pub round_float : ℕ → ℕ → Option ℤ

pub data ControlMode : Type 0 where
  stopped uninitialized idle servoj speedj trajectory speedl pose freedrive tool_in_contact :
      ControlMode

abbrev pub mode_value : ControlMode → ℤ
mode_value ControlMode.stopped = negsuc 1
mode_value ControlMode.uninitialized = negsuc 0
mode_value ControlMode.idle = pos 0
mode_value ControlMode.servoj = pos 1
mode_value ControlMode.speedj = pos 2
mode_value ControlMode.trajectory = pos 3
mode_value ControlMode.speedl = pos 4
mode_value ControlMode.pose = pos 5
mode_value ControlMode.freedrive = pos 6
mode_value ControlMode.tool_in_contact = pos 7

-- POS_ZOOM_RATIO and COMMON_ZOOM_RATIO, and TIME_ZOOM_RATIO.
abbrev pub zoom : ℕ
zoom = 1000000

abbrev pub time_zoom : ℕ
time_zoom = 1000

-- An int as a word.
abbrev pub int : ℤ → ℕ
int z = wrap 32 z

-- The frame of the words: each through `htonl`, then the array's memory.
abbrev pub frame_of : List ℕ → Bytes
frame_of ws = memory (map htonl ws)

-- The product of an int by a ratio above 0.
abbrev pub times : ℕ → ℤ → ℤ
times k (pos n) = pos (k * n)
times k (negsuc n) = negsuc (k * (n + 1) - 1)

-- `writeTrajectoryControlAction`, `writeFreedrive` and `stopControl`. The last leaves six words unset:
-- they are what the stack holds.
unfoldable pub action_words : ℤ → ℤ → ℤ → List ℕ
action_words action point_number timeout =
    int timeout
    ∷ int action
    ∷ int point_number
    ∷ 0
    ∷ 0
    ∷ 0
    ∷ 0
    ∷ int (mode_value ControlMode.trajectory)
    ∷ []

unfoldable pub freedrive_words : ℤ → ℤ → List ℕ
freedrive_words action timeout_ms =
    int timeout_ms ∷ int action ∷ 0 ∷ 0 ∷ 0 ∷ 0 ∷ 0 ∷ int (mode_value ControlMode.freedrive) ∷ []

unfoldable pub stop_words : List ℕ → List ℕ
stop_words stack = 0 ∷ (stack ++ (int (mode_value ControlMode.stopped) ∷ []))

-- `zeroFTSensor`, `endForceMode` and `setToolVoltage`, whose argument is 0, 12 or 24.
unfoldable pub sensor_words : List ℕ
sensor_words = 0 ∷ replicate 25 0

unfoldable pub end_force_words : List ℕ
end_force_words = 4 ∷ replicate 25 0

unfoldable pub voltage_words : ℕ → List ℕ
voltage_words vol = 2 ∷ int (pos (vol * zoom)) ∷ replicate 24 0

module _ (s : Scaling) where
  -- `writeJointCommand`: the words that stand in the frame. A null pointer sends zeros.
  unfoldable pub joint_words : Option (List ℕ) → ControlMode → ℤ → Result (List ℕ)
  unfolding all_int32
  joint_words none mode timeout = ok (int timeout ∷ (replicate 6 0 ++ (int (mode_value mode) ∷ [])))
  joint_words (some p) mode timeout = do
    ws ← all_int32 (map (λ x. s.round_double x zoom) p)
    ok (int timeout ∷ (ws ++ (int (mode_value mode) ∷ [])))

  -- `writeTrajectoryPoint`.
  unfoldable pub point_words : List ℕ → ℕ → ℕ → Bool → ℕ → ℕ → Result (List ℕ)
  unfolding all_int32 to_int32
  point_words positions time blend_radius cartesian speed acceleration = do
    ws ← all_int32 (map (λ x. s.round_double x zoom) positions)
    v ← to_int32 (s.round_float speed zoom)
    a ← to_int32 (s.round_float acceleration zoom)
    t ← to_int32 (s.round_float time time_zoom)
    b ← to_int32 (s.round_float blend_radius zoom)
    ok (ws ++ (v ∷ a ∷ (replicate 10 0 ++ (t ∷ b ∷ (if cartesian then 1 else 0) ∷ []))))

  -- `setPayload`.
  unfoldable pub payload_words : ℕ → List ℕ → Result (List ℕ)
  unfolding all_int32 to_int32
  payload_words mass cog = do
    m ← to_int32 (s.cut_double mass zoom)
    c ← all_int32 (map (λ x. s.cut_double x zoom) cog)
    ok (1 ∷ m ∷ (c ++ replicate 21 0))

  -- `startForceMode`. An element of the selection is an int32_t, and so is its product by the ratio.
  unfoldable pub force_words : List ℕ → List ℤ → List ℕ → ℕ → List ℕ → Result (List ℕ)
  unfolding all_int32
  force_words task_frame selection_vector wrench mode limits = do
    tf ← all_int32 (map (λ x. s.cut_double x zoom) task_frame)
    sv ← all_int32 (map (λ z. some (times zoom z)) selection_vector)
    wr ← all_int32 (map (λ x. s.cut_double x zoom) wrench)
    li ← all_int32 (map (λ x. s.cut_double x zoom) limits)
    ok (3 ∷ (tf ++ (sv ++ (wr ++ (mode ∷ li)))))
