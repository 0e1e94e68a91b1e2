-- ===== src/Control/Commands.antt =====
-- The commands of ReverseInterface, TrajectoryInterface and ScriptCommandInterface: each writes its
-- frame to the client of its server (`ReversePort::write` of include/Control/ReversePort.hpp).
use elite_robots_cs_sdk.Shared.{
  ℕ, ◌*◌, ◌≡◌, ap, ◌∙◌, List, [], ◌∷◌, ◌++◌, Bytes, map, Bool, true, false, Option, some, Result,
  ok, ◌>>=◌, ltb, length, All, ℤ, pos, negsuc, arith, lt→ltb,
}
use elite_robots_cs_sdk.Endian.{unpack_array, w32}
use elite_robots_cs_sdk.Endian.RoundTrip.{length-pack_array}
use elite_robots_cs_sdk.Server.{Server, update, write_client}
use elite_robots_cs_sdk.Control.Words.{memory-htonl}
use elite_robots_cs_sdk.Control.Frames.{
  Scaling, ControlMode, mode_value, zoom, int, frame_of, joint_words, action_words, freedrive_words,
  stop_words, point_words, sensor_words, payload_words, voltage_words, force_words, end_force_words,
}
use elite_robots_cs_sdk.Control.Reads.{IsInt32, joint_words-range, frame_of-joint_frame}

abbrev pub is_positive : ℤ → Bool
is_positive (pos n) = ltb 0 n
is_positive (negsuc n) = false

-- `write(data, sizeof(data)) > 0`.
unfoldable pub write_words : List ℕ → Bool → Server → Bool × Server
unfolding write_client
write_words ws whole server = (
  is_positive (write_client (frame_of ws) whole server).0,
  (write_client (frame_of ws) whole server).1,
)

abbrev pub write_if : Result (List ℕ) → Bool → Server → Result (Bool × Server)
unfolding write_words
write_if words whole server = words >>= λ ws. ok (write_words ws whole server)

unfoldable pub write_trajectory_control_action : ℤ → ℤ → ℤ → Bool → Server → Bool × Server
unfolding write_words action_words
write_trajectory_control_action action point_number timeout =
    write_words (action_words action point_number timeout)

unfoldable pub write_freedrive : ℤ → ℤ → Bool → Server → Bool × Server
unfolding write_words freedrive_words
write_freedrive action timeout_ms = write_words (freedrive_words action timeout_ms)

unfoldable pub stop_control : List ℕ → Bool → Server → Bool × Server
unfolding write_words stop_words
stop_control stack = write_words (stop_words stack)

unfoldable pub zero_ft_sensor : Bool → Server → Bool × Server
unfolding write_words sensor_words
zero_ft_sensor = write_words sensor_words

unfoldable pub set_tool_voltage : ℕ → Bool → Server → Bool × Server
unfolding write_words voltage_words
set_tool_voltage vol = write_words (voltage_words vol)

unfoldable pub end_force_mode : Bool → Server → Bool × Server
unfolding write_words end_force_words
end_force_mode = write_words end_force_words

module _ (s : Scaling) where
  unfoldable pub write_joint_command :
      Option (List ℕ) → ControlMode → ℤ → Bool → Server → Result (Bool × Server)
  unfolding write_if joint_words
  write_joint_command p mode timeout = write_if (joint_words s p mode timeout)

  unfoldable pub write_trajectory_point :
      List ℕ → ℕ → ℕ → Bool → ℕ → ℕ → Bool → Server → Result (Bool × Server)
  unfolding write_if point_words
  write_trajectory_point positions time blend_radius cartesian speed acceleration =
      write_if (point_words s positions time blend_radius cartesian speed acceleration)

  unfoldable pub set_payload : ℕ → List ℕ → Bool → Server → Result (Bool × Server)
  unfolding write_if payload_words
  set_payload mass cog = write_if (payload_words s mass cog)

  unfoldable pub start_force_mode :
      List ℕ → List ℤ → List ℕ → ℕ → List ℕ → Bool → Server → Result (Bool × Server)
  unfolding write_if force_words
  start_force_mode task_frame selection_vector wrench mode limits =
      write_if (force_words s task_frame selection_vector wrench mode limits)

length-frame_of : (ws : List ℕ) → length (frame_of ws) ≡ 4 * length ws
length-frame_of ws = ap length (memory-htonl ws) ∙ length-pack_array w32 ws

-- Words, at least one, that are written to a client who is there: the result is true, and the client
-- has their frame behind what it had.
pub write_words-open :
    (w : ℕ) (ws : List ℕ) (k : ℕ) (server : Server)
    → server.socket ≡ some k
    → server.is_open k ≡ true
    → write_words (w ∷ ws) true server
      ≡ (true, record server { sent = update k (server.sent k ++ frame_of (w ∷ ws)) server.sent })
unfolding write_words write_client
write_words-open w ws k server e f =
    let some_bytes : ltb 0 (length (frame_of (w ∷ ws))) ≡ true =
      lt→ltb 0 (length (frame_of (w ∷ ws))) (omega (arith, length-frame_of (w ∷ ws))) in
    rw (e, f, some_bytes)

-- `writeJointCommand` to a client who is there, where the system takes the bytes and the six scaled
-- positions round to integers in range: the result is true, and the client gets, behind what it had,
-- bytes that read as the timeout, the positions and the mode.
pub write_joint_command-sent :
    (s : Scaling) (p : List ℕ) (zs : List ℤ) (mode : ControlMode) (timeout : ℤ) (k : ℕ)
    (server : Server)
    → length zs ≡ 6
    → map (λ x. s.round_double x zoom) p ≡ map some zs
    → All IsInt32 zs
    → server.socket ≡ some k
    → server.is_open k ≡ true
    → (bytes : Bytes) × (write_joint_command s (some p) mode timeout true server
        ≡ ok (true, record server { sent = update k (server.sent k ++ bytes) server.sent }))
      × (unpack_array w32 8 bytes 0
          ≡ ok (int timeout ∷ (map int zs ++ (int (mode_value mode) ∷ [])), 32))
unfolding write_joint_command
write_joint_command-sent s p zs mode timeout k server six rounded h e f =
    let words = map int zs ++ (int (mode_value mode) ∷ []) in
    (
      frame_of (int timeout ∷ words),
      ap (λ ws. write_if ws true server) (joint_words-range s p zs mode timeout rounded h)
          ∙ ap ok (write_words-open (int timeout) words k server e f),
      frame_of-joint_frame zs mode timeout six,
    )
