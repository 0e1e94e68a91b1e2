-- ===== src/Driver/Forward.antt =====
-- The calls of the driver that go on to one of its servers.
use elite_robots_cs_sdk.Shared.{ℕ, List, ℤ, Bool, Result, ok, throws, fault}
use elite_robots_cs_sdk.Server.{Server}
use elite_robots_cs_sdk.Control.Frames.{Scaling}
use elite_robots_cs_sdk.Control.Commands.{
  write_trajectory_control_action, write_freedrive, zero_ft_sensor, set_tool_voltage,
  end_force_mode, write_trajectory_point, set_payload, start_force_mode,
}
use elite_robots_cs_sdk.Driver.Session.{Act, on_reverse}

abbrev on_trajectory : (Bool → Server → Result (Bool × Server)) → Act Bool
on_trajectory command w = elim (command w.whole w.trajectory_server) [
  | ok (result, server) ↦ (ok result, record w { trajectory_server = server })
  | throws e ↦ (throws e, w)
  | fault ↦ (fault, w)
]

abbrev on_script_command : (Bool → Server → Result (Bool × Server)) → Act Bool
on_script_command command w = elim (command w.whole w.script_command_server) [
  | ok (result, server) ↦ (ok result, record w { script_command_server = server })
  | throws e ↦ (throws e, w)
  | fault ↦ (fault, w)
]

unfoldable trajectory_control_action : ℤ → ℤ → ℤ → Act Bool
unfolding write_trajectory_control_action
trajectory_control_action action point_number timeout =
    on_reverse (λ whole server.
      ok (write_trajectory_control_action action point_number timeout whole server))

unfoldable freedrive : ℤ → ℤ → Act Bool
unfolding write_freedrive
freedrive action timeout_ms =
    on_reverse (λ whole server. ok (write_freedrive action timeout_ms whole server))

unfoldable zero_sensor : Act Bool
unfolding zero_ft_sensor
zero_sensor = on_script_command (λ whole server. ok (zero_ft_sensor whole server))

unfoldable tool_voltage : ℕ → Act Bool
unfolding set_tool_voltage
tool_voltage vol = on_script_command (λ whole server. ok (set_tool_voltage vol whole server))

unfoldable force_mode_end : Act Bool
unfolding end_force_mode
force_mode_end = on_script_command (λ whole server. ok (end_force_mode whole server))

module _ (s : Scaling) where
  -- The overload with a time, and the one with a speed and an acceleration; what is not given is 0.
  unfoldable timed_point : List ℕ → ℕ → ℕ → Bool → Act Bool
  unfolding write_trajectory_point
  timed_point positions time blend_radius cartesian =
      on_trajectory (write_trajectory_point s positions time blend_radius cartesian 0 0)

  unfoldable fast_point : List ℕ → ℕ → Bool → ℕ → ℕ → Act Bool
  unfolding write_trajectory_point
  fast_point positions blend_radius cartesian speed acceleration =
      on_trajectory (write_trajectory_point s positions 0 blend_radius cartesian speed acceleration)

  unfoldable payload : ℕ → List ℕ → Act Bool
  unfolding set_payload
  payload mass cog = on_script_command (set_payload s mass cog)

  unfoldable force_mode : List ℕ → List ℤ → List ℕ → ℕ → List ℕ → Act Bool
  unfolding start_force_mode
  force_mode reference_frame selection_vector wrench mode limits =
      on_script_command (start_force_mode s reference_frame selection_vector wrench mode limits)
