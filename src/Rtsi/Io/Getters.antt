-- ===== src/Rtsi/Io/Getters.antt =====
-- The getters of RtsiIOInterface: each reads one variable of the output recipe. An enumeration is the
-- pattern of its number.
pub mod Registers
use elite_robots_cs_sdk.Shared.{
  ℕ, List, [], ◌∷◌, ◌++◌, Bytes, Bool, false, ◌==◌, Option, none, some, Result, ok, fault, ◌>>=◌,
  codes, if◌then◌else◌, ℤ, pos, negsuc,
}
use elite_robots_cs_sdk.Rtsi.Value.{Kind, Value, kind}
use elite_robots_cs_sdk.Rtsi.Recipe.{zeros3, zeros6}
use elite_robots_cs_sdk.Rtsi.Io.{Interface, get_recipe_value}

abbrev pub value_or : Value → Option Value → Value
value_or default none = default
value_or default (some v) = v

-- The body of a getter: `getRecipeValue` into a variable that starts with the default.
unfoldable pub read : Value → Bytes → Interface → Result Value
unfolding get_recipe_value
read default name s = do found ← get_recipe_value (kind default) name s; ok (value_or default found)

-- Into a variable without a value: where nothing is found, the variable is read all the same.
unfoldable pub read_unset : Kind → Bytes → Interface → Result Value
unfolding get_recipe_value
read_unset k name s = do
  found ← get_recipe_value k name s
  elim found [ none ↦ fault | some v ↦ ok v ]

abbrev is_index : ℕ → ℤ → Bool
is_index n (pos i) = i == n
is_index n (negsuc i) = false

unfoldable pub get_timestamp : Interface → Result Value
unfolding read
get_timestamp = read (Value.double 0) (codes "timestamp")

unfoldable pub get_payload_mass : Interface → Result Value
unfolding read
get_payload_mass = read (Value.double 0) (codes "payload_mass")

unfoldable pub get_target_joint_positions : Interface → Result Value
unfolding read
get_target_joint_positions = read (Value.vector6d zeros6) (codes "target_joint_positions")

unfoldable pub get_script_control_line : Interface → Result Value
unfolding read
get_script_control_line = read (Value.uint32 0) (codes "script_control_line")

unfoldable pub get_target_joint_velocity : Interface → Result Value
unfolding read
get_target_joint_velocity = read (Value.vector6d zeros6) (codes "target_joint_speeds")

unfoldable pub get_actual_joint_positions : Interface → Result Value
unfolding read
get_actual_joint_positions = read (Value.vector6d zeros6) (codes "actual_joint_positions")

unfoldable pub get_actual_joint_torques : Interface → Result Value
unfolding read
get_actual_joint_torques = read (Value.vector6d zeros6) (codes "actual_joint_torques")

unfoldable pub get_actual_joint_velocity : Interface → Result Value
unfolding read
get_actual_joint_velocity = read (Value.vector6d zeros6) (codes "actual_joint_speeds")

unfoldable pub get_actual_joint_current : Interface → Result Value
unfolding read
get_actual_joint_current = read (Value.vector6d zeros6) (codes "actual_joint_current")

unfoldable pub get_actual_joint_temperatures : Interface → Result Value
unfolding read
get_actual_joint_temperatures = read (Value.vector6d zeros6) (codes "joint_temperatures")

unfoldable pub get_acutal_tcp_pose : Interface → Result Value
unfolding read
get_acutal_tcp_pose = read (Value.vector6d zeros6) (codes "actual_TCP_pose")

unfoldable pub get_actual_tcp_pose : Interface → Result Value
unfolding read
get_actual_tcp_pose = read (Value.vector6d zeros6) (codes "actual_TCP_pose")

unfoldable pub get_acutal_tcp_velocity : Interface → Result Value
unfolding read
get_acutal_tcp_velocity = read (Value.vector6d zeros6) (codes "actual_TCP_speed")

unfoldable pub get_actual_tcp_velocity : Interface → Result Value
unfolding read
get_actual_tcp_velocity = read (Value.vector6d zeros6) (codes "actual_TCP_speed")

unfoldable pub get_acutal_tcp_force : Interface → Result Value
unfolding read
get_acutal_tcp_force = read (Value.vector6d zeros6) (codes "actual_TCP_force")

unfoldable pub get_actual_tcp_force : Interface → Result Value
unfolding read
get_actual_tcp_force = read (Value.vector6d zeros6) (codes "actual_TCP_force")

unfoldable pub get_target_tcp_pose : Interface → Result Value
unfolding read
get_target_tcp_pose = read (Value.vector6d zeros6) (codes "target_TCP_pose")

unfoldable pub get_target_tcp_velocity : Interface → Result Value
unfolding read
get_target_tcp_velocity = read (Value.vector6d zeros6) (codes "target_TCP_speed")

unfoldable pub get_digital_input_bits : Interface → Result Value
unfolding read
get_digital_input_bits = read (Value.uint32 0) (codes "actual_digital_input_bits")

unfoldable pub get_digital_output_bits : Interface → Result Value
unfolding read
get_digital_output_bits = read (Value.uint32 0) (codes "actual_digital_output_bits")

unfoldable pub get_robot_mode : Interface → Result Value
unfolding read
get_robot_mode = read (Value.int32 0) (codes "robot_mode")

unfoldable pub get_safety_status : Interface → Result Value
unfolding read
get_safety_status = read (Value.int32 0) (codes "safety_status")

unfoldable pub get_actual_speed_scaling : Interface → Result Value
unfolding read
get_actual_speed_scaling = read (Value.double 0) (codes "speed_scaling")

unfoldable pub get_target_speed_scaling : Interface → Result Value
unfolding read
get_target_speed_scaling = read (Value.double 0) (codes "target_speed_fraction")

unfoldable pub get_robot_voltage : Interface → Result Value
unfolding read
get_robot_voltage = read (Value.double 0) (codes "actual_robot_voltage")

unfoldable pub get_robot_current : Interface → Result Value
unfolding read
get_robot_current = read (Value.double 0) (codes "actual_robot_current")

unfoldable pub get_runtime_state : Interface → Result Value
unfolding read
get_runtime_state = read (Value.uint32 0) (codes "runtime_state")

unfoldable pub get_elbow_position : Interface → Result Value
unfolding read
get_elbow_position = read (Value.vector3d zeros3) (codes "elbow_position")

unfoldable pub get_elbow_velocity : Interface → Result Value
unfolding read
get_elbow_velocity = read (Value.vector3d zeros3) (codes "elbow_velocity")

unfoldable pub get_robot_status : Interface → Result Value
unfolding read
get_robot_status = read (Value.uint32 0) (codes "robot_status_bits")

unfoldable pub get_safety_status_bits : Interface → Result Value
unfolding read
get_safety_status_bits = read (Value.uint32 0) (codes "safety_status_bits")

unfoldable pub get_analog_io_types : Interface → Result Value
unfolding read
get_analog_io_types = read (Value.uint32 0) (codes "analog_io_types")

unfoldable pub get_io_current : Interface → Result Value
unfolding read
get_io_current = read (Value.double 0) (codes "io_current")

unfoldable pub get_tool_mode : Interface → Result Value
unfolding read
get_tool_mode = read (Value.uint32 0) (codes "tool_mode")

unfoldable pub get_tool_analog_input_type : Interface → Result Value
unfolding read
get_tool_analog_input_type = read (Value.uint32 0) (codes "tool_analog_input_types")

unfoldable pub get_tool_analog_output_type : Interface → Result Value
unfolding read
get_tool_analog_output_type = read (Value.uint32 0) (codes "tool_analog_output_types")

unfoldable pub get_tool_analog_input : Interface → Result Value
unfolding read
get_tool_analog_input = read (Value.double 0) (codes "tool_analog_input")

unfoldable pub get_tool_analog_output : Interface → Result Value
unfolding read
get_tool_analog_output = read (Value.double 0) (codes "tool_analog_output")

unfoldable pub get_tool_output_voltage : Interface → Result Value
unfolding read
get_tool_output_voltage = read (Value.double 0) (codes "tool_output_voltage")

unfoldable pub get_tool_output_current : Interface → Result Value
unfolding read
get_tool_output_current = read (Value.double 0) (codes "tool_output_current")

unfoldable pub get_tool_output_temperature : Interface → Result Value
unfolding read
get_tool_output_temperature = read (Value.double 0) (codes "tool_temperature")

unfoldable pub get_tool_digital_mode : Interface → Result Value
unfolding read
get_tool_digital_mode = read (Value.uint8 0) (codes "tool_digital_mode")

unfoldable pub get_payload_cog : Interface → Result Value
unfolding read_unset
get_payload_cog = read_unset Kind.vector3d (codes "payload_cog")

unfoldable pub get_joint_mode : Interface → Result Value
unfolding read_unset
get_joint_mode = read_unset Kind.vector6int32 (codes "joint_mode")

unfoldable pub get_analog_input : ℤ → Interface → Result Value
unfolding read
get_analog_input index =
    read (Value.double 0)
      (if is_index 0 index then codes "standard_analog_input0" else codes "standard_analog_input1")

unfoldable pub get_analog_output : ℤ → Interface → Result Value
unfolding read
get_analog_output index =
    read (Value.double 0) (
      if is_index 0 index then codes "standard_analog_output0" else codes "standard_analog_output1")

-- Another index gives PUSH_PULL_MODE, which is 0.
unfoldable pub get_tool_digital_output_mode : ℤ → Interface → Result Value
unfolding read
get_tool_digital_output_mode index s =
    if is_index 0 index
    then read (Value.uint8 0) (codes "tool_digital0_mode") s
    else if is_index 1 index
    then read (Value.uint8 0) (codes "tool_digital1_mode") s
    else if is_index 2 index
    then read (Value.uint8 0) (codes "tool_digital2_mode") s
    else if is_index 3 index
    then read (Value.uint8 0) (codes "tool_digital3_mode") s
    else ok (Value.uint8 0)
