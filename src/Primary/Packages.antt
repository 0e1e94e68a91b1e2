-- ===== src/Primary/Packages.antt =====
-- The sub-packages of the robot's state message (source/Primary/PrimaryStatePackage.cpp,
-- source/Primary/RobotConfPackage.cpp) and their parsers.
use elite_robots_cs_sdk.Shared.{
  ℕ, ◌+◌, List, Bytes, Bool, not, Result, ok, ◌>>=◌, >>=-eq-ok, ◌≡◌, ltb, ◌==◌, if◌then◌else◌, drop,
  ℤ, pos,
}
use elite_robots_cs_sdk.Endian.{at, unpack, unpack_array, w64}

-- A mode is its number; UNKNOWN is -2. A double is its bit pattern.
pub record RobotModeData : Type 0 where
  pub timestamp : ℕ
  pub is_robot_power_on : Bool
  pub is_emergency_stopped : Bool
  pub is_robot_protective_stopped : Bool
  pub is_task_running : Bool
  pub is_task_paused : Bool
  pub robot_mode : ℤ
  pub robot_control_mode : ℕ
  pub target_speed_fraction : ℕ
  pub speed_scaling : ℕ
  pub target_speed_fraction_limit : ℕ
  pub robot_speed_mode : ℕ
  pub is_in_package_mode : Bool

pub record MasterBoardData : Type 0 where
  pub safety_mode : ℤ
  pub is_robot_in_reduced_mode : Bool
  pub operational_mode_selector_input : Bool
  pub threeposition_enabling_device_input : Bool
  pub internal_use : ℕ

pub record KinematicsInfo : Type 0 where
  pub dh_a : List ℕ
  pub dh_d : List ℕ
  pub dh_alpha : List ℕ

abbrev pub flag : Bytes → ℕ → Result Bool
flag iter offset = at iter offset >>= λ b. ok (not (b == 0))

-- `RobotModeDataPackage::parser`. The bytes are those from the iterator to the end of the message.
unfoldable pub robot_mode_parser : ℕ → Bytes → RobotModeData → Result RobotModeData
robot_mode_parser len iter d = if ltb len 53 then ok d else do
  timestamp ← unpack w64 (drop 5 iter)
  power_on ← flag iter 15
  emergency ← flag iter 16
  protective ← flag iter 17
  running ← flag iter 18
  paused ← flag iter 19
  mode ← at iter 20
  control ← at iter 21
  target ← unpack w64 (drop 22 iter)
  scaling ← unpack w64 (drop 30 iter)
  limit ← unpack w64 (drop 38 iter)
  speed_mode ← at iter 46
  package_mode ← flag iter 48
  ok (record {
    timestamp = timestamp;
    is_robot_power_on = power_on;
    is_emergency_stopped = emergency;
    is_robot_protective_stopped = protective;
    is_task_running = running;
    is_task_paused = paused;
    robot_mode = pos mode;
    robot_control_mode = control;
    target_speed_fraction = target;
    speed_scaling = scaling;
    target_speed_fraction_limit = limit;
    robot_speed_mode = speed_mode;
    is_in_package_mode = package_mode;
  })

-- MASTER_BOARD_DATA_STATUS_OFFSET.
abbrev pub status_offset : ℕ
status_offset = 4 + 1 + 4 + 4 + 3 + 24 + 3 + 24 + 16

-- `MasterBoardDataPackage::parser`.
unfoldable pub master_board_parser : ℕ → Bytes → MasterBoardData → Result MasterBoardData
master_board_parser len iter d = if ltb len (status_offset + 5) then ok d else do
  safety ← at iter status_offset
  reduced ← flag iter (status_offset + 1)
  selector ← flag iter (status_offset + 2)
  enabling ← flag iter (status_offset + 3)
  internal ← at iter (status_offset + 4)
  ok (record {
    safety_mode = pos safety;
    is_robot_in_reduced_mode = reduced;
    operational_mode_selector_input = selector;
    threeposition_enabling_device_input = enabling;
    internal_use = internal;
  })

-- DH_PARAM_OFFSET.
abbrev pub dh_param_offset : ℕ
dh_param_offset = 4 + 1 + 96 + 96 + 40

-- `KinematicsInfo::parser`, which does not look at the length.
unfoldable pub kinematics_parser : ℕ → Bytes → KinematicsInfo → Result KinematicsInfo
kinematics_parser len iter d = do
  (a, o1) ← unpack_array w64 6 iter dh_param_offset
  (dh_d, o2) ← unpack_array w64 6 iter o1
  (alpha, o3) ← unpack_array w64 6 iter o2
  ok (record { dh_a = a; dh_d = dh_d; dh_alpha = alpha })

-- The classes that derive from PrimaryPackage.
pub data Contents : Type 0 where
  robot_mode_data : RobotModeData → Contents
  master_board_data : MasterBoardData → Contents
  kinematics_info : KinematicsInfo → Contents

-- `getType`.
abbrev pub get_type : Contents → ℕ
get_type (robot_mode_data _) = 0
get_type (master_board_data _) = 3
get_type (kinematics_info _) = 6

unfoldable pub parser : ℕ → Bytes → Contents → Result Contents
unfolding robot_mode_parser master_board_parser kinematics_parser
parser len iter (robot_mode_data d) = robot_mode_parser len iter d >>= λ d'. ok (robot_mode_data d')
parser len iter (master_board_data d) =
    master_board_parser len iter d >>= λ d'. ok (master_board_data d')
parser len iter (kinematics_info d) = kinematics_parser len iter d >>= λ d'. ok (kinematics_info d')

-- The parser does not change the class.
pub get_type-parser :
    (len : ℕ) (iter : Bytes) (d d' : Contents)
    → parser len iter d ≡ ok d'
    → get_type d' ≡ get_type d
unfolding parser
get_type-parser len iter (robot_mode_data d) d' h =
    let (x, e, f) = >>=-eq-ok (robot_mode_parser len iter d) (λ x. ok (robot_mode_data x)) h in cc
get_type-parser len iter (master_board_data d) d' h =
    let (x, e, f) = >>=-eq-ok (master_board_parser len iter d) (λ x. ok (master_board_data x)) h in
    cc
get_type-parser len iter (kinematics_info d) d' h =
    let (x, e, f) = >>=-eq-ok (kinematics_parser len iter d) (λ x. ok (kinematics_info x)) h in cc
