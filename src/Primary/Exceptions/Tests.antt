-- ===== src/Primary/Exceptions/Tests.antt =====
-- The exception parser at a concrete message.
use elite_robots_cs_sdk.Shared.{◌≡◌, refl, codes, some, ok, arith}
use elite_robots_cs_sdk.Primary.Exceptions.{RobotException, Data, robot_error, parser_exception}
use elite_robots_cs_sdk.Primary.Exceptions.RoundTrip.{exception_bytes, parser_exception-bytes}

abbrev joint_error : RobotException
joint_error = robot_error 1000 12 3 120 2 5 (Data.string (codes "joint"))

parser_exception-bytes_example :
    parser_exception (exception_bytes 0 joint_error) ≡ ok (some joint_error)
parser_exception-bytes_example =
    parser_exception-bytes 0 joint_error
      (omega arith, omega arith, omega arith, omega arith, omega arith, refl)
