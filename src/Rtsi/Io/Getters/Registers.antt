-- ===== src/Rtsi/Io/Getters/Registers.antt =====
-- The getters of the registers.
use elite_robots_cs_sdk.Shared.{◌++◌, false, Result, codes, ℤ}
use elite_robots_cs_sdk.Version.Decimal.{int_to_string}
use elite_robots_cs_sdk.Rtsi.Value.{Value}
use elite_robots_cs_sdk.Rtsi.Io.{Interface}
use elite_robots_cs_sdk.Rtsi.Io.Getters.{read}

unfoldable pub get_out_bool_registers_0_to_31 : Interface → Result Value
unfolding read
get_out_bool_registers_0_to_31 = read (Value.uint32 0) (codes "output_bit_registers0_to_31")

unfoldable pub get_out_bool_registers_32_to_63 : Interface → Result Value
unfolding read
get_out_bool_registers_32_to_63 = read (Value.uint32 0) (codes "output_bit_registers32_to_63")

unfoldable pub get_in_bool_registers_0_to_31 : Interface → Result Value
unfolding read
get_in_bool_registers_0_to_31 = read (Value.uint32 0) (codes "input_bit_registers0_to_31")

unfoldable pub get_in_bool_registers_32_to_63 : Interface → Result Value
unfolding read
get_in_bool_registers_32_to_63 = read (Value.uint32 0) (codes "input_bit_registers32_to_63")

unfoldable pub get_in_bool_register : ℤ → Interface → Result Value
unfolding read int_to_string
get_in_bool_register index =
    read (Value.bool false) (codes "input_bit_register" ++ int_to_string index)

unfoldable pub get_out_bool_register : ℤ → Interface → Result Value
unfolding read int_to_string
get_out_bool_register index =
    read (Value.bool false) (codes "output_bit_register" ++ int_to_string index)

unfoldable pub get_in_int_register : ℤ → Interface → Result Value
unfolding read int_to_string
get_in_int_register index = read (Value.int32 0) (codes "input_int_register" ++ int_to_string index)

unfoldable pub get_out_int_register : ℤ → Interface → Result Value
unfolding read int_to_string
get_out_int_register index =
    read (Value.int32 0) (codes "output_int_register" ++ int_to_string index)

unfoldable pub get_in_double_register : ℤ → Interface → Result Value
unfolding read int_to_string
get_in_double_register index =
    read (Value.double 0) (codes "input_double_register" ++ int_to_string index)

unfoldable pub get_out_double_register : ℤ → Interface → Result Value
unfolding read int_to_string
get_out_double_register index =
    read (Value.double 0) (codes "output_double_register" ++ int_to_string index)
