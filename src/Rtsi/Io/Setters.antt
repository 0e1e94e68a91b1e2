-- ===== src/Rtsi/Io/Setters.antt =====
-- The setters of RtsiIOInterface. Each answers true without an input recipe.
use elite_robots_cs_sdk.Shared.{
  ℕ, ◌*◌, ◌%◌, ◌^◌, List, [], ◌∷◌, Bytes, Bool, true, false, Result, ok, fault, ◌>>=◌, codes, ltb,
  ◌==◌, if◌then◌else◌, none, some, ℤ, pos, negsuc,
}
use elite_robots_cs_sdk.Rtsi.Value.{Double, Arg, integer, real}
use elite_robots_cs_sdk.Rtsi.Io.{Interface, set_all}

-- The processor's difference and quotient of two doubles, on bit patterns.
pub record Arithmetic : Type 0 where
  pub sub : ℕ → ℕ → ℕ
  pub div : ℕ → ℕ → ℕ

abbrev pub if_input :
    (Interface → Result (Interface × Bool)) → Interface → Result (Interface × Bool)
if_input f s = elim s.input_recipe [ none ↦ ok (s, true) | some r ↦ f s ]

abbrev pub bit_of : Bool → ℕ
bit_of level = if level then 1 else 0

-- `v << index` of an int that is 0 or 1, kept in an unsigned type of some width. An index that is
-- negative or at least 32 is undefined.
unfoldable pub shifted : ℕ → ℕ → ℤ → Result ℕ
shifted width v (pos i) = if ltb i 32 then ok (v * 2 ^ i % 2 ^ width) else fault
shifted width v (negsuc i) = fault

-- The body of the three digital setters: the mask, then the level.
unfoldable pub set_digital :
    Double → ℕ → Bytes → Bytes → ℤ → Bool → Interface → Result (Interface × Bool)
unfolding shifted set_all
set_digital d width mask_name name index level s = do
  mask ← shifted width 1 index
  digital ← shifted width (bit_of level) index
  set_all d ((mask_name, integer (pos mask)) ∷ (name, integer (pos digital)) ∷ []) s

unfoldable pub set_standard_digital : Double → ℤ → Bool → Interface → Result (Interface × Bool)
unfolding set_digital
set_standard_digital d index level = if_input (
    set_digital d 16 (codes "standard_digital_output_mask") (codes "standard_digital_output") index
      level)

unfoldable pub set_configure_digital : Double → ℤ → Bool → Interface → Result (Interface × Bool)
unfolding set_digital
set_configure_digital d index level = if_input (
    set_digital d 8 (codes "configurable_digital_output_mask") (codes "configurable_digital_output")
      index level)

unfoldable pub set_tool_digital_output : Double → ℤ → Bool → Interface → Result (Interface × Bool)
unfolding set_digital
set_tool_digital_output d index level =
    if_input
      (set_digital d 8 (codes "tool_digital_output_mask") (codes "tool_digital_output") index level)

unfoldable pub set_io_speed_scaling : Double → ℕ → Interface → Result (Interface × Bool)
unfolding set_all
set_io_speed_scaling d slider = if_input (
    set_all d (
      (codes "speed_slider_mask", integer (pos 1))
      ∷ (codes "speed_slider_fraction", real slider)
      ∷ []))

unfoldable pub set_external_force_torque : Double → List ℕ → Interface → Result (Interface × Bool)
unfolding set_all
set_external_force_torque d value =
    if_input (set_all d ((codes "external_force_torque", Arg.vector6d value) ∷ []))

abbrev pub is_int : ℕ → ℤ → Bool
is_int n (pos i) = i == n
is_int n (negsuc i) = false

-- The values of the two analog setters, in their order.
unfoldable pub analog_values : ℕ → ℤ → ℕ → List (Bytes × Arg)
analog_values type index level =
    (codes "standard_analog_output_type", integer (pos type))
    ∷ (if is_int 0 index
        then (codes "standard_analog_output_mask", integer (pos 1))
          ∷ (codes "standard_analog_output_0", real level)
          ∷ []
        else if is_int 1 index
        then (codes "standard_analog_output_mask", integer (pos 2))
          ∷ (codes "standard_analog_output_1", real level)
          ∷ []
        else (codes "standard_analog_output_mask", integer (pos 0)) ∷ [])

-- `uint8_t mask = 1 << index` comes first in both; its value is not used.
unfoldable pub set_analog : Double → ℕ → ℤ → ℕ → Interface → Result (Interface × Bool)
unfolding shifted set_all analog_values
set_analog d type index level s = do
  mask ← shifted 8 1 index
  set_all d (analog_values type index level) s

-- 4621819117588971520 is 10.0.
unfoldable pub set_analog_output_voltage :
    Arithmetic → Double → ℤ → ℕ → Interface → Result (Interface × Bool)
unfolding set_analog
set_analog_output_voltage a d index value =
    if_input (set_analog d 3 index (a.div value 4621819117588971520))

-- 4571261708172110332 is 0.004, and 4581421828931458171 is 0.02.
unfoldable pub set_analog_output_current :
    Arithmetic → Double → ℤ → ℕ → Interface → Result (Interface × Bool)
unfolding set_analog
set_analog_output_current a d index value = if_input (
    set_analog d 0 index
      (a.div (a.sub value 4571261708172110332) (a.sub 4581421828931458171 4571261708172110332)))
