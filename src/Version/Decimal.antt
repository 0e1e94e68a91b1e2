-- ===== src/Version/Decimal.antt =====
-- `std::to_string` of a uint32_t, and `std::stoi`.
use elite_robots_cs_sdk.Shared.{
  ℕ, zero, suc, ◌+◌, ◌-◌, ◌*◌, ◌/◌, ◌%◌, [], ◌∷◌, ◌++◌, Bytes, Bool, false, ◌&&◌, ◌||◌, Result, ok,
  throws, ltb, leb, ◌==◌, if◌then◌else◌, ℤ, pos, negsuc, invalid_argument, out_of_range,
}

-- The decimal digits, at most as many as the first number says.
unfoldable pub digits : ℕ → ℕ → Bytes
digits zero n = []
digits (suc count) n =
    let higher = digits count (n / 10) in
    if ltb n 10 then (48 + n) ∷ [] else higher ++ ((48 + n % 10) ∷ [])

-- A uint32_t has at most ten.
unfoldable pub u32_to_string : ℕ → Bytes
u32_to_string n = digits 10 n

abbrev pub is_digit : ℕ → Bool
is_digit c = leb 48 c && leb c 57

abbrev pub is_space : ℕ → Bool
is_space c = c == 32 || (leb 9 c && leb c 13)

-- The digits at the front, read behind a number.
unfoldable pub value_from : ℕ → Bytes → ℕ
value_from n [] = n
value_from n (c ∷ s) =
    let longer = value_from (10 * n + (c - 48)) s in if is_digit c then longer else n

abbrev pub starts_with_digit : Bytes → Bool
starts_with_digit [] = false
starts_with_digit (c ∷ s) = is_digit c

-- The number without its sign, which must have a digit and fit an int.
unfoldable pub stoi_positive : Bytes → Result ℤ
unfolding value_from
stoi_positive s =
    if starts_with_digit s
    then (if ltb (value_from 0 s) 2147483648
        then ok (pos (value_from 0 s))
        else throws out_of_range)
    else throws invalid_argument

abbrev pub negative : ℕ → ℤ
negative zero = pos 0
negative (suc n) = negsuc n

unfoldable pub stoi_negative : Bytes → Result ℤ
unfolding value_from
stoi_negative s =
    if starts_with_digit s
    then (if leb (value_from 0 s) 2147483648
        then ok (negative (value_from 0 s))
        else throws out_of_range)
    else throws invalid_argument

unfoldable pub stoi_signed : Bytes → Result ℤ
unfolding stoi_positive stoi_negative
stoi_signed [] = throws invalid_argument
stoi_signed (c ∷ s) =
    if c == 45
    then stoi_negative s
    else (if c == 43 then stoi_positive s else stoi_positive (c ∷ s))

-- `std::stoi`: white space first, then a sign, then digits; what follows them is ignored.
unfoldable pub stoi : Bytes → Result ℤ
unfolding stoi_signed
stoi [] = throws invalid_argument
stoi (c ∷ s) = let behind = stoi s in if is_space c then behind else stoi_signed (c ∷ s)

-- `std::to_string` of an int, which has ten digits at most.
unfoldable pub int_to_string : ℤ → Bytes
unfolding digits
int_to_string (pos n) = digits 10 n
int_to_string (negsuc n) = b'-' ∷ digits 10 (suc n)
