-- ===== src/Text.antt =====
-- source/Common/StringUtils.cpp, and what the SDK uses of std::string (a list of bytes).
pub mod Split
pub mod Join
mod Tests
use elite_robots_cs_sdk.Shared.{
  ℕ, zero, suc, ◌+◌, ◌-◌, List, [], ◌∷◌, ◌++◌, Bytes, Option, none, some, Bool, true, false, ◌&&◌,
  ◌==◌, leb, if◌then◌else◌, length, take, drop,
}

-- Whether a text begins with another.
unfoldable pub begins : Bytes → Bytes → Bool
begins [] s = true
begins (d ∷ ds) [] = false
begins (d ∷ ds) (x ∷ s) = d == x && begins ds s

abbrev pub next_pos : Option ℕ → Option ℕ
next_pos none = none
next_pos (some i) = some (suc i)

-- `s.find(needle)`: the first position where the needle stands; `none` is npos.
unfoldable pub find_first : Bytes → Bytes → Option ℕ
unfolding begins
find_first needle [] = if begins needle [] then some 0 else none
find_first needle (x ∷ s) = if begins needle (x ∷ s) then some 0 else next_pos (find_first needle s)

abbrev pub shift_pos : ℕ → Option ℕ → Option ℕ
shift_pos start none = none
shift_pos start (some i) = some (start + i)

-- `s.find(needle, start)`.
unfoldable pub find : Bytes → Bytes → ℕ → Option ℕ
find needle s start =
    if leb start (length s) then shift_pos start (find_first needle (drop start s)) else none

-- `s.substr(start, count)`, for a start in range.
abbrev pub substr : Bytes → ℕ → ℕ → Bytes
substr s start count = take count (drop start s)

-- The loop of `splitString`; `none` means that the fuel ran out.
unfoldable pub split_loop : ℕ → Bytes → Bytes → ℕ → Option ℕ → List Bytes → Option (List Bytes)
split_loop fuel input delimiter start none tokens = some (tokens ++ (drop start input ∷ []))
split_loop zero input delimiter start (some end) tokens = none
split_loop (suc fuel) input delimiter start (some end) tokens =
    split_loop fuel input delimiter (end + length delimiter)
      (find delimiter input (end + length delimiter))
      (tokens ++ (substr input start (end - start) ∷ []))

unfoldable pub split_fuel : ℕ → Bytes → Bytes → Option (List Bytes)
unfolding split_loop find find_first
split_fuel fuel input delimiter = split_loop fuel input delimiter 0 (find delimiter input 0) []

-- `splitString`. A round takes one byte of the input at least, unless the delimiter is empty.
unfoldable pub split_string : Bytes → Bytes → Option (List Bytes)
unfolding split_fuel
split_string input delimiter = split_fuel (suc (length input)) input delimiter
