-- ===== src/Text/Tests.antt =====
-- Runs of `splitString`, and its properties at concrete texts.
use elite_robots_cs_sdk.Shared.{◌≡◌, refl, List, [], ◌∷◌, Bytes, none, some, codes, All}
use elite_robots_cs_sdk.Text.{begins, find_first, split_fuel, split_string}
use elite_robots_cs_sdk.Text.Split.{join, split_string_total}
use elite_robots_cs_sdk.Text.Join.{split_fuel_diverges}

split_types :
    split_string (codes "UINT8,BOOL") (codes ",") ≡ some (codes "UINT8" ∷ codes "BOOL" ∷ [])
unfolding split_string
split_types = refl

split_dots : split_string (codes ".a.") (codes ".") ≡ some ([] ∷ codes "a" ∷ [] ∷ [])
unfolding split_string
split_dots = refl

split_string_total_example :
    (tokens : List Bytes) × (split_string (codes "a, b") (codes ", ") ≡ some tokens)
    × (join (codes ", ") tokens ≡ codes "a, b")
    × All (λ t. find_first (codes ", ") t ≡ none) tokens
split_string_total_example = split_string_total (codes "a, b") (codes ", ") (λ e. cc)

plain : All (λ u. find_first (b'.' ∷ []) u ≡ none) (codes "2" ∷ codes "11" ∷ [])
unfolding find_first begins
plain = (refl, (refl, tt))

split_fuel_diverges_example : split_fuel 100 (codes "2.11") [] ≡ none
split_fuel_diverges_example = split_fuel_diverges 100 (codes "2.11")
