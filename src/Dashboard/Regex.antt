-- ===== src/Dashboard/Regex.antt =====
-- What DashboardClient uses of std::regex: patterns of characters, `.`, `.*`, `\s*`, groups and
-- alternatives, in the ECMAScript grammar.
use elite_robots_cs_sdk.Shared.{
  ℕ, ◌-◌, List, [], ◌∷◌, ◌++◌, Bytes, Bool, true, false, not, ◌&&◌, ◌||◌, Option, none, some, ◌==◌,
  leb, if◌then◌else◌, length, take,
}

-- A character; `.`, which is no line terminator; and `\s`.
pub data Class : Type 0 where
  exactly : ℕ → Class
  dot : Class
  space : Class

unfoldable pub in_class : Class → ℕ → Bool
in_class (exactly c) x = x == c
in_class dot x = not (x == 10 || x == 13)
in_class space x = x == 32 || (leb 9 x && leb x 13)

pub data Pattern : Type 0 where
  empty : Pattern
  one : Class → Pattern
  many : Class → Pattern
  seq : Pattern → Pattern → Pattern
  either : Pattern → Pattern → Pattern

-- The characters at the front that are taken, as many as there are first.
unfoldable pub many_rests : Class → Bytes → List Bytes
unfolding in_class
many_rests k [] = [] ∷ []
many_rests k (x ∷ s) =
    let more = many_rests k s in if in_class k x then more ++ ((x ∷ s) ∷ []) else (x ∷ s) ∷ []

abbrev pub one_rest : Class → Bytes → List Bytes
one_rest k [] = []
one_rest k (x ∷ s) = if in_class k x then s ∷ [] else []

abbrev pub gather : (Bytes → List Bytes) → List Bytes → List Bytes
gather f [] = []
gather f (s ∷ ss) = f s ++ gather f ss

-- What a match at the front of a text can leave of it, the preferred way first.
unfoldable pub rests : Pattern → Bytes → List Bytes
unfolding many_rests
rests empty s = s ∷ []
rests (one k) s = one_rest k s
rests (many k) s = many_rests k s
rests (seq p q) s = gather (rests q) (rests p s)
rests (either p q) s = rests p s ++ rests q s

abbrev pub has_empty : List Bytes → Bool
has_empty [] = false
has_empty ([] ∷ ss) = true
has_empty (s ∷ ss) = has_empty ss

-- `std::regex_match`.
unfoldable pub regex_match : Bytes → Pattern → Bool
unfolding rests
regex_match s p = has_empty (rests p s)

abbrev pub first_match : Bytes → List Bytes → Option Bytes → Option Bytes
first_match s [] later = later
first_match s (rest ∷ ss) later = some (take (length s - length rest) s)

-- `std::regex_search`, and the text `match[0]` that it finds.
unfoldable pub regex_search : Bytes → Pattern → Option Bytes
unfolding rests
regex_search [] p = first_match [] (rests p []) none
regex_search (x ∷ s) p = first_match (x ∷ s) (rests p (x ∷ s)) (regex_search s p)

-- The pattern of a plain text, followed by another.
abbrev pub literal : Bytes → Pattern → Pattern
literal [] p = p
literal (c ∷ cs) p = seq (one (exactly c)) (literal cs p)

abbrev pub text : Bytes → Pattern
text cs = literal cs empty
