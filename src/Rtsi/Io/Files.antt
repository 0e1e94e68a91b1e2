-- ===== src/Rtsi/Io/Files.antt =====
-- `readRecipe`, and the constructor of RtsiIOInterface from two files.
use mathlib.Core.List.{append_assoc, append-nil}
use elite_robots_cs_sdk.Shared.{
  ℕ, ◌≡◌, refl, sym, ap, ◌∙◌, List, [], ◌∷◌, ◌++◌, Bytes, Bool, false, Option, none, some, Result,
  ok, throws, ◌>>=◌, file_open_fail, if◌then◌else◌, ◌==◌, All,
}
use elite_robots_cs_sdk.Rtsi.Client.Monad.{Client}
use elite_robots_cs_sdk.Rtsi.Client.Requests.{Words4}
use elite_robots_cs_sdk.Rtsi.Io.{Interface}
use elite_robots_cs_sdk.Rtsi.Io.Life.{new_interface}

-- `std::getline` until it fails: the bytes of the line that is being read, and those of the file. At the
-- end of the file a line is only there if it has a byte.
unfoldable get_lines : Bytes → Bytes → List Bytes
get_lines [] [] = []
get_lines (c ∷ line) [] = (c ∷ line) ∷ []
get_lines line (c ∷ file) =
    let later = get_lines [] file in
    let inside = get_lines (line ++ (c ∷ [])) file in if c == 10 then line ∷ later else inside

-- The name of the file, and what it has; `none` where it cannot be opened.
unfoldable read_recipe : Bytes → Option Bytes → Result (List Bytes)
unfolding get_lines
read_recipe [] file = ok []
read_recipe (c ∷ name) none = throws file_open_fail
read_recipe (c ∷ name) (some []) = throws file_open_fail
read_recipe (c ∷ name) (some (b ∷ file)) = ok (get_lines [] (b ∷ file))

-- The constructor. The input recipe is the member that is declared first, and its file is read first.
unfoldable interface_from_files :
    Bytes → Bytes → (Bytes → Option Bytes) → ℕ → Client → Words4 → Bool → Result Interface
unfolding read_recipe new_interface
interface_from_files output_file input_file files frequency client version alive = do
  inputs ← read_recipe input_file (files input_file)
  outputs ← read_recipe output_file (files output_file)
  ok (new_interface outputs inputs frequency client version alive)

-- The text of a file, a line for each name.
abbrev lines_of : List Bytes → Bytes
lines_of [] = []
lines_of (name ∷ names) = name ++ (10 ∷ lines_of names)

get_lines-line :
    (line name rest : Bytes)
    → All (λ c. (c == 10) ≡ false) name
    → get_lines line (name ++ (10 ∷ rest)) ≡ (line ++ name) ∷ get_lines [] rest
unfolding get_lines
get_lines-line [] [] rest h = refl
get_lines-line (l ∷ line) [] rest h = ap (λ x. x ∷ get_lines [] rest) (sym (append-nil (l ∷ line)))
get_lines-line [] (c ∷ name) rest (e, h) = rw e (get_lines-line (c ∷ []) name rest h)
get_lines-line (l ∷ line) (c ∷ name) rest (e, h) = rw e (
    get_lines-line ((l ∷ line) ++ (c ∷ [])) name rest h
    ∙ ap (λ x. (l ∷ x) ∷ get_lines [] rest) (append_assoc line (c ∷ []) name))

-- A file with a line for each name of a recipe, none of which has a newline, is read as these names; an
-- empty name is a name too.
get_lines-lines_of :
    (names : List Bytes)
    → All (λ name. All (λ c. (c == 10) ≡ false) name) names
    → get_lines [] (lines_of names) ≡ names
unfolding get_lines
get_lines-lines_of [] h = refl
get_lines-lines_of (name ∷ names) (h, hs) =
    get_lines-line [] name (lines_of names) h ∙ ap (λ x. name ∷ x) (get_lines-lines_of names hs)
