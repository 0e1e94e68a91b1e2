-- ===== src/Driver/Braces.antt =====
-- Placeholders: names between double braces.
use mathlib.Core.List.{append_assoc}
use elite_robots_cs_sdk.Shared.{
  ◌≡◌, refl, ◌∙◌, [], ◌∷◌, ◌++◌, Bytes, Bool, true, false, not, ◌&&◌, ◌==◌, bytes_eq, arith, All,
}
use elite_robots_cs_sdk.Text.{begins}
use elite_robots_cs_sdk.Driver.Clean.{IsClean, IsClean-without}

unfoldable pub braced : Bytes → Bytes
braced name = 123 ∷ 123 ∷ (name ++ (125 ∷ 125 ∷ []))

-- A name without braces.
abbrev pub is_plain : Bytes → Bool
is_plain [] = true
is_plain (c ∷ name) = not (c == 123) && not (c == 125) && is_plain name

begins-closed :
    (n m rest : Bytes)
    → is_plain n ≡ true
    → is_plain m ≡ true
    → begins (n ++ (125 ∷ 125 ∷ [])) (m ++ (125 ∷ 125 ∷ rest)) ≡ bytes_eq n m
unfolding begins bytes_eq
begins-closed [] [] rest h k = refl
begins-closed [] (y ∷ m) rest h k = ground arith
begins-closed (x ∷ n) [] rest h k = ground arith
begins-closed (x ∷ n) (y ∷ m) rest h k = ground (arith, begins-closed n m rest)

-- A closed name has no opening brace.
closed_lacks :
    (m : Bytes) → is_plain m ≡ true → All (λ c. (123 == c) ≡ false) (m ++ (125 ∷ 125 ∷ []))
closed_lacks [] h = (refl, (refl, tt))
closed_lacks (c ∷ m) h = (ground arith, closed_lacks m (ground arith))

-- The second brace of a placeholder does not begin one.
second_brace :
    (n m rest : Bytes)
    → is_plain m ≡ true
    → begins (braced n) (123 ∷ (m ++ (125 ∷ 125 ∷ rest))) ≡ false
unfolding begins braced
second_brace n [] rest h = refl
second_brace n (c ∷ m) rest h = ground arith

-- Another placeholder is passed over.
pub braced-IsClean :
    (n m rest : Bytes)
    → is_plain n ≡ true
    → is_plain m ≡ true
    → bytes_eq n m ≡ false
    → IsClean (braced n) (braced m) rest
unfolding braced begins
braced-IsClean n m rest h k differs =
    let closed : (m ++ (125 ∷ 125 ∷ [])) ++ rest ≡ m ++ (125 ∷ 125 ∷ rest) =
      append_assoc m (125 ∷ 125 ∷ []) rest in
    (
      rw closed (begins-closed n m rest h k ∙ differs),
      (
        rw closed (second_brace n m rest k),
        IsClean-without 123 (123 ∷ (n ++ (125 ∷ 125 ∷ []))) (m ++ (125 ∷ 125 ∷ [])) rest
            (closed_lacks m k),
      ),
    )
