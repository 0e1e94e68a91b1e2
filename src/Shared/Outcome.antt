-- ===== src/Shared/Outcome.antt =====
-- How a call of the SDK ends. include/Elite/EliteException.hpp has the codes; only those that the
-- modelled code throws are constructors.
use mathlib.Core.Path.{◌≡◌, refl}
use mathlib.Core.Option.{Option, none, some}

pub data Code : Type 0 where
  socket_connect_fail socket_fail : Code
  rtsi_unknow_variable_type rtsi_recipe_parser_fail file_open_fail : Code
  dashboard_not_expect_recive illegal_param : Code
  -- What `std::get`, `std::stoi` and `std::vector` throw.
  bad_variant_access invalid_argument out_of_range length_error : Code

module _ {ℓ} (A : Type ℓ) where
  -- `fault` is undefined behaviour: a read outside a buffer, or through a null pointer.
  pub data Result : Type ℓ where
    fault : Result
    throws : Code → Result
    ok : A → Result

-- A value that must be there.
abbrev pub or_fault {ℓ} : {A : Type ℓ} → Option A → Result A
or_fault (some a) = ok a
or_fault none = fault

infixl 5 ◌>>=◌
abbrev pub ◌>>=◌ {ℓ ℓ'} : {A : Type ℓ} {B : Type ℓ'} → Result A → (A → Result B) → Result B
◌>>=◌ fault f = fault
◌>>=◌ (throws c) f = throws c
◌>>=◌ (ok a) f = f a

-- Where a chain ends well, so does its first part, and the rest runs on the value of that.
pub >>=-eq-ok {ℓ ℓ'} :
    {A : Type ℓ} {B : Type ℓ'} {b : B} (m : Result A) (f : A → Result B)
    → m >>= f ≡ ok b
    → (a : A) × (m ≡ ok a) × (f a ≡ ok b)
>>=-eq-ok fault f = λ e. cc
>>=-eq-ok (throws c) f = λ e. cc
>>=-eq-ok (ok a) f = λ e. (a, refl, e)
