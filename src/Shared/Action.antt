-- ===== src/Shared/Action.antt =====
-- Actions on a state of some type: a call that changes an object and may throw leaves a result and the
-- object, also where it throws.
use elite_robots_cs_sdk.Shared.Outcome.{Code, Result, ok, throws, fault}

abbrev pub Action : Type 0 → Type 0 → Type 0
Action S A = S → Result A × S

abbrev pub followed : {S A B : Type 0} → (A → Action S B) → Result A × S → Result B × S
followed f (ok a, s) = f a s
followed f (throws e, s) = (throws e, s)
followed f (fault, s) = (fault, s)

infixl 5 ◌>>=◌ ◌>>◌
abbrev pub ◌>>=◌ : {S A B : Type 0} → Action S A → (A → Action S B) → Action S B
◌>>=◌ m f s = followed f (m s)

abbrev pub ◌>>◌ : {S A B : Type 0} → Action S A → Action S B → Action S B
m >> k = m >>= λ _. k

abbrev pub return : {S A : Type 0} → A → Action S A
return a s = (ok a, s)

abbrev pub throw : {S A : Type 0} → Code → Action S A
throw e s = (throws e, s)

abbrev pub lift : {S A : Type 0} → Result A → Action S A
lift r s = (r, s)

abbrev pub update : {S : Type 0} → (S → S) → Action S (Unit {0})
update f s = (ok tt, f s)
