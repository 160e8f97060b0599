-- ===== src/Prelude/Effect.antt =====
-- Operations of C++ objects as state passing: a call returns, throws and keeps the state it had
-- reached, or runs into undefined behaviour.
pub data Exception : Type 0 where
  bad_alloc : Exception
  out_of_range : Exception
  runtime_error : Exception

-- What the program must never do.
pub data Fault : Type 0 where
  null_deref : Fault
  dangling : Fault
  out_of_bounds : Fault
  mod_by_zero : Fault
  no_return : Fault

pub data Run {ℓ κ} (S : Type ℓ) (A : Type κ) : Type (ℓ ⊔ κ) where
  ok : A → S → Run S A
  throws : Exception → S → Run S A
  fault : Fault → Run S A

abbrev pub State {ℓ κ} : Type ℓ → Type κ → Type (ℓ ⊔ κ)
State S A = S → Run S A

module _ {ℓ} {S : Type ℓ} where
  abbrev pub pure {κ} : {A : Type κ} → A → State S A
  pure a s = ok a s

  abbrev pub undefined {κ} : {A : Type κ} → Fault → State S A
  undefined f s = fault f

  abbrev pub throw {κ} : {A : Type κ} → Exception → State S A
  throw e s = throws e s

  abbrev pub get : State S S
  get s = ok s s

  abbrev pub put : S → State S (Unit {0})
  put s _ = ok tt s

  abbrev pub and_then {κ ι} : {A : Type κ} {B : Type ι} → Run S A → (A → State S B) → Run S B
  and_then (ok a s) f = f a s
  and_then (throws e s) f = throws e s
  and_then (fault e) f = fault e

  infixl 5 ◌>>=◌ ◌>>◌
  abbrev pub ◌>>=◌ {κ ι} : {A : Type κ} {B : Type ι} → State S A → (A → State S B) → State S B
  m >>= f = λ s. and_then (m s) f

  abbrev pub ◌>>◌ {κ} : {B : Type κ} → State S (Unit {0}) → State S B → State S B
  m >> n = m >>= λ _. n
