-- ===== src/Base/Results.antt =====
-- What a call of the source returns: a value, or an error that was thrown. A method that changes
-- state returns the state after a throw too, since what was written stays written.
use mathlib.Core.Path.{◌≡◌, refl}
use mathlib.Core.Bool.{Bool, true, false}
use mathlib.Core.Option.{Option, none, some}

-- The errors that the source throws or lets through, by what they say. `type_error` is the
-- language's own, for a field of `undefined`; `external` is any error of a remote call.
pub data Error : Type 0 where
  invalid_network invalid_token_pair insufficient_funds not_connected : Error
  user_not_found type_error external time_is_up : Error

pub data Result {ℓ} (A : Type ℓ) : Type ℓ where
  ok : A → Result A
  err : Error → Result A

-- A value, or the error of a missing field.
abbrev pub or_throw {ℓ} : {A : Type ℓ} → Option A → Error → Result A
or_throw none e = err e
or_throw (some a) e = ok a

abbrev pub throw_if : Bool → Error → Result (Unit {0})
throw_if true e = err e
throw_if false e = ok tt

infixl 5 ◌>>=◌ ◌>>◌
abbrev pub ◌>>=◌ {ℓ κ} : {A : Type ℓ} {B : Type κ} → Result A → (A → Result B) → Result B
ok a >>= f = f a
err e >>= f = err e

abbrev pub ◌>>◌ {ℓ κ} : {A : Type ℓ} {B : Type κ} → Result A → Result B → Result B
m >> k = m >>= λ _. k

-- Whatever follows from the second call's value follows from the value of both.
pub bind_value :
    {A B : Type 0} {P : Type 0} (m : Result A) (f : A → Result B) (b : B)
    → ((a : A) → f a ≡ ok b → P)
    → (m >>= f) ≡ ok b
    → P
bind_value (ok a) f b h e = h a e
bind_value (err x) f b h e = absurd (let c : ⊥ = cc in c)

-- The same, where the first value is remembered.
pub bind_both :
    {A B : Type 0} {P : Type 0} (m : Result A) (f : A → Result B) (b : B)
    → ((a : A) → m ≡ ok a → f a ≡ ok b → P)
    → (m >>= f) ≡ ok b
    → P
bind_both (ok a) f b h e = h a refl e
bind_both (err x) f b h e = absurd (let c : ⊥ = cc in c)
