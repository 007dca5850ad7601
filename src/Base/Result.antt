-- ===== src/Base/Result.antt =====
-- Go's `(value, error)` results, and what holds of the value if there is no error.
use mathlib.Core.Path.{◌≡◌, refl}
use mathlib.Core.Bool.{Bool, true, false}
use mathlib.Core.Option.{Option, none, some}

pub data Result (E A : Type 0) : Type 0 where
  error : E → Result E A
  ok : A → Result E A

-- The value of a check.
pub data Passed : Type 0 where
  pass : Passed

infixl 5 ◌>>=◌
abbrev pub ◌>>=◌ : {E A B : Type 0} → Result E A → (A → Result E B) → Result E B
error x >>= f = error x
ok a >>= f = f a

-- `if !test { return …, e }`
abbrev pub unless : {E : Type 0} → E → Bool → Result E Passed
unless e true = ok pass
unless e false = error e

-- A value that is there, or the error.
abbrev pub or_error : {E A : Type 0} → E → Option A → Result E A
or_error e none = error e
or_error e (some a) = ok a

-- An operation that returns an error only.
abbrev pub no_error : {E : Type 0} → Option E → Result E Passed
no_error none = ok pass
no_error (some e) = error e

abbrev pub Ends : {E A : Type 0} → (A → Type 0) → Result E A → Type 0
Ends P (error e) = Unit
Ends P (ok a) = P a

pub Ends-bind :
    {E A B : Type 0} (Q : B → Type 0) (first : Result E A) (f : A → Result E B)
    → ((a : A) → first ≡ ok a → Ends Q (f a))
    → Ends Q (first >>= f)
Ends-bind Q (error e) f h = tt
Ends-bind Q (ok a) f h = h a refl

pub Ends-unless :
    {E B : Type 0} (Q : B → Type 0) (e : E) (test : Bool) (f : Passed → Result E B)
    → (test ≡ true → Ends Q (f pass))
    → Ends Q (unless e test >>= f)
Ends-unless Q e true f h = h refl
Ends-unless Q e false f h = tt

pub Ends-or_error :
    {E A B : Type 0} (Q : B → Type 0) (e : E) (o : Option A) (f : A → Result E B)
    → ((a : A) → o ≡ some a → Ends Q (f a))
    → Ends Q (or_error e o >>= f)
Ends-or_error Q e none f h = tt
Ends-or_error Q e (some a) f h = h a refl
