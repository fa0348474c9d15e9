-- ===== src/Base/Result.antt =====
-- Errors as values: a function that throws returns `err`, and a `do` block stops at the first.
use mathlib.Core.Path.{◌≡◌, refl}
use mathlib.Core.Bool.{Bool, true, false}
use mathlib.Core.Option.{Option, none, some}

pub data Result (E A : Type 0) : Type 0 where
  ok : A → Result E A
  err : E → Result E A

infixl 5 ◌>>=◌ ◌>>◌
abbrev pub ◌>>=◌ : {E A B : Type 0} → Result E A → (A → Result E B) → Result E B
err reason >>= next = err reason
ok value >>= next = next value

abbrev pub ◌>>◌ : {E B : Type 0} → Result E (Unit {0}) → Result E B → Result E B
first >> second = first >>= (λ done. second)

-- `if (!c) throw e`
abbrev pub require : {E : Type 0} → Bool → E → Result E (Unit {0})
require true e = ok tt
require false e = err e

-- `if (c) throw e`
abbrev pub throw_if : {E : Type 0} → Bool → E → Result E (Unit {0})
throw_if true e = err e
throw_if false e = ok tt

-- `if (rows.length === 0) throw e; const row = rows[0]`
abbrev pub or_throw : {E A : Type 0} → Option A → E → Result E A
or_throw none e = err e
or_throw (some a) e = ok a

-- A `do` block that succeeded: its first step did, and so did the rest on what that gave.
pub >>=-eq-ok :
    {E A B : Type 0} (step : Result E A) (rest : A → Result E B) {result : B}
    → (step >>= rest) ≡ ok result
    → (value : A) × (step ≡ ok value) × (rest value ≡ ok result)
>>=-eq-ok (err reason) rest done = cc
>>=-eq-ok (ok value) rest done = (value, refl, done)

pub or_throw-eq-ok :
    {E A : Type 0} (o : Option A) (e : E) {a : A} → or_throw o e ≡ ok a → o ≡ some a
or_throw-eq-ok none e h = cc
or_throw-eq-ok (some b) e h = cc

pub require-eq-ok : {E : Type 0} (c : Bool) (e : E) {u : Unit {0}} → require c e ≡ ok u → c ≡ true
require-eq-ok true e h = refl
require-eq-ok false e h = cc

pub throw_if-eq-ok :
    {E : Type 0} (c : Bool) (e : E) {u : Unit {0}} → throw_if c e ≡ ok u → c ≡ false
throw_if-eq-ok true e h = cc
throw_if-eq-ok false e h = refl

pub ok_eq : {E A : Type 0} {a b : A} → ◌≡◌ {A = Result E A} (ok a) (ok b) → a ≡ b
ok_eq e = cc

pub second_eq :
    {E A B : Type 0} {a a' : A} {b b' : B}
    → ◌≡◌ {A = Result E (A × B)} (ok (a, b)) (ok (a', b'))
    → b' ≡ b
second_eq e = cc

pub first_eq :
    {E A B : Type 0} {a a' : A} {b b' : B}
    → ◌≡◌ {A = Result E (A × B)} (ok (a, b)) (ok (a', b'))
    → a' ≡ a
first_eq e = cc
