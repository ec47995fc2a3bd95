-- ===== src/Common/Results.antt =====
-- Exceptions as values: `raise` is `err`, and a chain of calls that may raise is a `do` block.
use mathlib.Core.Path.{◌≡◌, refl}
use mathlib.Core.Bool.{Bool, true, false, not}

pub data Result (E A : Type 0) : Type 0 where
  ok : A → Result E A
  err : E → Result E A

-- What follows a call that may raise runs only where it did not.
infixl 5 ◌>>=◌ ◌>>◌
abbrev pub ◌>>=◌ : {E A B : Type 0} → Result E A → (A → Result E B) → Result E B
call >>= next = elim call [ ok value ↦ next value | err error ↦ err error ]

abbrev pub ◌>>◌ : {E B : Type 0} → Result E (Unit {0}) → Result E B → Result E B
check >> next = elim check [ ok _ ↦ next | err error ↦ err error ]

-- `if test: raise e`
abbrev pub raise_if : {E : Type 0} → Bool → E → Result E (Unit {0})
raise_if true e = err e
raise_if false e = ok tt

-- `except ... as error: raise ...(error) from error`
abbrev pub map_error : {E F A : Type 0} → (E → F) → Result E A → Result F A
map_error f (ok a) = ok a
map_error f (err e) = err (f e)

-- Where a chain returned, its first call returned, and so did the rest of it.
pub >>=-eq-ok :
    {E A B : Type 0} (call : Result E A) (next : A → Result E B) {result : B}
    → (call >>= next) ≡ ok result
    → (value : A) × (call ≡ ok value) × (next value ≡ ok result)
>>=-eq-ok (ok value) next returned = (value, refl, returned)
>>=-eq-ok (err error) next returned = cc

module _ {E A : Type 0} where
  pub ok-eq : {a b : A} → ◌≡◌ {A = Result E A} (ok a) (ok b) → a ≡ b
  ok-eq h = cc

module _ {E F A : Type 0} (f : E → F) where
  pub map_error-eq-ok : (m : Result E A) {a : A} → map_error f m ≡ ok a → m ≡ ok a
  map_error-eq-ok (ok b) h = cc
  map_error-eq-ok (err e) h = cc

module _ {E : Type 0} (e : E) where
  -- Where nothing is raised the test failed.
  pub raise_if-eq-ok : (b : Bool) {u : Unit {0}} → raise_if b e ≡ ok u → b ≡ false
  raise_if-eq-ok true h = cc
  raise_if-eq-ok false h = refl

  pub raise_if-not-eq-ok : (b : Bool) {u : Unit {0}} → raise_if (not b) e ≡ ok u → b ≡ true
  raise_if-not-eq-ok true h = refl
  raise_if-not-eq-ok false h = cc
