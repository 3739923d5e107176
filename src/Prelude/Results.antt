-- ===== src/Prelude/Results.antt =====
-- Python's exceptions. A call that may raise returns a `Result`; one that also changes an object
-- returns the object beside it, changed as far as the call came.
use mathlib.Core.Path.{◌≡◌, refl, ap}
use mathlib.Core.Logic.{◌⊎◌, inl, inr}
use mathlib.Core.Bool.{Bool, true, false}

pub data Error : Type 0 where
  value_error key_error index_error runtime_error memory_error : Error
  -- not an exception: a loop of the model has used up its fuel
  out_of_fuel : Error

pub data Result {ℓ} (A : Type ℓ) : Type ℓ where
  ok : A → Result A
  raise : Error → Result A

infixl 5 ◌>>=◌ ◌>>◌
abbrev pub ◌>>=◌ {ℓ κ} : {A : Type ℓ} {B : Type κ} → Result A → (A → Result B) → Result B
ok a >>= f = f a
raise e >>= f = raise e

abbrev pub ◌>>◌ {ℓ} : {B : Type ℓ} → Result (Unit {0}) → Result B → Result B
m >> k = m >>= λ _. k

-- if not b: raise e
abbrev pub check : Bool → Error → Result (Unit {0})
check true e = ok tt
check false e = raise e

pub Result-cases {ℓ} :
    {A : Type ℓ} (r : Result A) → ((a : A) × (r ≡ ok a)) ⊎ ((e : Error) × (r ≡ raise e))
Result-cases (ok a) = inl (a, refl)
Result-cases (raise e) = inr (e, refl)

-- A method that changes an object of type S and may raise: what it returns, and the object after it.
abbrev pub Exec {ℓ} : Type ℓ → Type ℓ → Type ℓ
Exec S A = S → Result A × S

abbrev pub return_value {ℓ} : {S A : Type ℓ} → A → Exec S A
return_value a s = (ok a, s)

-- The next call, if this one has returned.
abbrev pub next {ℓ} : {S A B : Type ℓ} → (A → Exec S B) → Result A × S → Result B × S
next f (ok a, s) = f a s
next f (raise e, s) = (raise e, s)

abbrev pub then_do {ℓ} : {S A B : Type ℓ} → Exec S A → (A → Exec S B) → Exec S B
then_do m f s = next f (m s)

-- What the first call and the next one keep, both keep.
pub next-keeps :
    {S A B : Type 0} (P : S → Type 0) (r : Result A × S) (f : A → Exec S B)
    → P r.1
    → ((a : A) (s : S) → P s → P (f a s).1)
    → P (next f r).1
next-keeps P (ok a, s) f h k = k a s h
next-keeps P (raise e, s) f h k = h

-- The next call after one that has returned.
pub next_ok :
    {S A B : Type 0} (x : Result A × S) (a : A) (f : A → Exec S B) → x.0 ≡ ok a → next f x ≡ f a x.1
next_ok (ok b, s) a f h = let same : b ≡ a = cc in ap (λ c. f c s) same
next_ok (raise e, s) a f h = cc
