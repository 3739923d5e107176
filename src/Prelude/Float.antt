-- ===== src/Prelude/Float.antt =====
-- Python's `float`, abstractly: the operations that the program uses, and the laws of IEEE numbers
-- (no NaN) that theorems rely on. Rounding is not modelled, so none of the laws of a field is assumed.
use Prim.Native.Nat.{ℕ, ◌+◌, ◌-◌, ◌*◌, ◌/◌}
use mathlib.Core.Path.{◌≡◌}
use mathlib.Core.Bool.{Bool, true, false, not}
use mathlib.Core.Logic.{inl, inr}
use native.Mathlib.Omega.{arith}
use nano_kvrouter.Prelude.Tests.{leb, if◌then◌else◌, Bool-cases}

pub record Float : Type 1 where
  pub Num : Type 0
  pub of_nat : ℕ → Num
  pub leq : Num → Num → Bool
  pub plus : Num → Num → Num
  pub minus : Num → Num → Num
  pub times : Num → Num → Num
  pub over : Num → Num → Num
  -- the constant 1e-9
  pub nano : Num

module _ (F : Float) where
  open F use {Num, of_nat, leq, plus}

  -- What the theorems rely on: `<=` is a total order on numbers that are not NaN, and adding a number
  -- that is not negative gives no smaller number, rounded or not.
  pub record IsOrdered : Type 0 where
    pub total : (a b : Num) → leq a b ≡ false → leq b a ≡ true
    pub trans : (a b c : Num) → leq a b ≡ true → leq b c ≡ true → leq a c ≡ true
    pub grows : (a c : Num) → leq (of_nat 0) c ≡ true → leq a (plus a c) ≡ true

  -- max(a, b): the second only if it is greater
  unfoldable pub max2 : Num → Num → Num
  max2 a b = if leq b a then a else b

  -- a < b
  unfoldable pub less : Num → Num → Bool
  less a b = not (leq b a)

  module _ (o : IsOrdered) where
    pub leq_refl : (a : Num) → leq a a ≡ true
    leq_refl a = elim (Bool-cases (leq a a)) [ inl h ↦ h | inr h ↦ o.total a a h ]

    pub max2_bounds : (a b : Num) → (leq a (max2 a b) ≡ true) × (leq b (max2 a b) ≡ true)
    unfolding max2
    max2_bounds a b = elim (Bool-cases (leq b a)) [
      | inl h ↦ rw h (leq_refl a, h)
      | inr h ↦ rw h (o.total b a h, leq_refl b)
    ]

-- Numbers of a fixed small unit, an instance at which the model runs. Its 1e-9 is one unit.
abbrev pub units : Float
units = record {
  Num = ℕ;
  of_nat = λ n. n;
  leq = leb;
  plus = λ a b. a + b;
  minus = λ a b. a - b;
  times = λ a b. a * b;
  over = λ a b. a / b;
  nano = 1;
}

pub units-IsOrdered : IsOrdered units
units-IsOrdered = record {
  total = λ a b h. ground arith;
  trans = λ a b c h k. ground arith;
  grows = λ a c h. ground arith;
}
