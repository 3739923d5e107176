-- ===== src/Prelude/Choice.antt =====
-- Python's `min` with a key: the first of the least.
use mathlib.Core.Path.{◌≡◌, refl, subst}
use mathlib.Core.Logic.{inl, inr}
use mathlib.Core.Bool.{Bool, true, false}
use mathlib.Core.List.{List, [], ◌∷◌, map}
use nano_kvrouter.Prelude.Tests.{if◌then◌else◌, Bool-cases}
use nano_kvrouter.Prelude.Lists.{All}

-- What theorems assume of a strict order: it is asymmetric, and what is not less can be chained.
pub record IsKeyOrder {A : Type 0} (lt : A → A → Bool) : Type 0 where
  pub asym : (a b : A) → lt a b ≡ true → lt b a ≡ false
  pub chain : (a b c : A) → lt a b ≡ false → lt b c ≡ false → lt a c ≡ false

module _ {A : Type 0} (lt : A → A → Bool) where
  unfoldable pub min_by : A → List A → A
  min_by best [] = best
  min_by best (x ∷ xs) = min_by (if lt x best then x else best) xs

  -- no item of the list is less than the item
  abbrev pub NoneLess : A → List A → Type 0
  NoneLess a xs = All (λ x. lt x a ≡ false) xs

  pub min_by-All : (P : A → Type 0) (x : A) (xs : List A) → All P (x ∷ xs) → P (min_by x xs)
  unfolding min_by
  min_by-All P x [] h = h.0
  min_by-All P x (y ∷ ys) h = elim (Bool-cases (lt y x)) [
    | inl c ↦ rw c (min_by-All P y ys h.1)
    | inr c ↦ rw c (min_by-All P x ys (h.0, h.1.1))
  ]

  pub min_by-NoneLess : IsKeyOrder lt → (x : A) (xs : List A) → NoneLess (min_by x xs) (x ∷ xs)
  unfolding min_by
  min_by-NoneLess o x [] = elim (Bool-cases (lt x x)) [
    | inl c ↦ (o.asym x x c, tt)
    | inr c ↦ (c, tt)
  ]
  min_by-NoneLess o x (y ∷ ys) = elim (Bool-cases (lt y x)) [
    | inl c ↦
        let (first, rest) = min_by-NoneLess o y ys in
        let same : min_by y ys ≡ min_by x (y ∷ ys) = rw (c, min_by) refl in
        subst (λ w. NoneLess w (x ∷ y ∷ ys)) same
          (o.chain _ _ _ (o.asym _ _ c) first, (first, rest))
    | inr c ↦
        let (first, rest) = min_by-NoneLess o x ys in
        let same : min_by x ys ≡ min_by x (y ∷ ys) = rw (c, min_by) refl in
        subst (λ w. NoneLess w (x ∷ y ∷ ys)) same (first, (o.chain _ _ _ c first, rest))
  ]

pub min_by-map :
    {A B : Type 0} (lt : B → B → Bool) (f : A → B) (x : A) (xs : List A)
    → min_by lt (f x) (map f xs) ≡ f (min_by (λ a b. lt (f a) (f b)) x xs)
unfolding min_by
min_by-map lt f x [] = refl
min_by-map lt f x (y ∷ ys) = kept (lt (f y) (f x)) (min_by-map lt f y ys) (min_by-map lt f x ys)
  where
    kept :
        (b : Bool)
        → min_by lt (f y) (map f ys) ≡ f (min_by (λ a b. lt (f a) (f b)) y ys)
        → min_by lt (f x) (map f ys) ≡ f (min_by (λ a b. lt (f a) (f b)) x ys)
        → min_by lt (if b then f y else f x) (map f ys)
          ≡ f (min_by (λ a b. lt (f a) (f b)) (if b then y else x) ys)
    kept true h k = h
    kept false h k = k
