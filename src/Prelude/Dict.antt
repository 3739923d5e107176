-- ===== src/Prelude/Dict.antt =====
-- Python's `dict` with identifiers for keys, in insertion order: a write to a key that is there
-- keeps its place, a new key goes to the end.
use Prim.Native.Nat.{ℕ}
use mathlib.Core.Path.{◌≡◌, refl}
use mathlib.Core.Bool.{Bool, true, false, ◌||◌}
use mathlib.Core.Option.{Option, none, some}
use mathlib.Core.List.{List, [], ◌∷◌}
use native.Mathlib.Omega.{arith}
use nano_kvrouter.Prelude.Tests.{◌==◌, if◌then◌else◌}

abbrev pub Dict {ℓ} : Type ℓ → Type ℓ
Dict V = List (ℕ × V)

module _ {ℓ} {V : Type ℓ} where
  -- d.get(k)
  unfoldable pub get : Dict V → ℕ → Option V
  get [] k = none
  get ((j, w) ∷ d) k = if j == k then some w else get d k

  -- d[k] = v
  unfoldable pub put : Dict V → ℕ → V → Dict V
  put [] k v = (k, v) ∷ []
  put ((j, w) ∷ d) k v = if j == k then (k, v) ∷ d else (j, w) ∷ put d k v

  -- d.pop(k, None)
  unfoldable pub remove : Dict V → ℕ → Dict V
  remove [] k = []
  remove ((j, w) ∷ d) k = let rest = remove d k in if j == k then rest else (j, w) ∷ rest

  -- d.get(k, v)
  unfoldable pub get_or : Dict V → ℕ → V → V
  get_or d k v = elim (get d k) [ none ↦ v | some w ↦ w ]

  -- k in d
  unfoldable pub has : Dict V → ℕ → Bool
  has d k = elim (get d k) [ none ↦ false | some _ ↦ true ]

  pub get-put :
      (d : Dict V) (k j : ℕ) (v : V) → get (put d k v) j ≡ (if k == j then some v else get d j)
  unfolding get put
  get-put [] k j v = refl
  get-put ((i, w) ∷ d) k j v = ground (arith, get-put d k j v)

  pub get-remove : (d : Dict V) (k j : ℕ) → get (remove d k) j ≡ (if k == j then none else get d j)
  unfolding get remove
  get-remove [] k j = ground arith
  get-remove ((i, w) ∷ d) k j = ground (arith, get-remove d k j)

module _ {ℓ} {V : Type ℓ} where
  pub has-some : (d : Dict V) (k : ℕ) (v : V) → get d k ≡ some v → has d k ≡ true
  unfolding has
  has-some d k v h = rw (h, has)

  pub has-none : (d : Dict V) (k : ℕ) → get d k ≡ none → has d k ≡ false
  unfolding has
  has-none d k h = rw (h, has)

  pub has-put : (d : Dict V) (k j : ℕ) (v : V) → has (put d k v) j ≡ (k == j || has d j)
  unfolding has
  has-put d k j v = ground (arith, get-put d k j v)
