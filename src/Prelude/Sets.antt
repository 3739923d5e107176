-- ===== src/Prelude/Sets.antt =====
-- Python's `set` of identifiers, as a list that `add` keeps free of duplicates.
use Prim.Native.Nat.{ℕ, suc, ◌≤◌, ◌+◌}
use mathlib.Core.Path.{◌≡◌, refl}
use mathlib.Core.Bool.{Bool, true, false, not, ◌&&◌, ◌||◌}
use mathlib.Core.List.{List, [], ◌∷◌, ◌++◌}
use native.Mathlib.Omega.{arith}
use nano_kvrouter.Prelude.Tests.{◌==◌, if◌then◌else◌}
use nano_kvrouter.Prelude.Lists.{length}

-- k in s
unfoldable pub mem : ℕ → List ℕ → Bool
mem k [] = false
mem k (x ∷ s) = x == k || mem k s

-- s.add(k)
unfoldable pub add : List ℕ → ℕ → List ℕ
add s k = if mem k s then s else k ∷ s

-- s.discard(k)
unfoldable pub discard : List ℕ → ℕ → List ℕ
discard [] k = []
discard (x ∷ s) k = let rest = discard s k in if x == k then rest else x ∷ rest

-- s.update(ks)
unfoldable pub update : List ℕ → List ℕ → List ℕ
unfolding add
update s [] = s
update s (k ∷ ks) = update (add s k) ks

-- No identifier stands twice.
unfoldable pub distinct : List ℕ → Bool
distinct [] = true
distinct (x ∷ s) = not (mem x s) && distinct s

pub mem-add : (s : List ℕ) (k j : ℕ) → mem j (add s k) ≡ (k == j || mem j s)
unfolding add mem
mem-add s k j = ground (arith, mem_at s k j)
  where
    mem_at : (t : List ℕ) (a b : ℕ) → a ≡ b → mem a t ≡ mem b t
    mem_at t a b e = cc

pub mem-discard : (s : List ℕ) (k j : ℕ) → mem j (discard s k) ≡ (not (k == j) && mem j s)
unfolding mem discard
mem-discard [] k j = ground arith
mem-discard (x ∷ s) k j = ground (arith, mem-discard s k j)

pub mem-update : (s ks : List ℕ) (j : ℕ) → mem j (update s ks) ≡ (mem j ks || mem j s)
unfolding mem update
mem-update s [] j = refl
mem-update s (k ∷ ks) j = ground (arith, mem-update (add s k) ks j, mem-add s k j)

pub mem-append : (xs ys : List ℕ) (j : ℕ) → mem j (xs ++ ys) ≡ (mem j xs || mem j ys)
unfolding mem
mem-append [] ys j = refl
mem-append (x ∷ xs) ys j = ground (arith, mem-append xs ys j)

pub length-add-le : (s : List ℕ) (k : ℕ) → length (add s k) ≤ suc (length s)
unfolding add
length-add-le s k = ground arith

pub length-update-le : (s ks : List ℕ) → length (update s ks) ≤ length s + length ks
unfolding update
length-update-le s [] = omega arith
length-update-le s (k ∷ ks) = omega (arith, length-update-le (add s k) ks, length-add-le s k)

pub length-discard-le : (s : List ℕ) (k : ℕ) → length (discard s k) ≤ length s
unfolding discard
length-discard-le [] k = omega arith
length-discard-le (x ∷ s) k = ground (arith, length-discard-le s k)

pub distinct-add : (s : List ℕ) (k : ℕ) → distinct s ≡ true → distinct (add s k) ≡ true
unfolding add distinct
distinct-add s k h = ground arith

pub distinct-update : (s ks : List ℕ) → distinct s ≡ true → distinct (update s ks) ≡ true
unfolding update
distinct-update s [] h = h
distinct-update s (k ∷ ks) h = distinct-update (add s k) ks (distinct-add s k h)

pub distinct-discard : (s : List ℕ) (k : ℕ) → distinct s ≡ true → distinct (discard s k) ≡ true
unfolding discard distinct
distinct-discard [] k h = refl
distinct-discard (x ∷ s) k h = ground (arith, distinct-discard s k, mem-discard s k x)

-- What leaves a set that holds `k` once makes room for one.
pub length-discard :
    (s : List ℕ) (k : ℕ)
    → distinct s ≡ true
    → mem k s ≡ true
    → suc (length (discard s k)) ≡ length s
unfolding discard distinct mem
length-discard [] k h m = cc
length-discard (x ∷ s) k h m = ground (arith, length-discard s k, discard_absent s k)
  where
    discard_absent : (t : List ℕ) (j : ℕ) → mem j t ≡ false → length (discard t j) ≡ length t
    discard_absent [] j e = refl
    discard_absent (y ∷ t) j e = ground (arith, discard_absent t j)
