-- ===== src/Prelude/Count.antt =====
-- Python's `int` where a program counts up and down by one: `negsuc n` is -(n + 1).
use Prim.Native.Nat.{ℕ, zero, suc}
use mathlib.Core.Path.{◌≡◌, refl}
use mathlib.Core.Bool.{Bool, true, false}
use native.Mathlib.Omega.{arith}
use nano_kvrouter.Prelude.Tests.{ltb}

pub data ℤ : Type 0 where
  pos : ℕ → ℤ
  negsuc : ℕ → ℤ

-- n + 1
unfoldable pub incr : ℤ → ℤ
incr (pos n) = pos (suc n)
incr (negsuc zero) = pos 0
incr (negsuc (suc n)) = negsuc n

-- n - 1
unfoldable pub decr : ℤ → ℤ
decr (pos zero) = negsuc 0
decr (pos (suc n)) = pos n
decr (negsuc n) = negsuc (suc n)

-- n > 0
unfoldable pub positive : ℤ → Bool
positive (pos n) = ltb 0 n
positive (negsuc n) = false

-- n >= 0
unfoldable pub natural : ℤ → Bool
natural (pos n) = true
natural (negsuc n) = false

pub decr-incr : (z : ℤ) → decr (incr z) ≡ z
unfolding decr incr
decr-incr (pos n) = refl
decr-incr (negsuc zero) = refl
decr-incr (negsuc (suc n)) = refl

pub incr-natural : (z : ℤ) → natural z ≡ true → natural (incr z) ≡ true
unfolding incr natural
incr-natural (pos n) h = refl
incr-natural (negsuc n) h = cc

pub decr-natural : (z : ℤ) → positive z ≡ true → natural (decr z) ≡ true
unfolding decr positive natural
decr-natural (pos zero) h = cc
decr-natural (pos (suc n)) h = refl
decr-natural (negsuc n) h = cc

pub positive-incr : (z : ℤ) → natural z ≡ true → positive (incr z) ≡ true
unfolding incr positive natural
positive-incr (pos n) h = ground arith
positive-incr (negsuc n) h = cc
