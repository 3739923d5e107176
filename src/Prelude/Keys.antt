-- ===== src/Prelude/Keys.antt =====
-- Python's order of pairs of a `float` and an identifier.
use Prim.Native.Nat.{ℕ}
use mathlib.Core.Path.{◌≡◌}
use mathlib.Core.Logic.{◌≢◌}
use mathlib.Core.Bool.{Bool, true, false, ◌&&◌}
use native.Mathlib.Omega.{arith}
use nano_kvrouter.Prelude.Tests.{if◌then◌else◌, ltb}
use nano_kvrouter.Prelude.Float.{Float, IsOrdered, less}
use nano_kvrouter.Prelude.Choice.{IsKeyOrder}

module _ (F : Float) where
  open F use {Num, leq}

  -- (v, i) < (w, j)
  unfoldable pub pair_lt : Num × ℕ → Num × ℕ → Bool
  unfolding less
  pair_lt (v, i) (w, j) = if leq v w && leq w v then ltb i j else less F v w

  -- (-v, i) < (-w, j); the negation of numbers reverses their order
  unfoldable pub pair_gt : Num × ℕ → Num × ℕ → Bool
  unfolding less
  pair_gt (v, i) (w, j) = if leq v w && leq w v then ltb i j else less F w v

  module _ (o : IsOrdered F) where
    pub pair_lt_total : (a b : Num × ℕ) → a.1 ≢ b.1 → pair_lt a b ≡ false → pair_lt b a ≡ true
    unfolding pair_lt less
    pair_lt_total (v, i) (w, j) d h = let t = o.total v w in ground arith

    pub pair_lt_asym : (a b : Num × ℕ) → pair_lt a b ≡ true → pair_lt b a ≡ false
    unfolding pair_lt less
    pair_lt_asym (v, i) (w, j) h = let t = o.total v w in ground arith

    pub pair_lt_trans :
        (a b c : Num × ℕ) → pair_lt a b ≡ true → pair_lt b c ≡ true → pair_lt a c ≡ true
    unfolding pair_lt less
    pair_lt_trans (v, i) (w, j) (x, k) h m =
        let t1 = o.trans v w x in
        let t2 = o.trans w x v in
        let t3 = o.trans x v w in
        let t4 = o.trans x w v in
        let t5 = o.trans w v x in
        let t6 = o.trans v x w in
        let l1 = o.total v w in let l2 = o.total w x in let l3 = o.total v x in ground arith

    pub pair_lt_chain :
        (a b c : Num × ℕ) → pair_lt a b ≡ false → pair_lt b c ≡ false → pair_lt a c ≡ false
    unfolding pair_lt less
    pair_lt_chain (v, i) (w, j) (x, k) h m =
        let t1 = o.trans v w x in
        let t2 = o.trans w x v in
        let t3 = o.trans x v w in
        let t4 = o.trans x w v in
        let t5 = o.trans w v x in
        let t6 = o.trans v x w in
        let l1 = o.total v w in let l2 = o.total w x in let l3 = o.total v x in ground arith

    pair_gt_asym : (a b : Num × ℕ) → pair_gt a b ≡ true → pair_gt b a ≡ false
    unfolding pair_gt less
    pair_gt_asym (v, i) (w, j) h = let t = o.total v w in ground arith

    pair_gt_chain :
        (a b c : Num × ℕ) → pair_gt a b ≡ false → pair_gt b c ≡ false → pair_gt a c ≡ false
    unfolding pair_gt less
    pair_gt_chain (v, i) (w, j) (x, k) h m =
        let t1 = o.trans v w x in
        let t2 = o.trans w x v in
        let t3 = o.trans x v w in
        let t4 = o.trans x w v in
        let t5 = o.trans w v x in
        let t6 = o.trans v x w in
        let l1 = o.total v w in let l2 = o.total w x in let l3 = o.total v x in ground arith

  -- the order of a list by a key of that kind
  pub pair_lt-IsKeyOrder :
      {A : Type 0} (key : A → Num × ℕ) → IsOrdered F → IsKeyOrder (λ x y. pair_lt (key x) (key y))
  pair_lt-IsKeyOrder key o = record {
    asym = λ a b h. pair_lt_asym o (key a) (key b) h;
    chain = λ a b c h k. pair_lt_chain o (key a) (key b) (key c) h k;
  }

  pub pair_gt-IsKeyOrder :
      {A : Type 0} (key : A → Num × ℕ) → IsOrdered F → IsKeyOrder (λ x y. pair_gt (key x) (key y))
  pair_gt-IsKeyOrder key o = record {
    asym = λ a b h. pair_gt_asym o (key a) (key b) h;
    chain = λ a b c h k. pair_gt_chain o (key a) (key b) (key c) h k;
  }
