-- ===== src/Tree/Ceil.antt =====
-- How many blocks the two halves of an edge need, against the blocks of the whole.
use nano_kvrouter.Prelude.{ℕ, suc, ◌+◌, ◌*◌, ◌≤◌, ◌<◌, arith}
use nano_kvrouter.Tree.{ceil_div}

module _ (bs : ℕ) (pos : 0 < bs) where
  ceil_div_bounds : (n : ℕ) → (n ≤ bs * ceil_div bs n) × (bs * ceil_div bs n < n + bs)
  unfolding ceil_div
  ceil_div_bounds n = grind arith

  below : (x y : ℕ) → bs * x < bs * y + bs → x ≤ y
  below x y h = grind arith

  -- For a positive block size, the two parts of a cut sequence need together at least the blocks
  -- of the whole, and at most one more.
  pub ceil_div-add :
      (a b : ℕ)
      → (ceil_div bs (a + b) ≤ ceil_div bs a + ceil_div bs b)
        × (ceil_div bs a + ceil_div bs b ≤ suc (ceil_div bs (a + b)))
  ceil_div-add a b =
      let (la, ua) = ceil_div_bounds a in
      let (lb, ub) = ceil_div_bounds b in
      let (lc, uc) = ceil_div_bounds (a + b) in
      (
        below (ceil_div bs (a + b)) (ceil_div bs a + ceil_div bs b) (omega arith),
        below (ceil_div bs a + ceil_div bs b) (suc (ceil_div bs (a + b))) (omega arith),
      )

  pub ceil_div_mono : (a b : ℕ) → a ≤ b → ceil_div bs a ≤ ceil_div bs b
  ceil_div_mono a b h =
      below (ceil_div bs a) (ceil_div bs b) (omega (arith, ceil_div_bounds a, ceil_div_bounds b))

  pub ceil_div_pos : (a : ℕ) → 0 < a → 0 < ceil_div bs a
  ceil_div_pos a h = grind (arith, ceil_div_bounds a)
