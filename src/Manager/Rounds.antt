-- ===== src/Manager/Rounds.antt =====
-- The rounds of the loop in `admit`: how far each takes the pool down.
use nano_kvrouter.Prelude.{
  ℕ, ◌+◌, ◌≤◌, ◌≡◌, ◌≢◌, inl, inr, refl, Bool, true, false, [], ◌∷◌, arith, if◌then◌else◌, ltb,
  Bool-cases, Option-cases, Result, ok, raise, Error, out_of_fuel, Result-cases, Exec, next,
}
use nano_kvrouter.Prelude.Count.{positive}
use nano_kvrouter.Prelude.Dict.{get, put, has}
use nano_kvrouter.Prelude.Sets.{mem}
use nano_kvrouter.Pool.{
  BlockPool, Tier, gpu, cpu, disk, unknown, is_on, move, free, validate_free, release_all,
  tier_free, pin_count, empty_tier, require_tier,
}
use nano_kvrouter.Pool.Invariant.{IsConsistent, tier_state}
use nano_kvrouter.Manager.{NodeCache}
use nano_kvrouter.Manager.Admit.{rank}
use nano_kvrouter.Manager.Demote.{move_block, free_block, demote_from}
use nano_kvrouter.Manager.Rank.{goes_down, move-rank, free-rank}

move_raises :
    (p : BlockPool) (b : ℕ) (f t : Tier) (e : Error) → move p b f t ≡ raise e → e ≢ out_of_fuel
unfolding move require_tier
move_raises p b unknown t e h x = cc
move_raises p b f unknown e h x = ground arith
move_raises p b f t e h x = ground arith

free_raises : (p : BlockPool) (b : ℕ) (e : Error) → free (b ∷ []) p ≡ raise e → e ≢ out_of_fuel
unfolding free validate_free release_all has get put
free_raises p b e h x = elim (Option-cases (get p.block_tier b)) [
  | inl c ↦ ground (arith, rw (c, validate_free) at h)
  | inr (t, c) ↦ elim (Bool-cases (positive (pin_count p b))) [
    | inl k ↦ ground (arith, rw (c, k, validate_free) at h)
    | inr k ↦ ground (arith, rw (c, k, validate_free) at h)
  ]
]

module _ {T : Type 0} where
  -- The pool has gone down, strictly so if s; and no exception stands for missing fuel.
  abbrev pub Falls : Bool → NodeCache T → Result (Unit {0}) × NodeCache T → Type 0
  Falls s c (ok _, d) = rank d.pool + (if s then 1 else 0) ≤ rank c.pool
  Falls s c (raise e, d) = e ≢ out_of_fuel

  pub Falls-weaken :
      (s : Bool) (c d : NodeCache T) (r : Result (Unit {0}) × NodeCache T)
      → rank d.pool + (if s then 1 else 0) ≤ rank c.pool
      → (s' : Bool) → Falls s' d r
      → Falls s c r
  Falls-weaken s c d (ok _, e) h true k = omega arith
  Falls-weaken s c d (ok _, e) h false k = omega arith
  Falls-weaken s c d (raise x, e) h s' k = k

  pub next-Falls :
      (s : Bool) (c : NodeCache T) (r : Result (Unit {0}) × NodeCache T)
      (f : Exec (NodeCache T) (Unit {0}))
      → Falls s c r
      → (s' : Bool) → ((d : NodeCache T) → d ≡ r.1 → Falls s' d (f d))
      → Falls s c (next (λ _. f) r)
  next-Falls s c (ok a, d) f h s' k = Falls-weaken s c d (f d) h s' (k d refl)
  next-Falls s c (raise e, d) f h s' k = h

  move_block-Falls :
      (b : ℕ) (f t : Tier) (c : NodeCache T)
      → IsConsistent c.pool
      → goes_down f t ≡ true
      → Falls true c (move_block b f t c)
  unfolding move_block
  move_block-Falls b f t c s down = elim (Result-cases (move c.pool b f t)) [
    | inr (e, bad) ↦ rw (bad, move_block) (move_raises c.pool b f t e bad)
    | inl (q, good) ↦ rw (good, move_block) (omega (arith, move-rank c.pool q b f t s down good))
  ]

  free_block-Falls : (b : ℕ) (c : NodeCache T) → IsConsistent c.pool → Falls true c (free_block b c)
  unfolding free_block
  free_block-Falls b c s = elim (Result-cases (free (b ∷ []) c.pool)) [
    | inr (e, bad) ↦ rw (bad, free_block) (free_raises c.pool b e bad)
    | inl (q, good) ↦ rw (good, free_block) (omega (arith, free-rank c.pool q b s good))
  ]

  pub demote_from-Falls :
      (t : Tier) (b : ℕ) (c : NodeCache T)
      → IsConsistent c.pool
      → is_on c.pool b t ≡ true
      → Falls true c (demote_from t b c)
  unfolding demote_from tier_state empty_tier mem
  demote_from-Falls gpu b c s on_t = elim (Bool-cases (ltb 0 (tier_free c.pool.cpu_tier))) [
    | inl h ↦ rw h (move_block-Falls b gpu cpu c s refl)
    | inr h ↦ elim (Bool-cases (ltb 0 (tier_free c.pool.disk_tier))) [
      | inl k ↦ rw (h, k) (move_block-Falls b gpu disk c s refl)
      | inr k ↦ rw (h, k) (free_block-Falls b c s)
    ]
  ]
  demote_from-Falls cpu b c s on_t = elim (Bool-cases (ltb 0 (tier_free c.pool.disk_tier))) [
    | inl h ↦ rw h (move_block-Falls b cpu disk c s refl)
    | inr h ↦ rw h (free_block-Falls b c s)
  ]
  demote_from-Falls disk b c s on_t = free_block-Falls b c s
  demote_from-Falls unknown b c s on_t = absurd (ground (arith, s.on unknown b))
