-- ===== src/Manager/Rank.antt =====
-- The rank of a pool, which bounds the rounds of the loop in `admit`.
use nano_kvrouter.Prelude.{
  ℕ, ◌<◌, ◌≡◌, inl, inr, refl, ap, sym, Bool, true, false, some, [], ◌∷◌, arith, Bool-cases,
  Option-cases, Result, ok, raise,
}
use nano_kvrouter.Prelude.Count.{positive}
use nano_kvrouter.Prelude.Dict.{get, put, has}
use nano_kvrouter.Prelude.Sets.{mem, length-add-le, length-discard}
use nano_kvrouter.Pool.{
  BlockPool, Tier, gpu, cpu, disk, unknown, same_tier, is_on, move, free, validate_free, release,
  release_all, relocate, empty_tier, discard_from, add_to, tier_of, pin_count,
}
use nano_kvrouter.Pool.Invariant.{IsConsistent, tier_state}
use nano_kvrouter.Pool.Moves.{move-ok}
use nano_kvrouter.Manager.Admit.{rank}

-- A block that leaves its tier takes its share of the rank.
rank-discard_from :
    (p : BlockPool) (b : ℕ) (t : Tier)
    → IsConsistent p
    → is_on p b t ≡ true
    → rank (discard_from p t b) < rank p
unfolding rank discard_from tier_state empty_tier mem
rank-discard_from p b unknown c h = absurd (ground (arith, c.on unknown b))
rank-discard_from p b gpu c h =
    omega (arith, length-discard p.gpu_tier.allocated b (c.once gpu) (rw (c.on gpu b) h))
rank-discard_from p b cpu c h =
    omega (arith, length-discard p.cpu_tier.allocated b (c.once cpu) (rw (c.on cpu b) h))
rank-discard_from p b disk c h =
    omega (arith, length-discard p.disk_tier.allocated b (c.once disk) (rw (c.on disk b) h))

-- a move to a lower tier
abbrev pub goes_down : Tier → Tier → Bool
goes_down gpu cpu = true
goes_down gpu disk = true
goes_down cpu disk = true
goes_down _ _ = false

pub move-rank :
    (p q : BlockPool) (b : ℕ) (f t : Tier)
    → IsConsistent p
    → goes_down f t ≡ true
    → move p b f t ≡ ok q
    → rank q < rank p
unfolding rank relocate discard_from add_to tier_state
move-rank p q b f t c down h =
    let (is, _, _, on_f, _, _) = move-ok p b f t q h in rw is (lower f t down on_f)
  where
    on_tier : (u : Tier) → is_on p b u ≡ true → mem b (tier_state p u).allocated ≡ true
    on_tier u e = rw (c.on u b) e

    lower :
        (f t : Tier) → goes_down f t ≡ true → is_on p b f ≡ true → rank (relocate p b f t) < rank p
    lower gpu cpu d e = omega (
      arith,
      length-discard p.gpu_tier.allocated b (c.once gpu) (on_tier gpu e),
      length-add-le p.cpu_tier.allocated b,
    )
    lower gpu disk d e = omega (
      arith,
      length-discard p.gpu_tier.allocated b (c.once gpu) (on_tier gpu e),
      length-add-le p.disk_tier.allocated b,
    )
    lower cpu disk d e = omega (
      arith,
      length-discard p.cpu_tier.allocated b (c.once cpu) (on_tier cpu e),
      length-add-le p.disk_tier.allocated b,
    )
    lower _ _ d e = cc

free-one :
    (p q : BlockPool) (b : ℕ)
    → free (b ∷ []) p ≡ ok q
    → (t : Tier) × (tier_of p b ≡ some t) × (q ≡ release p b t)
unfolding free validate_free release_all tier_of has get put
free-one p q b h = elim (Option-cases (get p.block_tier b)) [
  | inl c ↦ absurd (ground (arith, rw (c, validate_free) at h))
  | inr (t, c) ↦ elim (Bool-cases (positive (pin_count p b))) [
    | inl k ↦ absurd (ground (arith, rw (c, k, validate_free) at h))
    | inr k ↦ (t, c, sym (ap (pool_of p) (rw (c, k, validate_free) at h)))
  ]
]
  where
    pool_of : BlockPool → Result BlockPool → BlockPool
    pool_of z (ok a) = a
    pool_of z (raise x) = z

pub free-rank :
    (p q : BlockPool) (b : ℕ) → IsConsistent p → free (b ∷ []) p ≡ ok q → rank q < rank p
unfolding rank release tier_of is_on same_tier
free-rank p q b c h =
    let (t, on_t, is) = free-one p q b h in rw is (rank-discard_from p b t c (here t on_t))
  where
    same : (u : Tier) → same_tier u u ≡ true
    same gpu = refl
    same cpu = refl
    same disk = refl
    same unknown = refl

    here : (u : Tier) → tier_of p b ≡ some u → is_on p b u ≡ true
    here u e = rw (e, is_on) (same u)
