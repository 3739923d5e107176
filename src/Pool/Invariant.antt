-- ===== src/Pool/Invariant.antt =====
-- What `BlockPool` maintains between its three tables: the tiers' sets, `_block_tier`, and the
-- reference and pin counts.
use nano_kvrouter.Prelude.{ℕ, ◌≤◌, ◌≡◌, refl, true, false, length, arith}
use nano_kvrouter.Prelude.Count.{natural}
use nano_kvrouter.Prelude.Dict.{get, has, get_or}
use nano_kvrouter.Prelude.Sets.{mem, distinct}
use nano_kvrouter.Pool.{
  Tier, gpu, cpu, disk, unknown, TierState, BlockPool, empty_tier, init, is_on, ref_count,
  pin_count,
}

-- the state of a tier; no block is ever on an unknown one
unfoldable pub tier_state : BlockPool → Tier → TierState
unfolding empty_tier
tier_state p gpu = p.gpu_tier
tier_state p cpu = p.cpu_tier
tier_state p disk = p.disk_tier
tier_state p unknown = empty_tier 0

pub record IsConsistent (p : BlockPool) : Type 0 where
  -- a tier's set holds exactly the blocks that `_block_tier` puts there
  pub on : (u : Tier) (b : ℕ) → mem b (tier_state p u).allocated ≡ is_on p b u
  -- no tier holds more than its capacity
  pub within : (u : Tier) → length (tier_state p u).allocated ≤ (tier_state p u).capacity
  pub once : (u : Tier) → distinct (tier_state p u).allocated ≡ true
  -- the counts are kept for exactly the allocated blocks, agree, and are not negative
  pub refs_tracked : (b : ℕ) → has p.refs b ≡ has p.block_tier b
  pub pins_tracked : (b : ℕ) → has p.pins b ≡ has p.block_tier b
  pub balanced : (b : ℕ) → ref_count p b ≡ pin_count p b
  pub counted : (b : ℕ) → natural (pin_count p b) ≡ true

-- No id that is still to be drawn is in use.
pub record IsFresh (uuid : ℕ → ℕ) (p : BlockPool) : Type 0 where
  pub unused : (k : ℕ) → p.drawn ≤ k → has p.block_tier (uuid k) ≡ false

module _ (g c d : ℕ) where
  init-on :
      (u : Tier) (b : ℕ) → mem b (tier_state (init g c d) u).allocated ≡ is_on (init g c d) b u
  unfolding init tier_state mem is_on get
  init-on gpu b = refl
  init-on cpu b = refl
  init-on disk b = refl
  init-on unknown b = refl

  init-within :
      (u : Tier)
      → length (tier_state (init g c d) u).allocated ≤ (tier_state (init g c d) u).capacity
  unfolding init tier_state
  init-within gpu = omega arith
  init-within cpu = omega arith
  init-within disk = omega arith
  init-within unknown = omega arith

  init-once : (u : Tier) → distinct (tier_state (init g c d) u).allocated ≡ true
  unfolding init tier_state distinct
  init-once gpu = refl
  init-once cpu = refl
  init-once disk = refl
  init-once unknown = refl

  pub init-IsConsistent : IsConsistent (init g c d)
  unfolding init has get ref_count pin_count get_or natural
  init-IsConsistent = record {
    on = init-on;
    within = init-within;
    once = init-once;
    refs_tracked = λ b. refl;
    pins_tracked = λ b. refl;
    balanced = λ b. refl;
    counted = λ b. refl;
  }

  pub init-IsFresh : (uuid : ℕ → ℕ) → IsFresh uuid (init g c d)
  unfolding init has get
  init-IsFresh uuid = record { unused = λ k h. refl }

-- A call that draws no id and allocates no block leaves every id that is still to be drawn unused.
pub IsFresh-shrink :
    (uuid : ℕ → ℕ) (p q : BlockPool)
    → IsFresh uuid p
    → p.drawn ≤ q.drawn
    → ((x : ℕ) → has p.block_tier x ≡ false → has q.block_tier x ≡ false)
    → IsFresh uuid q
IsFresh-shrink uuid p q f d h = record { unused = λ k l. h (uuid k) (f.unused k (omega arith)) }
