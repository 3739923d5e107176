-- ===== src/Pool.antt =====
-- kv_cache/block_pool.py: which tier each block lives on, and how many slots each tier has.
-- A block id is a number; `uuid4()` is the parameter `uuid`, the k-th draw of the process being
-- `uuid k`, and a pool counts the draws. A method that raises has changed nothing: each checks first.
-- `_tiers` has the three keys that `__init__` writes; `unknown` stands for every other tier name.
pub mod Invariant
pub mod Moves
pub mod Allocations
pub mod Releases
pub mod Pinning
pub mod History
mod Tests
use nano_kvrouter.Prelude.{
  ℕ, zero, suc, ◌+◌, ◌-◌, ◌≡◌, Bool, true, false, Option, none, some, List, [], ◌∷◌, length, leb,
  if◌then◌else◌, Result, ok, raise, value_error, key_error, runtime_error, memory_error, ◌>>=◌,
  ◌>>◌, check,
}
use nano_kvrouter.Prelude.Count.{ℤ, pos, incr, decr, positive}
use nano_kvrouter.Prelude.Dict.{Dict, get, put, remove, get_or, has}
use nano_kvrouter.Prelude.Sets.{update, add, discard}

pub data Tier : Type 0 where
  gpu cpu disk unknown : Tier

-- `a == b` on tier names; every name outside the three is one `unknown`
unfoldable pub same_tier : Tier → Tier → Bool
same_tier gpu gpu = true
same_tier cpu cpu = true
same_tier disk disk = true
same_tier unknown unknown = true
same_tier _ _ = false

pub record TierState : Type 0 where
  pub capacity : ℕ
  pub allocated : List ℕ

unfoldable pub tier_used : TierState → ℕ
tier_used s = length s.allocated

unfoldable pub tier_free : TierState → ℕ
tier_free s = s.capacity - length s.allocated

-- `tier_free s >= n`, over Python's integers
unfoldable pub fits : TierState → ℕ → Bool
fits s n = leb (length s.allocated + n) s.capacity

pub record BlockPool : Type 0 where
  pub gpu_tier : TierState
  pub cpu_tier : TierState
  pub disk_tier : TierState
  pub block_tier : Dict Tier
  pub refs : Dict ℤ
  pub pins : Dict ℤ
  pub drawn : ℕ

unfoldable pub empty_tier : ℕ → TierState
empty_tier n = record { capacity = n; allocated = [] }

-- `__init__`, at the block counts of the node's configuration
unfoldable pub init : ℕ → ℕ → ℕ → BlockPool
unfolding empty_tier
init gpu_blocks cpu_blocks disk_blocks = record {
  gpu_tier = empty_tier gpu_blocks;
  cpu_tier = empty_tier cpu_blocks;
  disk_tier = empty_tier disk_blocks;
  block_tier = [];
  refs = [];
  pins = [];
  drawn = 0;
}

unfoldable pub require_tier : BlockPool → Tier → Result TierState
require_tier p gpu = ok p.gpu_tier
require_tier p cpu = ok p.cpu_tier
require_tier p disk = ok p.disk_tier
require_tier p unknown = raise value_error

-- the write through the reference that `require_tier` returned
unfoldable pub set_tier : BlockPool → Tier → TierState → BlockPool
set_tier p gpu s = record p { gpu_tier = s }
set_tier p cpu s = record p { cpu_tier = s }
set_tier p disk s = record p { disk_tier = s }
set_tier p unknown s = p

-- `self._tiers[tier].allocated.discard(bid)`
unfoldable pub discard_from : BlockPool → Tier → ℕ → BlockPool
discard_from p gpu b = record p {
  gpu_tier = record (p.gpu_tier) { allocated = discard p.gpu_tier.allocated b };
}
discard_from p cpu b = record p {
  cpu_tier = record (p.cpu_tier) { allocated = discard p.cpu_tier.allocated b };
}
discard_from p disk b = record p {
  disk_tier = record (p.disk_tier) { allocated = discard p.disk_tier.allocated b };
}
discard_from p unknown b = p

-- `dst.allocated.add(bid)`
unfoldable pub add_to : BlockPool → Tier → ℕ → BlockPool
add_to p gpu b = record p {
  gpu_tier = record (p.gpu_tier) { allocated = add p.gpu_tier.allocated b };
}
add_to p cpu b = record p {
  cpu_tier = record (p.cpu_tier) { allocated = add p.cpu_tier.allocated b };
}
add_to p disk b = record p {
  disk_tier = record (p.disk_tier) { allocated = add p.disk_tier.allocated b };
}
add_to p unknown b = p

unfoldable pub ref_count : BlockPool → ℕ → ℤ
ref_count p b = get_or p.refs b (pos 0)

unfoldable pub pin_count : BlockPool → ℕ → ℤ
pin_count p b = get_or p.pins b (pos 0)

unfoldable pub tier_of : BlockPool → ℕ → Option Tier
tier_of p b = get p.block_tier b

-- `self._block_tier.get(b) == t`
unfoldable pub is_on : BlockPool → ℕ → Tier → Bool
unfolding same_tier
is_on p b t = elim (get p.block_tier b) [ none ↦ false | some u ↦ same_tier u t ]

-- The writes of `_move`.
unfoldable pub relocate : BlockPool → ℕ → Tier → Tier → BlockPool
unfolding discard_from add_to
relocate p b from_tier to_tier =
    let q = add_to (discard_from p from_tier b) to_tier b in
    record q { block_tier = put p.block_tier b to_tier }

-- `_move`, and `move`, `promote` and `demote`, which only call it and log
unfoldable pub move : BlockPool → ℕ → Tier → Tier → Result BlockPool
unfolding require_tier is_on pin_count positive fits relocate
move p b from_tier to_tier = do
  src ← require_tier p from_tier
  dst ← require_tier p to_tier
  check (is_on p b from_tier) key_error
  if positive (pin_count p b) then raise runtime_error else ok tt
  check (fits dst 1) memory_error
  ok (relocate p b from_tier to_tier)

-- The loop of `allocate` that enters the new ids.
unfoldable pub enter : Tier → List ℕ → BlockPool → BlockPool
enter t [] p = p
enter t (b ∷ bs) p = enter t bs (record p {
  block_tier = put p.block_tier b t;
  refs = put p.refs b (pos 0);
  pins = put p.pins b (pos 0);
})

-- `state.allocated.update(ids)`
unfoldable pub update_tier : BlockPool → Tier → List ℕ → BlockPool
unfolding set_tier
update_tier p gpu ids =
    set_tier p gpu (record (p.gpu_tier) { allocated = update p.gpu_tier.allocated ids })
update_tier p cpu ids =
    set_tier p cpu (record (p.cpu_tier) { allocated = update p.cpu_tier.allocated ids })
update_tier p disk ids =
    set_tier p disk (record (p.disk_tier) { allocated = update p.disk_tier.allocated ids })
update_tier p unknown ids = p

-- The writes of `allocate`.
unfoldable pub admit_ids : Tier → List ℕ → BlockPool → BlockPool
unfolding enter update_tier
admit_ids t ids p = enter t ids (update_tier p t ids)

-- `n` draws of `uuid4()`, from the k-th on
unfoldable pub draw : (ℕ → ℕ) → ℕ → ℕ → List ℕ
draw uuid zero k = []
draw uuid (suc n) k = uuid k ∷ draw uuid n (suc k)

unfoldable pub allocate : (ℕ → ℕ) → ℕ → Tier → BlockPool → Result (List ℕ × BlockPool)
unfolding require_tier fits draw admit_ids
allocate uuid n t p = do
  s ← require_tier p t
  check (fits s n) memory_error
  let ids = draw uuid n p.drawn
  ok (ids, admit_ids t ids (record p { drawn = p.drawn + n }))

-- The first loop of `free`: what it raises, or the `tiers` that it collects.
unfoldable pub validate_free : BlockPool → Dict Tier → List ℕ → Result (Dict Tier)
unfolding pin_count positive
validate_free p seen [] = ok seen
validate_free p seen (b ∷ bs) = elim (has seen b) [
  | true ↦ raise value_error
  | false ↦ elim (get p.block_tier b) [
    | none ↦ raise key_error
    | some t ↦ elim (positive (pin_count p b)) [
      | true ↦ raise runtime_error
      | false ↦ validate_free p (put seen b t) bs
    ]
  ]
]

-- One round of its second loop, and the loop.
unfoldable pub release : BlockPool → ℕ → Tier → BlockPool
unfolding discard_from
release p b t =
    let q = discard_from p t b in
    record q { block_tier = remove p.block_tier b; refs = remove p.refs b; pins = remove p.pins b }

unfoldable pub release_all : BlockPool → Dict Tier → BlockPool
release_all p [] = p
release_all p ((b, t) ∷ rest) = release_all (release p b t) rest

unfoldable pub free : List ℕ → BlockPool → Result BlockPool
free bs p = do tiers ← validate_free p [] bs; ok (release_all p tiers)

-- The first loop of `pin`.
unfoldable pub all_allocated : BlockPool → List ℕ → Bool
all_allocated p [] = true
all_allocated p (b ∷ bs) =
    let rest = all_allocated p bs in if has p.block_tier b then rest else false

unfoldable pub pin_one : BlockPool → ℕ → BlockPool
unfolding incr
pin_one p b = record p {
  refs = put p.refs b (incr (get_or p.refs b (pos 0)));
  pins = put p.pins b (incr (get_or p.pins b (pos 0)));
}

unfoldable pub pin_all : BlockPool → List ℕ → BlockPool
pin_all p [] = p
pin_all p (b ∷ bs) = pin_all (pin_one p b) bs

unfoldable pub pin : List ℕ → BlockPool → Result BlockPool
unfolding all_allocated pin_all pin_one
pin bs p = do check (all_allocated p bs) key_error; ok (pin_all p bs)

-- The first loop of `unpin`.
unfoldable pub check_pinned : BlockPool → List ℕ → Result (Unit {0})
unfolding pin_count ref_count positive
check_pinned p [] = ok tt
check_pinned p (b ∷ bs) = elim (has p.block_tier b) [
  | false ↦ raise key_error
  | true ↦ elim (positive (pin_count p b)) [
    | false ↦ raise runtime_error
    | true ↦ elim (positive (ref_count p b)) [
      | false ↦ raise runtime_error
      | true ↦ check_pinned p bs
    ]
  ]
]

unfoldable pub unpin_one : BlockPool → ℕ → BlockPool
unfolding decr
unpin_one p b = record p {
  refs = put p.refs b (decr (get_or p.refs b (pos 0)));
  pins = put p.pins b (decr (get_or p.pins b (pos 0)));
}

unfoldable pub unpin_all : BlockPool → List ℕ → BlockPool
unpin_all p [] = p
unpin_all p (b ∷ bs) = unpin_all (unpin_one p b) bs

unfoldable pub unpin : List ℕ → BlockPool → Result BlockPool
unfolding check_pinned unpin_all unpin_one
unpin bs p = do check_pinned p bs; ok (unpin_all p bs)

-- `used`
unfoldable pub used : BlockPool → Tier → Result ℕ
unfolding require_tier tier_used
used p t = do s ← require_tier p t; ok (tier_used s)

-- `tiers_of`: the blocks that are still allocated, each with its tier
unfoldable pub tiers_into : BlockPool → List ℕ → Dict Tier → Dict Tier
tiers_into p [] d = d
tiers_into p (b ∷ bs) d = elim (get p.block_tier b) [
  | none ↦ tiers_into p bs d
  | some t ↦ tiers_into p bs (put d b t)
]

unfoldable pub tiers_of : BlockPool → List ℕ → Dict Tier
unfolding tiers_into
tiers_of p bs = tiers_into p bs []
