-- ===== src/Manager/Answers.antt =====
-- What `lookup` answers.
use nano_kvrouter.Prelude.{
  ℕ, ◌+◌, ◌*◌, ◌/◌, ◌≤◌, ◌<◌, ◌≡◌, inl, inr, refl, some, List, [], ◌∷◌, ok, take, length,
  length-take, arith, ◌==◌, Bool-cases, Option-cases,
}
use nano_kvrouter.Prelude.Dict.{Dict, get}
use nano_kvrouter.Prelude.Float.{Float}
use nano_kvrouter.Pool.{BlockPool, Tier, gpu, cpu, disk, unknown, tiers_of}
use nano_kvrouter.Tree.{match_prefix_path}
use nano_kvrouter.Tree.Match.{walk-IsLongest}
use nano_kvrouter.Tree.Cache.{IsValid}
use nano_kvrouter.Manager.{NodeCache, Manager, on_node}
use nano_kvrouter.Manager.Lookup.{
  TierCounts, no_counts, count_tier, count_tiers, total_count, CacheLookup, Costs, no_hit, answer,
  lookup_node, lookup,
}

count_tier-le : (t : Tier) (n : TierCounts) → total_count (count_tier t n) ≤ total_count n + 1
unfolding count_tier total_count
count_tier-le gpu n = omega arith
count_tier-le cpu n = omega arith
count_tier-le disk n = omega arith
count_tier-le unknown n = omega arith

count_tiers-le :
    (tiers : Dict Tier) (bs : List ℕ) (n : TierCounts)
    → total_count (count_tiers tiers bs n) ≤ total_count n + length bs
unfolding count_tiers
count_tiers-le tiers [] n = omega arith
count_tiers-le tiers (b ∷ bs) n = elim (Option-cases (get tiers b)) [
  | inl c ↦ rw (c, count_tiers) (omega (arith, count_tiers-le tiers bs n))
  | inr (t, c) ↦
      rw (c, count_tiers)
        (omega (arith, count_tiers-le tiers bs (count_tier t n), count_tier-le t n))
]

div_mul_le : (a b c : ℕ) → 0 < b → c ≤ a / b → c * b ≤ a
div_mul_le a b c pos h = grind arith

module _ (F : Float) where
  -- no more than was matched, in whole blocks
  abbrev pub IsAnswer : ℕ → ℕ → CacheLookup F → Type 0
  IsAnswer bs n a = (a.matched_tokens ≤ n) × (a.matched_tokens ≡ total_count a.by_tier * bs)

  answer-IsAnswer :
      (k : Costs F) (bs : ℕ) (p : BlockPool) (found : ℕ × List ℕ)
      → 0 < bs
      → IsAnswer bs found.0 (answer F k bs p found)
  unfolding answer no_hit total_count
  answer-IsAnswer k bs p found pos =
      let relevant = take (found.0 / bs) found.1 in
      let counts = count_tiers (tiers_of p relevant) relevant no_counts in
      let few : total_count counts ≤ found.0 / bs = omega (
        arith,
        count_tiers-le (tiers_of p relevant) relevant no_counts,
        length-take (found.0 / bs) found.1,
      ) in
      let bounded = div_mul_le found.0 bs (total_count counts) pos few in
      elim (Bool-cases ((found.0 / bs) == 0)) [
        | inl c ↦ rw c (omega arith, omega arith)
        | inr c ↦ elim (Bool-cases (total_count counts == 0)) [
          | inl d ↦ rw (c, d) (omega arith, omega arith)
          | inr d ↦ rw (c, d) (bounded, refl)
        ]
      ]

  -- On a known node with a valid tree, and for a positive block size, lookup returns an answer
  -- whose matched tokens are no more than the tokens asked for, and are the block size times the
  -- number of matched blocks on the three tiers.
  pub lookup-IsAnswer :
      {T : Type 0} (k : Costs F) (now : T) (ts : List ℕ) (i : ℕ) (m : Manager T) (c : NodeCache T)
      → 0 < m.block_size
      → get m.nodes i ≡ some c
      → IsValid c.tree
      → (a : CacheLookup F) × ((lookup F k now ts i m).0 ≡ ok a)
        × IsAnswer m.block_size (length ts) a
  unfolding lookup lookup_node on_node match_prefix_path
  lookup-IsAnswer k now ts i m c pos here v =
      let found = (match_prefix_path now ts c.tree).0 in
      let longest = walk-IsLongest c.tree.block_size now ts c.tree.root v.shape in
      let (few, whole) = answer-IsAnswer k m.block_size c.pool found pos in
      (
        answer F k m.block_size c.pool found,
        rw (here, on_node) refl,
        (omega (arith, few, longest.0), whole),
      )
