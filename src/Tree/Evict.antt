-- ===== src/Tree/Evict.antt =====
-- `evict_lru`, `evict_lru_with_lengths` and `demote_lru`: the choice of a least recently used leaf.
use nano_kvrouter.Prelude.{
  ℕ, zero, suc, ◌+◌, Bool, true, false, not, ◌&&◌, Option, none, some, List, [], ◌∷◌, length,
  if◌then◌else◌, ◌==◌, any,
}
use nano_kvrouter.Prelude.Choice.{min_by}
use nano_kvrouter.Tree.{Label, Forest, empty, child, RadixTree}

-- the first of a node's block ids is `b`
unfoldable pub owns : ℕ → List ℕ → Bool
owns b [] = false
owns b (i ∷ ids) = i == b

-- `del self._nodes[b]`, or `pop`
unfoldable pub without : ℕ → List ℕ → List ℕ
without b [] = []
without b (i ∷ index) = let rest = without b index in if i == b then rest else i ∷ rest

module _ {T : Type 0} where
  unfoldable pub is_leaf : Forest T → Bool
  is_leaf empty = true
  is_leaf (child c l kids rest) = false

  unfoldable pub first_of_two :
      Option (Label T × Bool) → Option (Label T × Bool) → Option (Label T × Bool)
  first_of_two none y = y
  first_of_two (some x) y = some x

  -- `_nodes[b]`, with whether it is a leaf
  unfoldable pub find : ℕ → Forest T → Option (Label T × Bool)
  unfolding owns is_leaf first_of_two
  find b empty = none
  find b (child c l kids rest) =
      let below = find b kids in
      let beside = find b rest in
      if owns b l.block_ids then some (l, is_leaf kids) else first_of_two below beside

  -- `del victim.parent.children[victim.key[0]]`, with all that hangs below the node
  unfoldable pub detach : ℕ → Forest T → Forest T
  unfolding owns
  detach b empty = empty
  detach b (child c l kids rest) =
      let kids' = detach b kids in
      let rest' = detach b rest in if owns b l.block_ids then rest else child c l kids' rest'

  -- `victim.last_access_time = t`
  unfoldable pub stamp : T → ℕ → Forest T → Forest T
  unfolding owns
  stamp t b empty = empty
  stamp t b (child c l kids rest) =
      let kids' = stamp t b kids in
      let rest' = stamp t b rest in
      if owns b l.block_ids
      then child c (record l { last_access = t }) kids rest
      else child c l kids' rest'

  -- The candidates, in the order of `_nodes`: the leaves that no request holds, and that `pinned`
  -- does not exclude. A node is named by its first block id.
  unfoldable pub candidates : (ℕ → Bool) → Forest T → List ℕ → List (ℕ × Label T)
  unfolding find
  candidates pinned f [] = []
  candidates pinned f (b ∷ index) =
      let rest = candidates pinned f index in
      elim (find b f) [
        | none ↦ rest
        | some (l, leaf) ↦
            if leaf && l.ref_count == 0 && not (any pinned l.block_ids) then (b, l) ∷ rest else rest
      ]

  -- `min(candidates, key=last_access_time)`: the first with the least time. `lt` is `<` on times.
  unfoldable pub oldest : (T → T → Bool) → (ℕ × Label T) → List (ℕ × Label T) → ℕ × Label T
  unfolding min_by
  oldest lt best xs = min_by (λ x y. lt x.1.last_access y.1.last_access) best xs

  unfoldable pub victim : (T → T → Bool) → List (ℕ × Label T) → Option (ℕ × Label T)
  unfolding oldest
  victim lt [] = none
  victim lt (x ∷ xs) = some (oldest lt x xs)

  unfoldable pub drop_node : ℕ → RadixTree T → RadixTree T
  unfolding detach without
  drop_node b r = record r { root = detach b r.root; index = without b r.index }

  -- `evict_lru`; the victims' labels, in order, of which it returns the block ids
  unfoldable pub evict : (T → T → Bool) → ℕ → RadixTree T → List (Label T) × RadixTree T
  unfolding candidates victim drop_node
  evict lt zero r = ([], r)
  evict lt (suc n) r = elim (victim lt (candidates (λ _. false) r.root r.index)) [
    | none ↦ ([], r)
    | some (b, l) ↦ let next = evict lt n (drop_node b r) in (l ∷ next.0, next.1)
  ]

  unfoldable pub ids_of : List (Label T) → List (List ℕ)
  ids_of [] = []
  ids_of (l ∷ ls) = l.block_ids ∷ ids_of ls

  unfoldable pub lengths_of : List (Label T) → List ℕ
  lengths_of [] = []
  lengths_of (l ∷ ls) = length l.key ∷ lengths_of ls

  unfoldable pub evict_lru : (T → T → Bool) → ℕ → RadixTree T → List (List ℕ) × RadixTree T
  unfolding evict ids_of
  evict_lru lt n r = let done = evict lt n r in (ids_of done.0, done.1)

  unfoldable pub evict_lru_with_lengths : (T → T → Bool) → ℕ → RadixTree T → List ℕ × RadixTree T
  unfolding evict lengths_of
  evict_lru_with_lengths lt n r = let done = evict lt n r in (lengths_of done.0, done.1)

  -- The scan of `demote_lru`, on `scans` rounds left and `n` nodes still wanted: `alive` is
  -- `tier_of(b) is not None`, and `later` what the clock returns, plus 1e-9. The cache manager passes
  -- both optional arguments, and so does the model.
  unfoldable pub demote_scan :
      (T → T → Bool)
      → (ℕ → Bool)
      → (ℕ → Bool)
      → T
      → ℕ
      → ℕ
      → RadixTree T
      → List (List ℕ) × RadixTree T
  unfolding candidates victim drop_node stamp
  demote_scan lt alive pinned later zero n r = ([], r)
  demote_scan lt alive pinned later (suc scans) zero r = ([], r)
  demote_scan lt alive pinned later (suc scans) (suc n) r =
      elim (victim lt (candidates pinned r.root r.index)) [
        | none ↦ ([], r)
        | some (b, l) ↦ elim (any alive l.block_ids) [
          | false ↦ demote_scan lt alive pinned later scans (suc n) (drop_node b r)
          | true ↦
              let next =
                demote_scan lt alive pinned later scans n
                  (record r { root = stamp later b r.root }) in
              (l.block_ids ∷ next.0, next.1)
        ]
      ]

  unfoldable pub demote_lru :
      (T → T → Bool) → (ℕ → Bool) → (ℕ → Bool) → T → ℕ → RadixTree T → List (List ℕ) × RadixTree T
  unfolding demote_scan
  demote_lru lt alive pinned later n r =
      demote_scan lt alive pinned later (length r.index + n + 1) n r
