-- ===== src/Tree/Purge.antt =====
-- `purge_block_ids`, `_purge_subtree_alive` and `purge_path_with_any_dead`: nodes whose blocks the
-- pool has forgotten. `alive s b` is `tier_of(b) is not None` in the pool state `s`, and `release` is the
-- callback `free_blocks`, which may raise.
use nano_kvrouter.Prelude.{
  ℕ, suc, ◌+◌, Bool, true, false, not, ◌&&◌, ◌||◌, none, some, List, [], ◌∷◌, length, if◌then◌else◌,
  ◌==◌, ltb, select, any, drop, Result, ok, raise,
}
use nano_kvrouter.Prelude.Sets.{mem}
use nano_kvrouter.Tree.{Label, Forest, empty, child, RadixTree, cp_len}
use nano_kvrouter.Tree.Evict.{find, drop_node, without}

-- The test of the loop of `purge_block_ids`, on a leaf that no request holds.
unfoldable pub is_zombie : (ℕ → Bool) → List ℕ → List ℕ → Bool
is_zombie alive freed ids = any (λ b. mem b freed) ids && not (any alive ids)

unfoldable pub purge_nodes :
    {T : Type 0} → (ℕ → Bool) → List ℕ → List ℕ → RadixTree T → ℕ × RadixTree T
unfolding find drop_node is_zombie
purge_nodes alive freed [] r = (0, r)
purge_nodes alive freed (b ∷ nodes) r = elim (find b r.root) [
  | none ↦ purge_nodes alive freed nodes r
  | some (l, leaf) ↦ elim (leaf && l.ref_count == 0 && is_zombie alive freed l.block_ids) [
    | false ↦ purge_nodes alive freed nodes r
    | true ↦ let next = purge_nodes alive freed nodes (drop_node b r) in (suc next.0, next.1)
  ]
]

unfoldable pub purge_block_ids : {T : Type 0} → (ℕ → Bool) → List ℕ → RadixTree T → ℕ × RadixTree T
unfolding purge_nodes
purge_block_ids alive [] r = (0, r)
purge_block_ids alive (b ∷ freed) r = purge_nodes alive (b ∷ freed) r.index r

-- `self._nodes.pop(block_ids[0], None)` where there is a first id
unfoldable pub pop_first : List ℕ → List ℕ → List ℕ
unfolding without
pop_first [] index = index
pop_first (b ∷ ids) index = without b index

pub record Purged (T S : Type 0) : Type 0 where
  pub out : Result ℕ
  pub forest : Forest T
  pub index : List ℕ
  pub store : S

module _ {S : Type 0} (alive : S → ℕ → Bool) (release : List ℕ → S → Result S) where
  -- alive = [...]; if alive: free_blocks(alive)
  unfoldable pub release_alive : List ℕ → S → Result S
  release_alive ids s = elim (select (alive s) ids) [ [] ↦ ok s | b ∷ bs ↦ release (b ∷ bs) s ]

module _ {T S : Type 0} (alive : S → ℕ → Bool) (release : List ℕ → S → Result S) where
  -- `_purge_subtree_alive`, on the children of a node that is gone
  unfoldable pub purge_subtree_alive : Forest T → List ℕ → S → Result ℕ × List ℕ × S
  unfolding release_alive pop_first
  purge_subtree_alive empty index s = (ok 0, index, s)
  purge_subtree_alive (child c l kids rest) index s =
      elim (release_alive alive release l.block_ids s) [
        | raise e ↦ (raise e, index, s)
        | ok s1 ↦
            let below = purge_subtree_alive kids (pop_first l.block_ids index) s1 in
            elim (below.0) [
              | raise e ↦ below
              | ok n ↦
                  let beside = purge_subtree_alive rest below.1 below.2 in
                  elim (beside.0) [ raise e ↦ beside | ok m ↦ (ok (suc n + m), beside.1, beside.2) ]
            ]
      ]

  -- The purge of one node on the path, with what hangs below it.
  unfoldable pub purge_node : ℕ → Label T → Forest T → Forest T → List ℕ → S → Purged T S
  unfolding release_alive purge_subtree_alive pop_first
  purge_node c l kids rest index s = elim (release_alive alive release l.block_ids s) [
    | raise e ↦ record { out = raise e; forest = child c l kids rest; index = index; store = s }
    | ok s1 ↦
        let below = purge_subtree_alive kids (pop_first l.block_ids index) s1 in
        record {
          out = elim (below.0) [ raise e ↦ raise e | ok n ↦ ok (suc n) ];
          forest = rest;
          index = below.1;
          store = below.2;
        }
  ]

  unfoldable pub purge_path : List ℕ → Forest T → List ℕ → S → Purged T S
  unfolding cp_len purge_node
  purge_path [] f index s = record { out = ok 0; forest = f; index = index; store = s }
  purge_path (t ∷ ts) empty index s = record {
    out = ok 0;
    forest = empty;
    index = index;
    store = s;
  }
  purge_path (t ∷ ts) (child c l kids rest) index s =
      let cp = cp_len (t ∷ ts) l.key in
      let stop : Purged T S = record {
        out = ok 0;
        forest = child c l kids rest;
        index = index;
        store = s;
      } in
      let below = purge_path (drop cp (t ∷ ts)) kids index s in
      let beside = purge_path (t ∷ ts) rest index s in
      if c == t
      then (if ltb 0 l.ref_count || ltb cp (length l.key)
          then stop
          else if any (λ b. not (alive s b)) l.block_ids
          then purge_node c l kids rest index s
          else record below { forest = child c l below.forest rest })
      else record beside { forest = child c l kids beside.forest }

  unfoldable pub purge_path_with_any_dead : List ℕ → RadixTree T → S → Result ℕ × RadixTree T × S
  unfolding purge_path
  purge_path_with_any_dead ts r s =
      let p = purge_path ts r.root r.index s in
      (p.out, record r { root = p.forest; index = p.index }, p.store)
