-- ===== src/Tree.antt =====
-- kv_cache/radix_tree.py: the prefix tree from token sequences to KV block ids.
-- A `RadixNode` is a `Label` and the `Forest` of its children, the ordered dict from first token to
-- child; `parent` is the place in the tree. The root has no label: its `block_ids` are []. `_nodes`
-- maps a node's first block id to the node: the model keeps its keys, in the dict's order, and finds
-- the node in the tree. `T` is the type of time stamps, and `now` what the clock returns.
pub mod Blocks
pub mod Match
pub mod Ceil
pub mod Chains
pub mod Insert
pub mod Grow
pub mod Growth
pub mod Cache
pub mod Evict
pub mod Purge
pub mod Removal
pub mod Census
pub mod Recency
pub mod Eviction
pub mod Purging
pub mod Stores
pub mod Paths
pub mod Returns
mod Tests
use nano_kvrouter.Prelude.{
  ℕ, zero, suc, ◌+◌, ◌-◌, ◌/◌, ◌≡◌, Bool, true, false, Option, none, some, List, [], ◌∷◌, ◌++◌,
  length, leb, ltb, if◌then◌else◌, ◌==◌, Result, ok, raise, Error, index_error, ◌>>=◌, Exec, next,
  then_do, take, drop,
}
use nano_kvrouter.Prelude.Sets.{mem}

pub record Label (T : Type 0) : Type 0 where
  pub key : List ℕ
  pub block_ids : List ℕ
  pub last_access : T
  pub ref_count : ℕ

-- `child c l kids rest`: the entry `c` of a `children` dict, then the entries after it
pub data Forest (T : Type 0) : Type 0 where
  empty : Forest T
  child : ℕ → Label T → Forest T → Forest T → Forest T

pub record RadixTree (T : Type 0) : Type 0 where
  pub block_size : ℕ
  pub root : Forest T
  pub index : List ℕ

-- `__init__`; the block size is `max(1, block_size)`
unfoldable pub init : {T : Type 0} → ℕ → RadixTree T
init n = record { block_size = if n == 0 then 1 else n; root = empty; index = [] }

-- (n + block_size - 1) // block_size
unfoldable pub ceil_div : ℕ → ℕ → ℕ
ceil_div bs n = (n + bs - 1) / bs

-- `_n_blocks`
unfoldable pub n_blocks : ℕ → List ℕ → ℕ
unfolding ceil_div
n_blocks bs [] = 0
n_blocks bs (t ∷ ts) = ceil_div bs (length (t ∷ ts))

-- `_cp_len`
unfoldable pub cp_len : List ℕ → List ℕ → ℕ
cp_len [] ys = 0
cp_len (x ∷ xs) [] = 0
cp_len (x ∷ xs) (y ∷ ys) = let n = cp_len xs ys in if x == y then suc n else 0

-- `best_ids`: the ids of the deepest node, [] at the root
unfoldable pub deepest : List (List ℕ) → List ℕ
deepest [] = []
deepest (ids ∷ []) = ids
deepest (ids ∷ more ∷ rest) = deepest (more ∷ rest)

-- `path_block_ids`
unfoldable pub concat : List (List ℕ) → List ℕ
concat [] = []
concat (ids ∷ rest) = ids ++ concat rest

unfoldable pub first_token : List ℕ → ℕ
first_token [] = 0
first_token (t ∷ ts) = t

module _ {T : Type 0} where
  unfoldable pub touch : T → Label T → Label T
  touch now l = record l { last_access = now }

  -- The loop that `match_prefix` and `match_prefix_path` share, below one node: how many tokens are
  -- matched, the `block_ids` of each node on the way, and the children with their new time stamps.
  unfoldable pub walk : T → List ℕ → Forest T → ℕ × List (List ℕ) × Forest T
  unfolding touch cp_len
  walk now [] f = (0, [], f)
  walk now (t ∷ ts) empty = (0, [], empty)
  walk now (t ∷ ts) (child c l kids rest) =
      let below = walk now (drop (cp_len (t ∷ ts) l.key) (t ∷ ts)) kids in
      let beside = walk now (t ∷ ts) rest in
      if c == t
      then (if ltb (cp_len (t ∷ ts) l.key) (length l.key) then (0, [], child c l kids rest) else (
        cp_len (t ∷ ts) l.key + below.0,
        l.block_ids ∷ below.1,
        child c (touch now l) below.2 rest,
      ))
      else (beside.0, beside.1, child c l kids beside.2)

  unfoldable pub match_prefix : T → List ℕ → RadixTree T → (ℕ × List ℕ) × RadixTree T
  unfolding walk deepest
  match_prefix now ts r =
      let found = walk now ts r.root in ((found.0, deepest found.1), record r { root = found.2 })

  unfoldable pub match_prefix_path : T → List ℕ → RadixTree T → (ℕ × List ℕ) × RadixTree T
  unfolding walk concat
  match_prefix_path now ts r =
      let found = walk now ts r.root in ((found.0, concat found.1), record r { root = found.2 })

  -- A new node.
  unfoldable pub fresh_label : List ℕ → List ℕ → T → Label T
  fresh_label key ids now = record { key = key; block_ids = ids; last_access = now; ref_count = 0 }

-- `_nodes[ids[0]] = node`, an `IndexError` where there is no id
unfoldable pub index_put : List ℕ → Exec (List ℕ) Unit
index_put [] index = (raise index_error, index)
index_put (b ∷ ids) index = (ok tt, if mem b index then index else index ++ b ∷ [])

-- `insert`, where `mint` is the allocator that the tree was given, over a state of type S.
-- An allocation that raises leaves the tree as far changed as `insert` has come.
pub record Grown (T S : Type 0) : Type 0 where
  pub out : Result (List ℕ)
  pub forest : Forest T
  pub index : List ℕ
  pub store : S

module _ {T S : Type 0} (mint : ℕ → S → Result (List ℕ × S)) (bs : ℕ) (now : T) where
  -- No edge starts with the token: a new leaf, last in the dict.
  unfoldable pub sprout : ℕ → List ℕ → List ℕ → S → Grown T S
  unfolding n_blocks fresh_label index_put
  sprout t ts index s = elim (mint (n_blocks bs (t ∷ ts)) s) [
    | raise e ↦ record { out = raise e; forest = empty; index = index; store = s }
    | ok (ids, s') ↦
        let filed = index_put ids index in
        record {
          out = filed.0 >>= λ _. ok ids;
          forest = child t (fresh_label (t ∷ ts) ids now) empty empty;
          index = filed.1;
          store = s';
        }
  ]

  -- The new block that the second half of a split needs where a block straddles the split.
  unfoldable pub mint_head : ℕ → List ℕ → List ℕ → S → Result (List ℕ × S)
  unfolding ceil_div
  mint_head cp key ids s =
      if ltb (length ids) (ceil_div bs cp + ceil_div bs (length key - cp))
      then mint 1 s
      else ok ([], s)

  -- The leaf below a split is filed in `_nodes` before it is hung under its parent.
  unfoldable pub hung : Grown T S → Forest T
  hung g = elim (g.out) [ raise e ↦ empty | ok ids ↦ g.forest ]

  -- the leaf for the rest of the sequence, below a node `mid` whose children are `lows`
  unfoldable pub split_tail :
      ℕ → Label T → (Forest T → Forest T) → List ℕ → Forest T → List ℕ → S → Grown T S
  unfolding sprout hung
  split_tail c mid lows [] rest index s = record {
    out = ok mid.block_ids;
    forest = child c mid (lows empty) rest;
    index = index;
    store = s;
  }
  split_tail c mid lows (t ∷ ts) rest index s =
      let leaf = sprout t ts index s in record leaf { forest = child c mid (lows (hung leaf)) rest }

  -- The split of the edge `l` at `cp`, once its head block is there, and the leaf for the rest `tail`
  -- of the sequence. `tail[0]` is not the first token left on the edge, which parts from it there.
  unfoldable pub split_edge :
      ℕ → Label T → Forest T → List ℕ → Forest T → ℕ → List ℕ → List ℕ → S → Grown T S
  unfolding split_tail fresh_label index_put ceil_div first_token
  split_edge c l kids tail rest cp head index s =
      let mid = fresh_label (take cp l.key) (take (ceil_div bs cp) l.block_ids) now in
      let low = record l {
        key = drop cp l.key;
        block_ids = head ++ drop (ceil_div bs cp) l.block_ids;
      } in
      let lows : Forest T → Forest T = child (first_token low.key) low kids in
      let filed = then_do (index_put mid.block_ids) (λ _. index_put low.block_ids) index in
      elim (filed.0) [
        | raise e ↦ record {
          out = raise e;
          forest = child c mid (lows empty) rest;
          index = filed.1;
          store = s;
        }
        | ok _ ↦ split_tail c mid lows tail rest filed.1 s
      ]

  unfoldable pub split : ℕ → Label T → Forest T → List ℕ → Forest T → ℕ → List ℕ → S → Grown T S
  unfolding mint_head split_edge
  split c l kids tail rest cp index s = elim (mint_head cp l.key l.block_ids s) [
    | raise e ↦ record { out = raise e; forest = child c l kids rest; index = index; store = s }
    | ok (head, s') ↦ split_edge c l kids tail rest cp head index s'
  ]

  -- The loop of `insert` below one node.
  unfoldable pub grow : List ℕ → Forest T → List ℕ → S → Grown T S
  unfolding sprout split cp_len touch
  grow [] f index s = record { out = ok []; forest = f; index = index; store = s }
  grow (t ∷ ts) empty index s = sprout t ts index s
  grow (t ∷ ts) (child c l kids rest) index s =
      let cp = cp_len (t ∷ ts) l.key in
      let left = drop cp (t ∷ ts) in
      let below = grow left kids index s in
      let beside = grow (t ∷ ts) rest index s in
      if c == t
      then (if cp == length l.key
          then elim left [
            | [] ↦ record {
              out = ok l.block_ids;
              forest = child c (touch now l) kids rest;
              index = index;
              store = s;
            }
            | _ ∷ _ ↦ record below { forest = child c (touch now l) below.forest rest }
          ]
          else split c l kids left rest cp index s)
      else record beside { forest = child c l kids beside.forest }

  unfoldable pub insert : List ℕ → RadixTree T → S → Result (List ℕ) × RadixTree T × S
  unfolding grow
  insert ts r s =
      let g = grow ts r.root r.index s in
      (g.out, record r { root = g.forest; index = g.index }, g.store)
