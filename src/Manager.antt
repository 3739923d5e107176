-- ===== src/Manager.antt =====
-- kv_cache/cache_manager.py and kv_cache/block_table.py: the prefix tree and the block pool of each
-- node. `NodeCache` is what the manager holds for one node; `T` is the type of time stamps.
pub mod Demote
pub mod Lookup
pub mod Answers
pub mod Soundness
pub mod Admissions
pub mod Rank
pub mod Rounds
pub mod Termination
mod Tests
pub mod Admit
pub mod Requests
use nano_kvrouter.Prelude.{
  ℕ, ◌+◌, ◌*◌, ◌≡◌, Bool, Option, none, some, List, [], ◌∷◌, Result, ok, raise, key_error,
}
use nano_kvrouter.Prelude.Dict.{Dict, get, put, has}
use nano_kvrouter.Pool.{BlockPool, Tier, gpu, allocate}
use nano_kvrouter.Pool
use nano_kvrouter.Tree.{RadixTree}
use nano_kvrouter.Tree

pub record NodeCache (T : Type 0) : Type 0 where
  pub tree : RadixTree T
  pub pool : BlockPool

-- `RequestBlockTable`
pub record BlockTable : Type 0 where
  pub request_id : ℕ
  pub node_id : ℕ
  pub block_ids : List ℕ
  pub matched_blocks : ℕ
  pub new_blocks : ℕ

pub record Manager (T : Type 0) : Type 0 where
  pub block_size : ℕ
  pub gpu_capacity : ℕ
  pub nodes : Dict (NodeCache T)
  pub tables : List BlockTable

-- The pool and the tree of one node, in `__init__`.
unfoldable pub init_node : {T : Type 0} → ℕ → ℕ → ℕ → ℕ → NodeCache T
init_node bs g c d = record { tree = Tree.init bs; pool = Pool.init g c d }

unfoldable pub init_nodes : {T : Type 0} → ℕ → ℕ → ℕ → ℕ → List ℕ → Dict (NodeCache T)
unfolding init_node
init_nodes bs g c d [] = []
init_nodes bs g c d (i ∷ is) = put (init_nodes bs g c d is) i (init_node bs g c d)

unfoldable pub init : {T : Type 0} → ℕ → ℕ → ℕ → ℕ → List ℕ → Manager T
unfolding init_nodes
init bs g c d ids = record {
  block_size = bs;
  gpu_capacity = g;
  nodes = init_nodes bs g c d ids;
  tables = [];
}

-- `tier_of(b) is not None`
unfoldable pub alive : BlockPool → ℕ → Bool
alive p b = has p.block_tier b

-- A method of one node's cache, at a node id.
unfoldable pub on_node :
    {T A : Type 0} → ℕ → (NodeCache T → Result A × NodeCache T) → Manager T → Result A × Manager T
on_node i f m = elim (get m.nodes i) [
  | none ↦ (raise key_error, m)
  | some c ↦ let done = f c in (done.0, record m { nodes = put m.nodes i done.1 })
]
