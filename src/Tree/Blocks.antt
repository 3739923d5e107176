-- ===== src/Tree/Blocks.antt =====
-- The shape of a prefix tree: every edge is filed under the first token of its key, and owns one
-- block for each `block_size` tokens of the key, the last of them perhaps in part.
use nano_kvrouter.Prelude.{ℕ, ◌≡◌, Bool, true, not, ◌&&◌, List, ◌∷◌, length, ◌==◌}
use nano_kvrouter.Tree.{Label, Forest, empty, child, n_blocks}

-- The key begins with its token, and has its blocks.
pub record IsEdge {T : Type 0} (bs c : ℕ) (l : Label T) : Type 0 where
  pub tail : List ℕ
  pub headed : l.key ≡ c ∷ tail
  pub blocks : length l.block_ids ≡ n_blocks bs l.key

module _ {T : Type 0} where
  -- no entry of a `children` dict has this key
  unfoldable pub absent : ℕ → Forest T → Bool
  absent t empty = true
  absent t (child c l kids rest) = not (c == t) && absent t rest

  abbrev pub IsWellFormed : ℕ → Forest T → Type 0
  IsWellFormed bs empty = Unit
  IsWellFormed bs (child c l kids rest) =
      IsEdge bs c l × (absent c rest ≡ true) × IsWellFormed bs kids × IsWellFormed bs rest
