-- ===== src/Tree/Cache.antt =====
-- `insert` and `match_prefix` together, as a cache of token sequences.
use nano_kvrouter.Prelude.{
  ℕ, ◌≤◌, ◌<◌, ◌≡◌, inl, inr, true, false, List, length, arith, take, take_all, Result, ok, ltb,
  Bool-cases, ltb→lt,
}
use nano_kvrouter.Tree.{Forest, RadixTree, init, grow, insert, match_prefix}
use nano_kvrouter.Tree.Blocks.{IsWellFormed}
use nano_kvrouter.Tree.Match.{cached, IsLongest, walk-IsLongest}
use nano_kvrouter.Tree.Growth.{grow-IsWellFormed, grow-Keeping, grow-Adding}

pub record IsValid {T : Type 0} (r : RadixTree T) : Type 0 where
  pub block_size_pos : 0 < r.block_size
  pub shape : IsWellFormed r.block_size r.root

-- A new tree is valid, whatever block size it is asked for.
pub init-IsValid : (T : Type 0) (n : ℕ) → IsValid (init {T = T} n)
unfolding init
init-IsValid T n = record { block_size_pos = ground arith; shape = tt }

module _ {T : Type 0} (now : T) (us : List ℕ) (r : RadixTree T) (v : IsValid r) where
  -- On a valid tree, match_prefix returns the length of the longest prefix of the tokens that is
  -- a chain of whole edges from the root, where `cached` decides whether a sequence is such a
  -- chain: the prefix of that length is cached, and no longer prefix is.
  pub match_prefix-IsLongest : IsLongest r.block_size r.root us (match_prefix now us r).0.0
  unfolding match_prefix
  match_prefix-IsLongest = walk-IsLongest r.block_size now us r.root v.shape

-- A longest cached prefix is as long as any cached prefix.
longest-le :
    {T : Type 0} (bs n m : ℕ) (us : List ℕ) (f : Forest T)
    → IsLongest bs f us n
    → m ≤ length us
    → cached f (take m us) ≡ true
    → m ≤ n
longest-le bs n m us f (a, b, d) h k = elim (Bool-cases (ltb n m)) [
  | inr late ↦ ground arith
  | inl early ↦ absurd_cached (d m (ltb→lt n m early) h)
]
  where
    absurd_cached : cached f (take m us) ≡ false → m ≤ n
    absurd_cached e = cc

module _ {T S : Type 0} (mint : ℕ → S → Result (List ℕ × S))
    (mints : (n : ℕ) (s s' : S) (ids : List ℕ) → mint n s ≡ ok (ids, s') → length ids ≡ n) (now : T)
    (ts : List ℕ) (r : RadixTree T) (s : S) (v : IsValid r) where
  -- the tree after `insert`, whether it returned or raised
  abbrev pub inserted : RadixTree T
  inserted = (insert mint r.block_size now ts r s).1

  -- insert keeps a tree valid, whether it returns or the allocator raises on the way, when the
  -- allocator returns as many ids as it is asked for: every edge is filed under the first token
  -- of its key, siblings have different first tokens, and each edge owns one block for each
  -- block_size tokens of its key, the last in part, also where an edge is split inside a block.
  pub insert-IsValid : IsValid inserted
  unfolding insert
  insert-IsValid = record {
    block_size_pos = v.block_size_pos;
    shape =
        grow-IsWellFormed mint r.block_size now mints v.block_size_pos r.root ts r.index s v.shape;
  }

  -- On a valid tree, and with an allocator that returns as many ids as it is asked for: once
  -- insert has returned, match_prefix of the same tokens matches all of them.
  pub match-insert :
      (ids : List ℕ)
      → (insert mint r.block_size now ts r s).0 ≡ ok ids
      → (later : T) → (match_prefix later ts inserted).0.0 ≡ length ts
  unfolding match_prefix insert
  match-insert ids h later =
      let f = (grow mint r.block_size now ts r.root r.index s).forest in
      let longest = walk-IsLongest r.block_size later ts f insert-IsValid.shape in
      let all : cached f (take (length ts) ts) ≡ true = rw (take_all (length ts) ts (omega arith)) (
        grow-Adding mint r.block_size now mints v.block_size_pos r.root ts r.index s v.shape ids
          h) in
      omega (arith, longest.0, longest-le r.block_size _ (length ts) ts f longest (omega arith) all)

  -- On a valid tree, and with an allocator that returns as many ids as it is asked for, an
  -- insertion, even one whose allocation raises, shortens the match of no sequence.
  pub match-le-insert :
      (us : List ℕ) (earlier later : T)
      → (match_prefix earlier us r).0.0 ≤ (match_prefix later us inserted).0.0
  unfolding match_prefix insert
  match-le-insert us earlier later =
      let f = (grow mint r.block_size now ts r.root r.index s).forest in
      let before = walk-IsLongest r.block_size earlier us r.root v.shape in
      longest-le r.block_size _ _ us f (walk-IsLongest r.block_size later us f insert-IsValid.shape)
        before.0
        (grow-Keeping mint r.block_size now mints v.block_size_pos r.root ts r.index s v.shape _
          before.1)
