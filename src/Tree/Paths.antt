-- ===== src/Tree/Paths.antt =====
-- The shape of a tree after a match, and after the purge of a path.
use nano_kvrouter.Prelude.{
  ℕ, ◌≡◌, ◌⊎◌, inl, inr, refl, Bool, true, not, ◌||◌, List, [], ◌∷◌, length, arith, drop, ◌==◌, ltb,
  any, Bool-cases, Result, Result-cases,
}
use nano_kvrouter.Tree.{
  Label, Forest, empty, child, RadixTree, cp_len, touch, walk, match_prefix_path,
}
use nano_kvrouter.Tree.Blocks.{absent, IsWellFormed}
use nano_kvrouter.Tree.Cache.{IsValid}
use nano_kvrouter.Tree.Purge.{release_alive, purge_node, purge_path, purge_path_with_any_dead}

module _ {T : Type 0} where
  absent-walk :
      (now : T) (us : List ℕ) (k : ℕ) (f : Forest T)
      → absent k f ≡ true
      → absent k (walk now us f).2 ≡ true
  unfolding walk absent
  absent-walk now [] k f h = h
  absent-walk now (t ∷ ts) k empty h = h
  absent-walk now (t ∷ ts) k (child c l kids rest) h = elim (Bool-cases (c == t)) [
    | inr other ↦ rw other (ground (arith, absent-walk now (t ∷ ts) k rest))
    | inl here ↦ elim (Bool-cases (ltb (cp_len (t ∷ ts) l.key) (length l.key))) [
      | inl part ↦ rw (here, part) h
      | inr whole ↦ rw (here, whole) h
    ]
  ]

  walk-IsWellFormed :
      (bs : ℕ) (now : T) (us : List ℕ) (f : Forest T)
      → IsWellFormed bs f
      → IsWellFormed bs (walk now us f).2
  unfolding walk touch
  walk-IsWellFormed bs now [] f w = w
  walk-IsWellFormed bs now (t ∷ ts) empty w = w
  walk-IsWellFormed bs now (t ∷ ts) (child c l kids rest) w = elim (Bool-cases (c == t)) [
    | inr other ↦
        rw other (
          w.0,
          absent-walk now (t ∷ ts) c rest w.1,
          w.2,
          walk-IsWellFormed bs now (t ∷ ts) rest w.3,
        )
    | inl here ↦ elim (Bool-cases (ltb (cp_len (t ∷ ts) l.key) (length l.key))) [
      | inl part ↦ rw (here, part) w
      | inr whole ↦
          rw (here, whole)
            (
              record { tail = w.0.tail; headed = w.0.headed; blocks = w.0.blocks },
              w.1,
              walk-IsWellFormed bs now (drop (cp_len (t ∷ ts) l.key) (t ∷ ts)) kids w.2,
              w.3,
            )
    ]
  ]

  pub match_prefix_path-IsValid :
      (now : T) (us : List ℕ) (r : RadixTree T) → IsValid r → IsValid (match_prefix_path now us r).1
  unfolding match_prefix_path
  match_prefix_path-IsValid now us r v = record {
    block_size_pos = v.block_size_pos;
    shape = walk-IsWellFormed r.block_size now us r.root v.shape;
  }

module _ {T S : Type 0} (alive : S → ℕ → Bool) (release : List ℕ → S → Result S) where
  purge_node-forest :
      (c : ℕ) (l : Label T) (kids rest : Forest T) (index : List ℕ) (s : S)
      → ((purge_node alive release c l kids rest index s).forest ≡ child c l kids rest)
        ⊎ ((purge_node alive release c l kids rest index s).forest ≡ rest)
  unfolding purge_node
  purge_node-forest c l kids rest index s =
      elim (Result-cases (release_alive alive release l.block_ids s)) [
        | inr (e, bad) ↦ inl (rw (bad, purge_node) refl)
        | inl (s1, good) ↦ inr (rw (good, purge_node) refl)
      ]

  absent-purge_path :
      (ts : List ℕ) (k : ℕ) (f : Forest T) (index : List ℕ) (s : S)
      → absent k f ≡ true
      → absent k (purge_path alive release ts f index s).forest ≡ true
  unfolding purge_path absent
  absent-purge_path [] k f index s h = h
  absent-purge_path (t ∷ ts) k empty index s h = h
  absent-purge_path (t ∷ ts) k (child c l kids rest) index s h = elim (Bool-cases (c == t)) [
    | inr other ↦ rw other (ground (arith, absent-purge_path (t ∷ ts) k rest index s))
    | inl here ↦
        elim (Bool-cases (ltb 0 l.ref_count || ltb (cp_len (t ∷ ts) l.key) (length l.key))) [
          | inl stop ↦ rw (here, stop) h
          | inr on ↦ elim (Bool-cases (any (λ b. not (alive s b)) l.block_ids)) [
            | inr live ↦ rw (here, on, live) h
            | inl dead ↦ elim (purge_node-forest c l kids rest index s) [
              | inl same ↦ rw (here, on, dead, same) h
              | inr gone ↦ rw (here, on, dead, gone) (ground arith)
            ]
          ]
        ]
  ]

  purge_path-IsWellFormed :
      (bs : ℕ) (ts : List ℕ) (f : Forest T) (index : List ℕ) (s : S)
      → IsWellFormed bs f
      → IsWellFormed bs (purge_path alive release ts f index s).forest
  unfolding purge_path
  purge_path-IsWellFormed bs [] f index s w = w
  purge_path-IsWellFormed bs (t ∷ ts) empty index s w = w
  purge_path-IsWellFormed bs (t ∷ ts) (child c l kids rest) index s w = elim (Bool-cases (c == t)) [
    | inr other ↦ rw other (
      w.0,
      absent-purge_path (t ∷ ts) c rest index s w.1,
      w.2,
      purge_path-IsWellFormed bs (t ∷ ts) rest index s w.3,
    )
    | inl here ↦
        elim (Bool-cases (ltb 0 l.ref_count || ltb (cp_len (t ∷ ts) l.key) (length l.key))) [
          | inl stop ↦ rw (here, stop) w
          | inr on ↦ elim (Bool-cases (any (λ b. not (alive s b)) l.block_ids)) [
            | inr live ↦
                rw (here, on, live)
                  (
                    w.0,
                    w.1,
                    purge_path-IsWellFormed bs (drop (cp_len (t ∷ ts) l.key) (t ∷ ts)) kids index s
                        w.2,
                    w.3,
                  )
            | inl dead ↦ elim (purge_node-forest c l kids rest index s) [
              | inl same ↦ rw (here, on, dead, same) w
              | inr gone ↦ rw (here, on, dead, gone) w.3
            ]
          ]
        ]
  ]

  pub purge_path_with_any_dead-IsValid :
      (ts : List ℕ) (r : RadixTree T) (s : S)
      → IsValid r
      → IsValid (purge_path_with_any_dead alive release ts r s).1
  unfolding purge_path_with_any_dead
  purge_path_with_any_dead-IsValid ts r s v = record {
    block_size_pos = v.block_size_pos;
    shape = purge_path-IsWellFormed r.block_size ts r.root r.index s v.shape;
  }
