-- ===== src/Tree/Recency.antt =====
-- The choice among the candidates for eviction and demotion.
use nano_kvrouter.Prelude.{
  ℕ, ◌≡◌, inl, inr, ap, subst, Bool, true, false, not, ◌&&◌, Option, none, some, List, [], ◌∷◌,
  arith, ◌==◌, any, All, Bool-cases, Option-cases,
}
use nano_kvrouter.Prelude.Choice.{IsKeyOrder, min_by-All, min_by-NoneLess}
use nano_kvrouter.Tree.{Label, Forest, RadixTree}
use nano_kvrouter.Tree.Evict.{find, candidates, oldest, victim}

abbrev value_of : {A : Type 0} → A → Option A → A
value_of z none = z
value_of z (some a) = a

value_eq : {A : Type 0} (a b : A) → some a ≡ some b → a ≡ b
value_eq a b e = ap (value_of a) e

module _ {T : Type 0} where
  -- no time in the list is less than t
  abbrev pub NoneBefore : (T → T → Bool) → T → List (ℕ × Label T) → Type 0
  NoneBefore lt t cs = All (λ x. lt x.1.last_access t ≡ false) cs

  -- a leaf of the tree that no request holds, and that `pinned` does not exclude
  abbrev pub IsEvictable : (ℕ → Bool) → Forest T → ℕ × Label T → Type 0
  IsEvictable pinned f (b, l) =
      (find b f ≡ some (l, true)) × ((l.ref_count == 0) ≡ true) × (any pinned l.block_ids ≡ false)

  candidates-IsEvictable :
      (pinned : ℕ → Bool) (f : Forest T) (index : List ℕ)
      → All (IsEvictable pinned f) (candidates pinned f index)
  unfolding candidates
  candidates-IsEvictable pinned f [] = tt
  candidates-IsEvictable pinned f (b ∷ index) = elim (Option-cases (find b f)) [
    | inl none_found ↦ rw (none_found, candidates) (candidates-IsEvictable pinned f index)
    | inr ((l, leaf), found) ↦
        elim (Bool-cases (leaf && l.ref_count == 0 && not (any pinned l.block_ids))) [
          | inl holds ↦
              rw (found, holds, candidates)
                (
                  (
                    rw (leaf_of leaf (l.ref_count == 0) (not (any pinned l.block_ids)) holds) at
                        found,
                    ground arith,
                    ground arith,
                  ),
                  candidates-IsEvictable pinned f index,
                )
          | inr fails ↦ rw (found, fails, candidates) (candidates-IsEvictable pinned f index)
        ]
  ]
    where
      leaf_of : (x y z : Bool) → (x && y && z) ≡ true → x ≡ true
      leaf_of x y z h = ground arith

  pub victim-IsEvictable :
      (lt : T → T → Bool) (pinned : ℕ → Bool) (r : RadixTree T) (v : ℕ × Label T)
      → victim lt (candidates pinned r.root r.index) ≡ some v
      → IsEvictable pinned r.root v
  unfolding victim oldest
  victim-IsEvictable lt pinned r v h =
      pick (candidates pinned r.root r.index) (candidates-IsEvictable pinned r.root r.index) h
    where
      pick :
          (cs : List (ℕ × Label T))
          → All (IsEvictable pinned r.root) cs
          → victim lt cs ≡ some v
          → IsEvictable pinned r.root v
      pick [] es e = absurd (ground arith)
      pick (x ∷ xs) es e = subst (IsEvictable pinned r.root) (value_eq (oldest lt x xs) v e) (
          min_by-All (λ x y. lt x.1.last_access y.1.last_access) (IsEvictable pinned r.root) x xs
            es)

  module _ (lt : T → T → Bool) (o : IsKeyOrder lt) where
    by_age : IsKeyOrder {A = ℕ × Label T} (λ x y. lt x.1.last_access y.1.last_access)
    by_age = record {
      asym = λ x y h. o.asym x.1.last_access y.1.last_access h;
      chain = λ x y z h k. o.chain x.1.last_access y.1.last_access z.1.last_access h k;
    }

    -- The node that eviction or demotion chooses among the candidates is a leaf that no request
    -- holds and that is not excluded as pinned, and no candidate was used earlier, if `<` on
    -- times is asymmetric and what is not less can be chained.
    pub victim-oldest :
        (pinned : ℕ → Bool) (r : RadixTree T) (v : ℕ × Label T)
        → victim lt (candidates pinned r.root r.index) ≡ some v
        → IsEvictable pinned r.root v
          × NoneBefore lt v.1.last_access (candidates pinned r.root r.index)
    unfolding victim oldest
    victim-oldest pinned r v h =
        pick (candidates pinned r.root r.index) (candidates-IsEvictable pinned r.root r.index) h
      where
        pick :
            (cs : List (ℕ × Label T))
            → All (IsEvictable pinned r.root) cs
            → victim lt cs ≡ some v
            → IsEvictable pinned r.root v × NoneBefore lt v.1.last_access cs
        pick [] es e = absurd (ground arith)
        pick (x ∷ xs) es e =
            subst (λ w. IsEvictable pinned r.root w × NoneBefore lt w.1.last_access (x ∷ xs))
              (value_eq (oldest lt x xs) v e)
              (
                min_by-All (λ x y. lt x.1.last_access y.1.last_access) (IsEvictable pinned r.root) x
                    xs es,
                min_by-NoneLess (λ x y. lt x.1.last_access y.1.last_access) by_age x xs,
              )
