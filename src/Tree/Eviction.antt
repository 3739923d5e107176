-- ===== src/Tree/Eviction.antt =====
-- `evict_lru` and `evict_lru_with_lengths`: which nodes leave the tree.
use nano_kvrouter.Prelude.{
  ℕ, zero, suc, ◌+◌, ◌≤◌, ◌<◌, ◌≡◌, ◌≢◌, ◌&&◌, not, any, ==_iff, Bool-cases, inl, inr, refl, Bool,
  true, false, none, some, List, [], ◌∷◌, length, All, arith, ◌==◌, Option-cases,
}
use nano_kvrouter.Prelude.Sets.{mem}
use nano_kvrouter.Tree.{Forest, Label, RadixTree}
use nano_kvrouter.Tree.Cache.{IsValid}
use nano_kvrouter.Tree.Evict.{find, candidates, victim, drop_node, evict}
use nano_kvrouter.Tree.Census.{weigh, tally, IsDistinct, detach-IsDistinct, tally_leaf}
use nano_kvrouter.Tree.Recency.{victim-IsEvictable}
use nano_kvrouter.Tree.Removal.{Reduces, reduce_more, drop_node-Reduces, Reduces-refl}

unpinned : (ids : List ℕ) → any (λ _. false) ids ≡ false
unpinned [] = refl
unpinned (i ∷ ids) = unpinned ids

module _ {T : Type 0} where
  -- how many labels pass the test
  unfoldable pub among : (Label T → Bool) → List (Label T) → ℕ
  unfolding weigh
  among p [] = 0
  among p (l ∷ ls) = weigh (p l) + among p ls

  -- every leaf of the index is held by a request
  abbrev pub AllHeld : RadixTree T → Type 0
  AllHeld r =
      (b : ℕ) (l : Label T)
      → mem b r.index ≡ true
      → find b r.root ≡ some (l, true)
      → (l.ref_count == 0) ≡ false

  -- What the eviction of up to n nodes of `r` does: `taken` are their labels, and `left` the tree.
  pub record Evicts (n : ℕ) (r : RadixTree T) (taken : List (Label T)) (left : RadixTree T)
      : Type 0 where
    pub reduces : Reduces r left
    -- each node is either taken or left, whatever one counts
    pub parted : (p : Label T → Bool) → tally p left.root + among p taken ≡ tally p r.root
    -- no request holds a node that is taken
    pub unheld : All (λ l. (l.ref_count == 0) ≡ true) taken
    pub few : length taken ≤ n
    -- it stops early only where no request leaves a leaf of the index free
    pub enough : length taken < n → AllHeld left

  victim-none : (lt : T → T → Bool) (cs : List (ℕ × Label T)) → victim lt cs ≡ none → cs ≡ []
  unfolding victim
  victim-none lt [] h = refl
  victim-none lt (c ∷ cs) h = absurd (ground arith)

  candidates-AllHeld :
      (f : Forest T) (index : List ℕ) (b : ℕ) (l : Label T)
      → candidates (λ _. false) f index ≡ []
      → mem b index ≡ true
      → find b f ≡ some (l, true)
      → (l.ref_count == 0) ≡ false
  unfolding candidates mem
  candidates-AllHeld f [] b l h m k = absurd (ground arith)
  candidates-AllHeld f (i ∷ index) b l h m k = elim (Bool-cases (i == b)) [
    | inl same ↦
        let found : find i f ≡ some (l, true) = rw ((==_iff i b).0 same) k in
        elim (Bool-cases (l.ref_count == 0)) [
          | inr taken ↦ taken
          | inl free ↦ absurd (some_first (rw (found, candidates, free, unpinned l.block_ids) at h))
        ]
    | inr other ↦ elim (Option-cases (find i f)) [
      | inl gone ↦ candidates-AllHeld f index b l (rw (gone, candidates) at h) (rw other at m) k
      | inr ((x, leaf), found) ↦
          elim (Bool-cases (leaf && x.ref_count == 0 && not (any (λ _. false) x.block_ids))) [
            | inl yes_it_is ↦ absurd (some_first (rw (found, yes_it_is, candidates) at h))
            | inr no_it_is ↦
                candidates-AllHeld f index b l (rw (found, no_it_is, candidates) at h)
                  (rw other at m) k
          ]
    ]
  ]
    where
      some_first : {x : ℕ × Label T} {xs : List (ℕ × Label T)} → x ∷ xs ≢ []
      some_first e = cc

  Evicts-nothing : (n : ℕ) (r : RadixTree T) → IsValid r → (0 < n → AllHeld r) → Evicts n r [] r
  unfolding among
  Evicts-nothing n r v none_left = record {
    reduces = Reduces-refl r v;
    parted = λ p. omega arith;
    unheld = tt;
    few = omega arith;
    enough = none_left;
  }

  Evicts-more :
      (n b : ℕ) (r : RadixTree T) (l : Label T) (taken : List (Label T)) (left : RadixTree T)
      → Reduces r (drop_node b r)
      → ((p : Label T → Bool) → tally p (drop_node b r).root + weigh (p l) ≡ tally p r.root)
      → (l.ref_count == 0) ≡ true
      → Evicts n (drop_node b r) taken left
      → Evicts (suc n) r (l ∷ taken) left
  unfolding among
  Evicts-more n b r l taken left once one free more = record {
    reduces = reduce_more r (drop_node b r) left once more.reduces;
    parted = λ p. omega (arith, one p, more.parted p);
    unheld = (free, more.unheld);
    few = omega (arith, more.few);
    enough = λ k. more.enough (omega arith);
  }

  -- Eviction of up to n nodes from a valid tree in which no two nodes are filed under the same
  -- block id: each node is either taken or still in the tree, counted by any test of nodes; no
  -- request holds a node that is taken; at most n are taken, and fewer only if a request holds
  -- each leaf of the index that is left; and the tree is valid, of the same block size, and
  -- caches no sequence that was not cached.
  pub evict-Evicts :
      (lt : T → T → Bool) (n : ℕ) (r : RadixTree T)
      → IsValid r
      → IsDistinct r.root
      → Evicts n r (evict lt n r).0 (evict lt n r).1
  unfolding evict drop_node
  evict-Evicts lt zero r v d = Evicts-nothing 0 r v (λ k. absurd (omega arith))
  evict-Evicts lt (suc n) r v d =
      elim (Option-cases (victim lt (candidates (λ _. false) r.root r.index))) [
        | inl nothing ↦
            rw (nothing, evict)
              (Evicts-nothing (suc n) r v
                (λ _ b l m k. candidates-AllHeld r.root r.index b l (victim-none lt _ nothing) m k))
        | inr ((b, l), found) ↦
            let (leaf, free, _) = victim-IsEvictable lt (λ _. false) r (b, l) found in
            let once = drop_node-Reduces b r v in
            rw (found, evict)
              (Evicts-more n b r l _ _ once (λ p. tally_leaf p b r.root l (d b) leaf) free
                (evict-Evicts lt n (drop_node b r) once.1 (detach-IsDistinct b r.root d)))
      ]
