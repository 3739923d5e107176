-- ===== src/Tree/Purging.antt =====
-- `purge_block_ids`: which nodes leave the tree.
use nano_kvrouter.Prelude.{
  ℕ, suc, ◌+◌, ◌≤◌, ◌≡◌, ◌∙◌, sym, inl, inr, refl, ap, Bool, Option, true, false, ◌&&◌, none, some,
  List, [], ◌∷◌, any, arith, ◌==◌, ==_iff, Bool-cases, Option-cases,
}
use nano_kvrouter.Prelude.Sets.{mem}
use nano_kvrouter.Tree.{Label, RadixTree}
use nano_kvrouter.Tree.Cache.{IsValid}
use nano_kvrouter.Tree.Evict.{owns, find, drop_node}
use nano_kvrouter.Tree.Purge.{is_zombie, purge_nodes, purge_block_ids}
use nano_kvrouter.Tree.Census.{
  weigh, tally, held, IsDistinct, detach-IsDistinct, tally-detach, tally_leaf, find-Leafy,
  find-detach, find-owns, no_value,
}
use nano_kvrouter.Tree.Removal.{Reduces, reduce_more, drop_node-Reduces, Reduces-refl}

any-mem :
    (q : ℕ → Bool) (ids : List ℕ) → any q ids ≡ true → (b : ℕ) × (mem b ids ≡ true) × (q b ≡ true)
unfolding mem
any-mem q [] h = absurd (ground arith)
any-mem q (i ∷ ids) h = elim (Bool-cases (q i)) [
  | inl h1 ↦ (i, ground arith, h1)
  | inr h0 ↦ let (b, m, y) = any-mem q ids (rw h0 at h) in (b, ground arith, y)
]

any_of : (q : ℕ → Bool) (ids : List ℕ) (b : ℕ) → mem b ids ≡ true → q b ≡ true → any q ids ≡ true
unfolding mem
any_of q [] b m y = absurd (ground arith)
any_of q (i ∷ ids) b m y = elim (Bool-cases (i == b)) [
  | inl same ↦ rw ((==_iff i b).0 same, y) refl
  | inr other ↦ let rest = any_of q ids b (rw other at m) y in ground arith
]

no_both : {q : Bool} → q ≡ true → q ≡ false → ⊥
no_both y n = cc

module _ (alive : ℕ → Bool) (freed : List ℕ) {T : Type 0} where
  -- A node that no request holds, with a block of the freed ones and none that the pool knows.
  pub record IsDead (l : Label T) : Type 0 where
    pub unheld : (l.ref_count == 0) ≡ true
    pub lost : ℕ
    pub is_own : mem lost l.block_ids ≡ true
    pub is_freed : mem lost freed ≡ true
    pub unknown : (b : ℕ) → mem b l.block_ids ≡ true → alive b ≡ false

  abbrev doomed : Label T → Bool → Bool
  doomed l leaf = leaf && l.ref_count == 0 && is_zombie alive freed l.block_ids

  doomed-IsDead : (l : Label T) (leaf : Bool) → doomed l leaf ≡ true → (leaf ≡ true) × IsDead l
  unfolding is_zombie
  doomed-IsDead l leaf h =
      let hits = any (λ b. mem b freed) l.block_ids in
      let lives = any alive l.block_ids in
      let some_freed : hits ≡ true = ground arith in
      let (b, own, gone) = any-mem (λ b. mem b freed) l.block_ids some_freed in
      (
        ground arith,
        record {
          unheld = ground arith;
          lost = b;
          is_own = own;
          is_freed = gone;
          unknown = λ k m. elim (Bool-cases (alive k)) [
            | inr h0 ↦ h0
            | inl h1 ↦ let one = any_of alive l.block_ids k m h1 in ground arith
          ];
        },
      )

  abbrev doom : Option (Label T × Bool) → Bool
  doom none = false
  doom (some v) = doomed v.0 v.1

  IsDead-doomed : (l : Label T) → IsDead l → doomed l true ≡ true
  unfolding is_zombie
  IsDead-doomed l d =
      let hit = any_of (λ b. mem b freed) l.block_ids d.lost d.is_own d.is_freed in
      let free = d.unheld in
      elim (Bool-cases (any alive l.block_ids)) [
        | inr none_lives ↦ ground arith
        | inl lives ↦
            let (k, m, y) = any-mem alive l.block_ids lives in
            let n = d.unknown k m in absurd (ground arith)
      ]

  -- What a purge does: it takes `count` nodes from `r`, and leaves `left`.
  pub record Purges (nodes : List ℕ) (r : RadixTree T) (count : ℕ) (left : RadixTree T)
      : Type 0 where
    pub reduces : Reduces r left
    pub counted : tally (λ _. true) left.root + count ≡ tally (λ _. true) r.root
    -- every node that is not dead stays
    pub spared :
        (p : Label T → Bool)
        → ((l : Label T) → IsDead l → p l ≡ false)
        → tally p left.root ≡ tally p r.root
    -- every dead leaf goes
    pub swept :
        (b : ℕ) (l : Label T)
        → mem b nodes ≡ true
        → find b r.root ≡ some (l, true)
        → IsDead l
        → held b left.root ≡ 0
    pub fewer : (p : Label T → Bool) → tally p left.root ≤ tally p r.root

  Purges-refl : (r : RadixTree T) → IsValid r → Purges [] r 0 r
  unfolding mem
  Purges-refl r v = record {
    reduces = Reduces-refl r v;
    counted = omega arith;
    spared = λ p d. refl;
    swept = λ b l m f d. absurd (ground arith);
    fewer = λ p. omega arith;
  }

  -- a node of the index that the loop passes over
  Purges-over :
      (b n : ℕ) (nodes : List ℕ) (r left : RadixTree T)
      → ((l : Label T) → find b r.root ≡ some (l, true) → ¬ IsDead l)
      → Purges nodes r n left
      → Purges (b ∷ nodes) r n left
  unfolding mem
  Purges-over b n nodes r left keep h = record {
    reduces = h.reduces;
    counted = h.counted;
    spared = h.spared;
    swept = λ k l m f d. elim (Bool-cases (b == k)) [
      | inl same ↦ absurd (keep l (rw ((==_iff b k).0 same) f) d)
      | inr other ↦ h.swept k l (rw other at m) f d
    ];
    fewer = h.fewer;
  }

  -- a dead leaf that it takes
  Purges-more :
      (b n : ℕ) (nodes : List ℕ) (r left : RadixTree T) (l : Label T)
      → IsValid r
      → IsDistinct r.root
      → find b r.root ≡ some (l, true)
      → IsDead l
      → Purges nodes (drop_node b r) n left
      → Purges (b ∷ nodes) r (suc n) left
  unfolding mem drop_node weigh
  Purges-more b n nodes r left l v d found dead h =
      let once = drop_node-Reduces b r v in
      let loses = λ (p : Label T → Bool). tally_leaf p b r.root l (d b) found in
      record {
        reduces = reduce_more r (drop_node b r) left once h.reduces;
        counted = omega (arith, loses (λ _. true), h.counted);
        spared = λ p live.
            let kept = h.spared p live in
            let none_lost = rw (live l dead, weigh) at (loses p) in omega arith;
        swept = λ k x m f dd. elim (Bool-cases (b == k)) [
          | inl same ↦
              let fewer = h.fewer (λ l. owns b l.block_ids) in
              let one = d b in
              let lost =
                rw (find-owns b r.root l true found, weigh) at (loses (λ l. owns b l.block_ids)) in
              rw (← (==_iff b k).0 same) (omega arith)
          | inr other ↦
              h.swept k x (rw other at m)
                (find-detach k b r.root x other (find-Leafy b r.root l (d b) found) f) dd
        ];
        fewer = λ p. omega (arith, h.fewer p, tally-detach p b r.root);
      }

  purge_nodes-Purges :
      (nodes : List ℕ) (r : RadixTree T)
      → IsValid r
      → IsDistinct r.root
      → Purges nodes r (purge_nodes alive freed nodes r).0 (purge_nodes alive freed nodes r).1
  unfolding purge_nodes drop_node
  purge_nodes-Purges [] r v d = Purges-refl r v
  purge_nodes-Purges (b ∷ nodes) r v d = elim (Option-cases (find b r.root)) [
    | inl gone ↦
        rw (gone, purge_nodes)
          (Purges-over b _ nodes r _ (λ l f _. absurd (no_value (l, true) (sym gone ∙ f)))
            (purge_nodes-Purges nodes r v d))
    | inr ((l, leaf), found) ↦ elim (Bool-cases (doomed l leaf)) [
      | inr keep ↦
          rw (found, keep, purge_nodes)
            (Purges-over b _ nodes r _
              (λ x f dead. no_both (IsDead-doomed x dead) (ap doom (sym f ∙ found) ∙ keep))
              (purge_nodes-Purges nodes r v d))
      | inl fated ↦
          let (is_leaf, dead) = doomed-IsDead l leaf fated in
          rw (found, fated, purge_nodes)
            (Purges-more b _ nodes r _ l v d (rw is_leaf at found) dead (
              purge_nodes-Purges nodes (drop_node b r) (drop_node-Reduces b r v).1
                (detach-IsDistinct b r.root d)))
    ]
  ]

module _ {T : Type 0} where
  -- purge_block_ids on a valid tree in which no two nodes are filed under the same block id: a
  -- node is dead if no request holds it, one of its blocks is among the freed ones, and the pool
  -- knows none of its blocks. Of the nodes that are not dead none leaves the tree; each dead node
  -- of the index that is a leaf leaves it; the answer is the number of nodes that leave; and the
  -- tree is valid, of the same block size, and caches no sequence that was not cached.
  pub purge_block_ids-Purges :
      (alive : ℕ → Bool) (freed : List ℕ) (r : RadixTree T)
      → IsValid r
      → IsDistinct r.root
      → Purges alive freed r.index r
          (purge_block_ids alive freed r).0
          (purge_block_ids alive freed r).1
  unfolding purge_block_ids mem
  purge_block_ids-Purges alive [] r v d = record {
    reduces = Reduces-refl r v;
    counted = omega arith;
    spared = λ p live. refl;
    swept = λ b l m f dead. absurd (ground (arith, dead.is_freed));
    fewer = λ p. omega arith;
  }
  purge_block_ids-Purges alive (b ∷ freed) r v d =
      purge_nodes-Purges alive (b ∷ freed) r.index r v d
