-- ===== src/Tree/Removal.antt =====
-- Evictions, demotions and purges in kv_cache/radix_tree.py: what they leave of a tree.
use nano_kvrouter.Prelude.{
  ℕ, zero, suc, ◌≤◌, ◌≡◌, inl, inr, refl, Bool, true, ◌&&◌, List, [], ◌∷◌, length, arith, ◌∙◌, ◌==◌,
  any, Bool-cases, Option-cases,
}
use nano_kvrouter.Tree.{Label, Forest, empty, child, RadixTree}
use nano_kvrouter.Tree.Blocks.{absent, IsWellFormed}
use nano_kvrouter.Tree.Match.{cached}
use nano_kvrouter.Tree.Chains.{cached-kids, cached-rest, cached-beside}
use nano_kvrouter.Tree.Cache.{IsValid}
use nano_kvrouter.Tree.Evict.{owns, find, detach, stamp, candidates, victim, drop_node, demote_scan}
use nano_kvrouter.Tree.Purge.{is_zombie, purge_nodes, purge_block_ids}

-- Every sequence that the second forest caches, the first one does.
abbrev pub Shrinks : {T : Type 0} → Forest T → Forest T → Type 0
Shrinks f g = (us : List ℕ) → cached g us ≡ true → cached f us ≡ true

module _ {T : Type 0} where
  shrink_child :
      (c : ℕ) (l : Label T) (kids kids' rest rest' : Forest T)
      → Shrinks kids kids'
      → Shrinks rest rest'
      → Shrinks (child c l kids rest) (child c l kids' rest')
  shrink_child c l kids kids' rest rest' hk hr us h =
      cached-rest c l kids rest' rest us (hr us)
        (cached-kids c l l kids' kids rest' us refl (hk _) h)

  module _ (b : ℕ) where
    absent-detach : (k : ℕ) (f : Forest T) → absent k f ≡ true → absent k (detach b f) ≡ true
    unfolding absent detach
    absent-detach k empty h = h
    absent-detach k (child c l kids rest) h = elim (Bool-cases (owns b l.block_ids)) [
      | inl own ↦ rw own (ground arith)
      | inr other ↦ rw other (ground (arith, absent-detach k rest))
    ]

    detach-IsWellFormed : (bs : ℕ) (f : Forest T) → IsWellFormed bs f → IsWellFormed bs (detach b f)
    unfolding detach
    detach-IsWellFormed bs empty w = w
    detach-IsWellFormed bs (child c l kids rest) w = elim (Bool-cases (owns b l.block_ids)) [
      | inl own ↦ rw own (w.3)
      | inr other ↦ rw other (
        w.0,
        absent-detach c rest w.1,
        detach-IsWellFormed bs kids w.2,
        detach-IsWellFormed bs rest w.3,
      )
    ]

    detach-Shrinks : (f : Forest T) → Shrinks f (detach b f)
    unfolding detach
    detach-Shrinks empty us h = h
    detach-Shrinks (child c l kids rest) us h = elim (Bool-cases (owns b l.block_ids)) [
      | inl own ↦ cached-beside c l kids rest us (rw own at h)
      | inr other ↦
          shrink_child c l kids (detach b kids) rest (detach b rest) (detach-Shrinks kids)
            (detach-Shrinks rest) us (rw other at h)
    ]

    absent-stamp :
        (t : T) (k : ℕ) (f : Forest T) → absent k f ≡ true → absent k (stamp t b f) ≡ true
    unfolding absent stamp
    absent-stamp t k empty h = h
    absent-stamp t k (child c l kids rest) h = elim (Bool-cases (owns b l.block_ids)) [
      | inl own ↦ rw own h
      | inr other ↦ rw other (ground (arith, absent-stamp t k rest))
    ]

    stamp-IsWellFormed :
        (t : T) (bs : ℕ) (f : Forest T) → IsWellFormed bs f → IsWellFormed bs (stamp t b f)
    unfolding stamp
    stamp-IsWellFormed t bs empty w = w
    stamp-IsWellFormed t bs (child c l kids rest) w = elim (Bool-cases (owns b l.block_ids)) [
      | inl own ↦
          rw own
            (record { tail = w.0.tail; headed = w.0.headed; blocks = w.0.blocks }, w.1, w.2, w.3)
      | inr other ↦ rw other (
        w.0,
        absent-stamp t c rest w.1,
        stamp-IsWellFormed t bs kids w.2,
        stamp-IsWellFormed t bs rest w.3,
      )
    ]

    stamp-Shrinks : (t : T) (f : Forest T) → Shrinks f (stamp t b f)
    unfolding stamp
    stamp-Shrinks t empty us h = h
    stamp-Shrinks t (child c l kids rest) us h = elim (Bool-cases (owns b l.block_ids)) [
      | inl own ↦
          cached-kids c (record l { last_access = t }) l kids kids rest us refl (λ x. x)
            (rw own at h)
      | inr other ↦
          shrink_child c l kids (stamp t b kids) rest (stamp t b rest) (stamp-Shrinks t kids)
            (stamp-Shrinks t rest) us (rw other at h)
    ]

  -- A tree that is still valid and caches nothing new.
  abbrev pub Reduces : RadixTree T → RadixTree T → Type 0
  Reduces r q = (q.block_size ≡ r.block_size) × IsValid q × Shrinks r.root q.root

  pub reduce_more : (r q p : RadixTree T) → Reduces r q → Reduces q p → Reduces r p
  reduce_more r q p (e, v, h) (e', v', h') = (e' ∙ e, v', λ us k. h us (h' us k))

  pub drop_node-Reduces : (b : ℕ) (r : RadixTree T) → IsValid r → Reduces r (drop_node b r)
  unfolding drop_node
  drop_node-Reduces b r v = (
    refl,
    record {
      block_size_pos = v.block_size_pos;
      shape = detach-IsWellFormed b r.block_size r.root v.shape;
    },
    detach-Shrinks b r.root,
  )

  stamp-Reduces :
      (t : T) (b : ℕ) (r : RadixTree T)
      → IsValid r
      → Reduces r (record r { root = stamp t b r.root })
  stamp-Reduces t b r v = (
    refl,
    record {
      block_size_pos = v.block_size_pos;
      shape = stamp-IsWellFormed b t r.block_size r.root v.shape;
    },
    stamp-Shrinks b t r.root,
  )

  pub Reduces-refl : (r : RadixTree T) → IsValid r → Reduces r r
  Reduces-refl r v = (refl, v, λ us h. h)

  pub demote_scan-Reduces :
      (lt : T → T → Bool) (alive pinned : ℕ → Bool) (later : T) (scans n : ℕ) (r : RadixTree T)
      → IsValid r
      → Reduces r (demote_scan lt alive pinned later scans n r).1
        × (length (demote_scan lt alive pinned later scans n r).0 ≤ n)
  unfolding demote_scan
  demote_scan-Reduces lt alive pinned later zero n r v = (Reduces-refl r v, omega arith)
  demote_scan-Reduces lt alive pinned later (suc scans) zero r v = (Reduces-refl r v, omega arith)
  demote_scan-Reduces lt alive pinned later (suc scans) (suc n) r v =
      elim (Option-cases (victim lt (candidates pinned r.root r.index))) [
        | inl nothing ↦ rw (nothing, demote_scan) (Reduces-refl r v, omega arith)
        | inr ((b, l), found) ↦ elim (Bool-cases (any alive l.block_ids)) [
          | inr zombie ↦
              let once = drop_node-Reduces b r v in
              let (more, few) =
                demote_scan-Reduces lt alive pinned later scans (suc n) (drop_node b r) once.1 in
              rw (found, zombie, demote_scan) (reduce_more r (drop_node b r) _ once more, few)
          | inl live ↦
              let once = stamp-Reduces later b r v in
              let (more, few) =
                demote_scan-Reduces lt alive pinned later scans n
                  (record r { root = stamp later b r.root }) once.1 in
              rw (found, live, demote_scan)
                (
                  reduce_more r (record r { root = stamp later b r.root }) _ once more,
                  omega (arith, few),
                )
        ]
      ]

  purge_nodes-Reduces :
      (alive : ℕ → Bool) (freed nodes : List ℕ) (r : RadixTree T)
      → IsValid r
      → Reduces r (purge_nodes alive freed nodes r).1
  unfolding purge_nodes
  purge_nodes-Reduces alive freed [] r v = Reduces-refl r v
  purge_nodes-Reduces alive freed (b ∷ nodes) r v = elim (Option-cases (find b r.root)) [
    | inl gone ↦ rw (gone, purge_nodes) (purge_nodes-Reduces alive freed nodes r v)
    | inr ((l, leaf), found) ↦
        elim (Bool-cases (leaf && l.ref_count == 0 && is_zombie alive freed l.block_ids)) [
          | inr keep ↦ rw (found, keep, purge_nodes) (purge_nodes-Reduces alive freed nodes r v)
          | inl dead ↦
              let once = drop_node-Reduces b r v in
              rw (found, dead, purge_nodes)
                (reduce_more r (drop_node b r) _ once
                  (purge_nodes-Reduces alive freed nodes (drop_node b r) once.1))
        ]
  ]

  pub purge_block_ids-Reduces :
      (alive : ℕ → Bool) (freed : List ℕ) (r : RadixTree T)
      → IsValid r
      → Reduces r (purge_block_ids alive freed r).1
  unfolding purge_block_ids
  purge_block_ids-Reduces alive [] r v = Reduces-refl r v
  purge_block_ids-Reduces alive (b ∷ freed) r v = purge_nodes-Reduces alive (b ∷ freed) r.index r v
