-- ===== src/Tree/Census.antt =====
-- Counting the nodes of a prefix tree, and what the removal of a leaf does to the counts.
use nano_kvrouter.Prelude.{
  ℕ, ◌+◌, ◌≤◌, ◌<◌, ◌≡◌, ◌≢◌, ◌⊎◌, inl, inr, refl, ap, sym, ◌∙◌, Bool, true, false, Option, none,
  some, List, [], ◌∷◌, arith, Bool-cases, ◌==◌,
}
use nano_kvrouter.Tree.{Label, Forest, empty, child}
use nano_kvrouter.Tree.Evict.{owns, find, detach, is_leaf, first_of_two}

unfoldable pub weigh : Bool → ℕ
weigh true = 1
weigh false = 0

no_zero : (m n : ℕ) → 1 + m + n ≢ 0
no_zero m n e = omega arith

owns_two : (b k : ℕ) (ids : List ℕ) → (k == b) ≡ false → owns k ids ≡ true → owns b ids ≡ false
unfolding owns
owns_two b k [] n h = refl
owns_two b k (i ∷ ids) n h = ground arith

module _ {T : Type 0} where
  -- how many nodes pass the test
  unfoldable pub tally : (Label T → Bool) → Forest T → ℕ
  unfolding weigh
  tally p empty = 0
  tally p (child c l kids rest) = weigh (p l) + tally p kids + tally p rest

  -- how many nodes are filed under the block id
  abbrev pub held : ℕ → Forest T → ℕ
  held b f = tally (λ l. owns b l.block_ids) f

  -- No two nodes are filed under the same block id.
  abbrev pub IsDistinct : Forest T → Type 0
  IsDistinct f = (b : ℕ) → held b f ≤ 1

  -- every node that is filed under the block id is a leaf
  abbrev pub Leafy : ℕ → Forest T → Type 0
  Leafy b empty = Unit
  Leafy b (child c l kids rest) =
      (owns b l.block_ids ≡ true → is_leaf kids ≡ true) × Leafy b kids × Leafy b rest

  leaf-tally : (p : Label T → Bool) (f : Forest T) → is_leaf f ≡ true → tally p f ≡ 0
  unfolding is_leaf tally
  leaf-tally p empty h = refl
  leaf-tally p (child c l kids rest) h = absurd (ground arith)

  leaf-detach : (b : ℕ) (f : Forest T) → is_leaf f ≡ true → detach b f ≡ f
  unfolding is_leaf detach
  leaf-detach b empty h = refl
  leaf-detach b (child c l kids rest) h = absurd (ground arith)

  leaf-find : (b : ℕ) (f : Forest T) → is_leaf f ≡ true → find b f ≡ none
  unfolding is_leaf find
  leaf-find b empty h = refl
  leaf-find b (child c l kids rest) h = absurd (ground arith)

  first_of_two-cases :
      (x y : Option (Label T × Bool)) (v : Label T × Bool)
      → first_of_two x y ≡ some v
      → (x ≡ some v) ⊎ ((x ≡ none) × (y ≡ some v))
  unfolding first_of_two
  first_of_two-cases none y v h = inr (refl, h)
  first_of_two-cases (some x) y v h = inl h

  abbrev label_of : Label T → Option (Label T × Bool) → Label T
  label_of z none = z
  label_of z (some v) = v.0

  abbrev leaf_of : Option (Label T × Bool) → Bool
  leaf_of none = false
  leaf_of (some v) = v.1

  pub no_value : (v : Label T × Bool) → none ≢ some v
  no_value v e = cc

  find-held : (b : ℕ) (f : Forest T) (v : Label T × Bool) → find b f ≡ some v → 0 < held b f
  unfolding find tally weigh
  find-held b empty v h = absurd (no_value v h)
  find-held b (child c l kids rest) v h = elim (Bool-cases (owns b l.block_ids)) [
    | inl own ↦ rw (own, weigh) (omega arith)
    | inr other ↦ elim (first_of_two-cases (find b kids) (find b rest) v (rw other at h)) [
      | inl k ↦ omega (arith, find-held b kids v k)
      | inr (n, k) ↦ omega (arith, find-held b rest v k)
    ]
  ]

  pub find-owns :
      (b : ℕ) (f : Forest T) (l : Label T) (leaf : Bool)
      → find b f ≡ some (l, leaf)
      → owns b l.block_ids ≡ true
  unfolding find
  find-owns b empty l leaf h = absurd (no_value _ h)
  find-owns b (child c x kids rest) l leaf h = elim (Bool-cases (owns b x.block_ids)) [
    | inl own ↦
        let same : x ≡ l = ap (label_of x) (rw own at h) in
        ap (λ y. owns b y.block_ids) (sym same) ∙ own
    | inr other ↦ elim (first_of_two-cases (find b kids) (find b rest) (l, leaf) (rw other at h)) [
      | inl k ↦ find-owns b kids l leaf k
      | inr (n, k) ↦ find-owns b rest l leaf k
    ]
  ]

  detach_none : (b : ℕ) (f : Forest T) → held b f ≡ 0 → detach b f ≡ f
  unfolding detach tally weigh
  detach_none b empty h = refl
  detach_none b (child c l kids rest) h = elim (Bool-cases (owns b l.block_ids)) [
    | inl own ↦ absurd (no_zero (held b kids) (held b rest) (rw (own, weigh) at h))
    | inr other ↦
        rw (other, detach_none b kids (omega arith), detach_none b rest (omega arith)) refl
  ]

  pub tally-detach : (p : Label T → Bool) (b : ℕ) (f : Forest T) → tally p (detach b f) ≤ tally p f
  unfolding detach tally
  tally-detach p b empty = omega arith
  tally-detach p b (child c l kids rest) = elim (Bool-cases (owns b l.block_ids)) [
    | inl own ↦ rw own (omega arith)
    | inr other ↦ rw other (omega (arith, tally-detach p b kids, tally-detach p b rest))
  ]

  pub detach-IsDistinct : (b : ℕ) (f : Forest T) → IsDistinct f → IsDistinct (detach b f)
  detach-IsDistinct b f d k =
      let low = tally-detach (λ l. owns k l.block_ids) b f in let one = d k in omega arith

  -- A leaf that is removed is gone from the counts, and nothing else is.
  pub tally_leaf :
      (p : Label T → Bool) (b : ℕ) (f : Forest T) (l : Label T)
      → held b f ≤ 1
      → find b f ≡ some (l, true)
      → tally p (detach b f) + weigh (p l) ≡ tally p f
  unfolding find detach tally
  tally_leaf p b empty l d h = absurd (no_value (l, true) h)
  tally_leaf p b (child c x kids rest) l d h = elim (Bool-cases (owns b x.block_ids)) [
    | inl own ↦
        let found = rw own at h in
        let same : x ≡ l = ap (label_of x) found in
        let none_below = leaf-tally p kids (ap leaf_of found) in
        let weighed : weigh (p x) ≡ weigh (p l) = ap (λ y. weigh (p y)) same in rw own (omega arith)
    | inr other ↦
        let few = rw (other, weigh) at d in
        elim (first_of_two-cases (find b kids) (find b rest) (l, true) (rw other at h)) [
          | inl k ↦
              let one = find-held b kids (l, true) k in
              let below = tally_leaf p b kids l (omega arith) k in
              rw (other, detach_none b rest (omega arith)) (omega arith)
          | inr (n, k) ↦
              let one = find-held b rest (l, true) k in
              let beside = tally_leaf p b rest l (omega arith) k in
              rw (other, detach_none b kids (omega arith)) (omega arith)
        ]
  ]

  none-Leafy : (b : ℕ) (f : Forest T) → held b f ≡ 0 → Leafy b f
  unfolding tally weigh
  none-Leafy b empty h = tt
  none-Leafy b (child c l kids rest) h = (
    λ own. absurd (no_zero (held b kids) (held b rest) (rw (own, weigh) at h)),
    none-Leafy b kids (omega arith),
    none-Leafy b rest (omega arith),
  )

  pub find-Leafy :
      (b : ℕ) (f : Forest T) (l : Label T) → held b f ≤ 1 → find b f ≡ some (l, true) → Leafy b f
  unfolding find tally
  find-Leafy b empty l d h = tt
  find-Leafy b (child c x kids rest) l d h = elim (Bool-cases (owns b x.block_ids)) [
    | inl own ↦
        let few = rw (own, weigh) at d in
        let found = rw own at h in
        (λ _. ap leaf_of found, none-Leafy b kids (omega arith), none-Leafy b rest (omega arith))
    | inr other ↦
        let few = rw (other, weigh) at d in
        elim (first_of_two-cases (find b kids) (find b rest) (l, true) (rw other at h)) [
          | inl k ↦
              let one = find-held b kids (l, true) k in
              (
                λ own. absurd (both own other),
                find-Leafy b kids l (omega arith) k,
                none-Leafy b rest (omega arith),
              )
          | inr (n, k) ↦
              let one = find-held b rest (l, true) k in
              (
                λ own. absurd (both own other),
                none-Leafy b kids (omega arith),
                find-Leafy b rest l (omega arith) k,
              )
        ]
  ]
    where
      both : {q : Bool} → q ≡ true → q ≡ false → ⊥
      both y n = cc

  first_of_two-none :
      (x y : Option (Label T × Bool)) → first_of_two x y ≡ none → (x ≡ none) × (y ≡ none)
  unfolding first_of_two
  first_of_two-none none y h = (refl, h)
  first_of_two-none (some x) y h = absurd (no_value x (sym h))

  missing_stays : (b k : ℕ) (f : Forest T) → find b f ≡ none → find b (detach k f) ≡ none
  unfolding find detach first_of_two
  missing_stays b k empty h = refl
  missing_stays b k (child c l kids rest) h = elim (Bool-cases (owns b l.block_ids)) [
    | inl here ↦ absurd (no_value _ (sym (rw here at h)))
    | inr not_here ↦
        let (below, beside) = first_of_two-none (find b kids) (find b rest) (rw not_here at h) in
        elim (Bool-cases (owns k l.block_ids)) [
          | inl own ↦ rw own beside
          | inr other ↦
              rw
                (other, find, not_here, missing_stays b k kids below, missing_stays b k rest beside)
                refl
        ]
  ]

  -- The removal of one leaf leaves every other leaf where it was.
  pub find-detach :
      (b k : ℕ) (f : Forest T) (l : Label T)
      → (k == b) ≡ false
      → Leafy k f
      → find b f ≡ some (l, true)
      → find b (detach k f) ≡ some (l, true)
  unfolding find detach first_of_two
  find-detach b k empty l n y h = h
  find-detach b k (child c x kids rest) l n (y, yk, yr) h = elim (Bool-cases (owns k x.block_ids)) [
    | inl own ↦
        rw own (rw (owns_two b k x.block_ids n own, leaf-find b kids (y own), first_of_two) at h)
    | inr other ↦ elim (Bool-cases (owns b x.block_ids)) [
      | inl here ↦
          let found = rw here at h in
          rw (other, leaf-detach k kids (ap leaf_of found), find, here) found
      | inr not_here ↦
          elim (first_of_two-cases (find b kids) (find b rest) (l, true) (rw not_here at h)) [
            | inl below ↦
                rw (other, find, not_here, find-detach b k kids l n yk below, first_of_two) refl
            | inr (none_below, beside) ↦
                rw
                  (
                    other,
                    find,
                    not_here,
                    missing_stays b k kids none_below,
                    find-detach b k rest l n yr beside,
                    first_of_two,
                  )
                  refl
          ]
    ]
  ]
