-- ===== src/Tree/Stores.antt =====
-- The state of the allocator and of the release callback through `insert` and the purge of a path.
use nano_kvrouter.Prelude.{
  List-cases, ℕ, ◌+◌, ◌-◌, ◌≡◌, inl, inr, ap, Bool, not, ◌||◌, List, [], ◌∷◌, length, drop, ◌==◌,
  ltb, select, any, Bool-cases, Result, ok, raise, Result-cases, then_do, take, ◌++◌,
}
use nano_kvrouter.Tree.{
  Label, Forest, empty, child, n_blocks, ceil_div, cp_len, sprout, mint_head, split_edge, split,
  split_tail, index_put, first_token, fresh_label, grow,
}
use nano_kvrouter.Tree.Purge.{release_alive, purge_subtree_alive, purge_node, purge_path, pop_first}

abbrev store_of : {A S : Type 0} → S → Result (A × S) → S
store_of z (ok (a, s)) = s
store_of z (raise e) = z

module _ {T S : Type 0} (mint : ℕ → S → Result (List ℕ × S)) (bs : ℕ) (now : T) (P : S → Type 0)
    (keeps : (n : ℕ) (s s' : S) (ids : List ℕ) → mint n s ≡ ok (ids, s') → P s → P s') where
  sprout-keeps :
      (t : ℕ) (ts index : List ℕ) (s : S) → P s → P (sprout mint bs now t ts index s).store
  unfolding sprout
  sprout-keeps t ts index s h = elim (Result-cases (mint (n_blocks bs (t ∷ ts)) s)) [
    | inr (e, bad) ↦ rw (bad, sprout) h
    | inl ((ids, s'), good) ↦ rw (good, sprout) (keeps _ s s' ids good h)
  ]

  mint_head-keeps :
      (cp : ℕ) (key ids head : List ℕ) (s s' : S)
      → mint_head mint bs now cp key ids s ≡ ok (head, s')
      → P s
      → P s'
  unfolding mint_head
  mint_head-keeps cp key ids head s s' e h =
      elim (Bool-cases (ltb (length ids) (ceil_div bs cp + ceil_div bs (length key - cp)))) [
        | inl c ↦ keeps 1 s s' head (rw c at e) h
        | inr c ↦ rw (← ap (store_of s) (rw c at e)) h
      ]

  split_edge-keeps :
      (c : ℕ) (l : Label T) (kids : Forest T) (tail : List ℕ) (rest : Forest T) (cp : ℕ)
      (head index : List ℕ) (s : S)
      → P s
      → P (split_edge mint bs now c l kids tail rest cp head index s).store
  unfolding split_edge split_tail
  split_edge-keeps c l kids tail rest cp head index s h =
      let mid = fresh_label (take cp l.key) (take (ceil_div bs cp) l.block_ids) now in
      let ids = head ++ drop (ceil_div bs cp) l.block_ids in
      let low = record l { key = drop cp l.key; block_ids = ids } in
      let filed = then_do (index_put mid.block_ids) (λ _. index_put ids) index in
      elim (Result-cases filed.0) [
        | inr (e, bad) ↦ rw (bad, split_edge) h
        | inl (_, good) ↦
            rw (good, split_edge)
              (below mid (child (first_token (drop cp l.key)) low kids) tail filed.1)
      ]
    where
      below :
          (mid : Label T) (lows : Forest T → Forest T) (tl i : List ℕ)
          → P (split_tail mint bs now c mid lows tl rest i s).store
      below mid lows [] i = h
      below mid lows (t ∷ ts) i = sprout-keeps t ts i s h

  split-keeps :
      (c : ℕ) (l : Label T) (kids : Forest T) (tail : List ℕ) (rest : Forest T) (cp : ℕ)
      (index : List ℕ) (s : S)
      → P s
      → P (split mint bs now c l kids tail rest cp index s).store
  unfolding split
  split-keeps c l kids tail rest cp index s h =
      elim (Result-cases (mint_head mint bs now cp l.key l.block_ids s)) [
        | inr (e, bad) ↦ rw (bad, split) h
        | inl ((head, s'), good) ↦
            rw (good, split)
              (split_edge-keeps c l kids tail rest cp head index s'
                (mint_head-keeps cp l.key l.block_ids head s s' good h))
      ]

  pub grow-keeps :
      (ts : List ℕ) (f : Forest T) (index : List ℕ) (s : S)
      → P s
      → P (grow mint bs now ts f index s).store
  unfolding grow
  grow-keeps [] f index s h = h
  grow-keeps (t ∷ ts) empty index s h = sprout-keeps t ts index s h
  grow-keeps (t ∷ ts) (child c l kids rest) index s h = elim (Bool-cases (c == t)) [
    | inr other ↦ rw other (grow-keeps (t ∷ ts) rest index s h)
    | inl here ↦ elim (Bool-cases (cp_len (t ∷ ts) l.key == length l.key)) [
      | inr part ↦ rw (here, part) (split-keeps c l kids _ rest _ index s h)
      | inl whole ↦ elim (List-cases (drop (cp_len (t ∷ ts) l.key) (t ∷ ts))) [
        | inl done ↦ rw (here, whole, done) h
        | inr (u, us, more) ↦
            rw (here, whole, more)
              (grow-keeps (drop (cp_len (t ∷ ts) l.key) (t ∷ ts)) kids index s h)
      ]
    ]
  ]

abbrev state_of : {S : Type 0} → S → Result S → S
state_of z (ok a) = a
state_of z (raise x) = z

module _ {S : Type 0} (alive : S → ℕ → Bool) (release : List ℕ → S → Result S) (P : S → Type 0)
    (keeps : (ids : List ℕ) (s s' : S) → release ids s ≡ ok s' → P s → P s') where
  release_alive-keeps :
      (ids : List ℕ) (s s' : S) → release_alive alive release ids s ≡ ok s' → P s → P s'
  unfolding release_alive
  release_alive-keeps ids s s' e h = elim (List-cases (select (alive s) ids)) [
    | inl c ↦ rw (← ap (state_of s) (rw (c, release_alive) at e)) h
    | inr (b, bs, c) ↦ keeps (b ∷ bs) s s' (rw (c, release_alive) at e) h
  ]

  module _ {T : Type 0} where
    purge_subtree_alive-keeps :
        (f : Forest T) (index : List ℕ) (s : S)
        → P s
        → P (purge_subtree_alive alive release f index s).2
    unfolding purge_subtree_alive
    purge_subtree_alive-keeps empty index s h = h
    purge_subtree_alive-keeps (child c l kids rest) index s h =
        elim (Result-cases (release_alive alive release l.block_ids s)) [
          | inr (e, bad) ↦ rw (bad, purge_subtree_alive) h
          | inl (s1, good) ↦
              let h1 = release_alive-keeps l.block_ids s s1 good h in
              let below = purge_subtree_alive alive release kids (pop_first l.block_ids index) s1 in
              let h2 : P below.2 =
                purge_subtree_alive-keeps kids (pop_first l.block_ids index) s1 h1 in
              elim (Result-cases (below.0)) [
                | inr (e, bad) ↦ rw (good, bad, purge_subtree_alive) h2
                | inl (n, fine) ↦
                    let h3 = purge_subtree_alive-keeps rest below.1 below.2 h2 in
                    elim (Result-cases (purge_subtree_alive alive release rest below.1 below.2).0) [
                      | inr (e, bad) ↦ rw (good, fine, bad, purge_subtree_alive) h3
                      | inl (m, well) ↦ rw (good, fine, well, purge_subtree_alive) h3
                    ]
              ]
        ]

    purge_node-keeps :
        (c : ℕ) (l : Label T) (kids rest : Forest T) (index : List ℕ) (s : S)
        → P s
        → P (purge_node alive release c l kids rest index s).store
    unfolding purge_node
    purge_node-keeps c l kids rest index s h =
        elim (Result-cases (release_alive alive release l.block_ids s)) [
          | inr (e, bad) ↦ rw (bad, purge_node) h
          | inl (s1, good) ↦
              rw (good, purge_node)
                (purge_subtree_alive-keeps kids _ s1 (release_alive-keeps l.block_ids s s1 good h))
        ]

    pub purge_path-keeps :
        (ts : List ℕ) (f : Forest T) (index : List ℕ) (s : S)
        → P s
        → P (purge_path alive release ts f index s).store
    unfolding purge_path
    purge_path-keeps [] f index s h = h
    purge_path-keeps (t ∷ ts) empty index s h = h
    purge_path-keeps (t ∷ ts) (child c l kids rest) index s h = elim (Bool-cases (c == t)) [
      | inr other ↦ rw other (purge_path-keeps (t ∷ ts) rest index s h)
      | inl here ↦
          elim (Bool-cases (ltb 0 l.ref_count || ltb (cp_len (t ∷ ts) l.key) (length l.key))) [
            | inl stop ↦ rw (here, stop) h
            | inr on ↦ elim (Bool-cases (any (λ b. not (alive s b)) l.block_ids)) [
              | inl dead ↦ rw (here, on, dead) (purge_node-keeps c l kids rest index s h)
              | inr live ↦
                  rw (here, on, live)
                    (purge_path-keeps (drop (cp_len (t ∷ ts) l.key) (t ∷ ts)) kids index s h)
            ]
          ]
    ]
