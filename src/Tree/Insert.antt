-- ===== src/Tree/Insert.antt =====
-- The steps of `insert` in kv_cache/radix_tree.py: a new leaf, and a split.
use nano_kvrouter.Prelude.{
  ℕ, zero, suc, ◌+◌, ◌-◌, ◌≤◌, ◌<◌, ◌≡◌, inl, inr, refl, ap, true, false, List, [], ◌∷◌, ◌++◌,
  length, arith, ◌==◌, ltb, take, drop, length-drop, length-take, length-append, Bool-cases, Result,
  Error, ok, raise, ltb→lt, ◌∙◌, Result-cases, then_do,
}
use nano_kvrouter.Tree.{
  Label, Forest, empty, child, n_blocks, ceil_div, fresh_label, index_put, first_token, sprout,
  mint_head, split_edge, split, split_tail, hung, Grown,
}
use nano_kvrouter.Tree.Blocks.{absent, IsWellFormed}
use nano_kvrouter.Tree.Ceil.{ceil_div-add, ceil_div_mono, ceil_div_pos}

pub n_blocks-length :
    (bs : ℕ) (key : List ℕ) → 0 < length key → n_blocks bs key ≡ ceil_div bs (length key)
unfolding n_blocks
n_blocks-length bs [] h = absurd (omega arith)
n_blocks-length bs (k ∷ ks) h = refl

headed-drop :
    (cp : ℕ) (key : List ℕ)
    → cp < length key
    → (ks : List ℕ) × (drop cp key ≡ first_token (drop cp key) ∷ ks)
unfolding first_token
headed-drop zero [] h = absurd (omega arith)
headed-drop zero (k ∷ ks) h = (ks, refl)
headed-drop (suc cp) [] h = absurd (omega arith)
headed-drop (suc cp) (k ∷ ks) h = headed-drop cp ks (omega arith)

pub absent-empty : (T : Type 0) (k : ℕ) → absent {T = T} k empty ≡ true
unfolding absent
absent-empty T k = refl

pub index_put-ok : (ids index : List ℕ) → 0 < length ids → (index_put ids index).0 ≡ ok tt
unfolding index_put
index_put-ok [] index h = absurd (omega arith)
index_put-ok (b ∷ ids) index h = refl

pub index_put-both :
    (a b index : List ℕ)
    → 0 < length a
    → 0 < length b
    → (then_do (index_put a) (λ _. index_put b) index).0 ≡ ok tt
unfolding index_put
index_put-both [] b index h k = absurd (omega arith)
index_put-both (x ∷ a) b index h k = index_put-ok b _ k

module _ {T S : Type 0} (mint : ℕ → S → Result (List ℕ × S)) (bs : ℕ) (now : T)
    (mints : (n : ℕ) (s s' : S) (ids : List ℕ) → mint n s ≡ ok (ids, s') → length ids ≡ n)
    (pos : 0 < bs) where
  -- the two halves of an edge that is cut at `cp`
  abbrev pub upper : ℕ → Label T → Label T
  upper cp l = fresh_label (take cp l.key) (take (ceil_div bs cp) l.block_ids) now

  abbrev pub lower : ℕ → List ℕ → Label T → Label T
  lower cp head l = record l {
    key = drop cp l.key;
    block_ids = head ++ drop (ceil_div bs cp) l.block_ids;
  }

  pub sprout-raise :
      (t : ℕ) (ts index : List ℕ) (s : S) (e : Error)
      → mint (n_blocks bs (t ∷ ts)) s ≡ raise e
      → sprout mint bs now t ts index s
        ≡ record { out = raise e; forest = empty; index = index; store = s }
  unfolding sprout
  sprout-raise t ts index s e h = rw (h, sprout)

  pub sprout-ok :
      (t : ℕ) (ts index : List ℕ) (s s' : S) (ids : List ℕ)
      → mint (n_blocks bs (t ∷ ts)) s ≡ ok (ids, s')
      → sprout mint bs now t ts index s ≡ record {
        out = ok ids;
        forest = child t (fresh_label (t ∷ ts) ids now) empty empty;
        index = (index_put ids index).1;
        store = s';
      }
  unfolding sprout
  sprout-ok t ts index s s' ids h =
      let blocks = mints (n_blocks bs (t ∷ ts)) s s' ids h in
      let some_block = ceil_div_pos bs pos (length (t ∷ ts)) (omega arith) in
      let same = n_blocks-length bs (t ∷ ts) (omega arith) in
      rw (h, sprout, index_put-ok ids index (omega arith)) refl

  pub hung-sprout :
      (t : ℕ) (ts index : List ℕ) (s : S)
      → hung mint bs now (sprout mint bs now t ts index s)
        ≡ (sprout mint bs now t ts index s).forest
  unfolding hung
  hung-sprout t ts index s = elim (Result-cases (mint (n_blocks bs (t ∷ ts)) s)) [
    | inr (e, bad) ↦ rw (sprout-raise t ts index s e bad) refl
    | inl ((ids, s'), good) ↦ rw (sprout-ok t ts index s s' ids good) refl
  ]

  -- A property of what the split of an edge leaves, whether its halves can be filed or not.
  pub split_edge_rule :
      (P : Grown T S → Type 0) (c : ℕ) (l : Label T) (kids : Forest T) (tail : List ℕ)
      (rest : Forest T) (cp : ℕ) (head index : List ℕ) (s : S)
      → ((e : Error) (index' : List ℕ)
          → (then_do
              (index_put (upper cp l).block_ids)
              (λ _. index_put (lower cp head l).block_ids)
              index).0
            ≡ raise e
          → P (record {
            out = raise e;
            forest =
                child c
                  (upper cp l)
                  (child (first_token (drop cp l.key)) (lower cp head l) kids empty)
                  rest;
            index = index';
            store = s;
          }))
      → ((index' : List ℕ)
          → P (
              split_tail mint bs now c
                (upper cp l)
                (child (first_token (drop cp l.key)) (lower cp head l) kids)
                tail
                rest
                index'
                s))
      → P (split_edge mint bs now c l kids tail rest cp head index s)
  unfolding split_edge
  split_edge_rule P c l kids tail rest cp head index s raised filed =
      elim (Result-cases
        (then_do (index_put (upper cp l).block_ids) (λ _. index_put (lower cp head l).block_ids)
          index).0) [
            | inr (e, bad) ↦ rw (bad, split_edge) (raised e _ bad)
            | inl (_, good) ↦ rw (good, split_edge) (filed _)
          ]

  pub split-raise :
      (c : ℕ) (l : Label T) (kids : Forest T) (tail : List ℕ) (rest : Forest T) (cp : ℕ)
      (index : List ℕ) (s : S) (e : Error)
      → mint_head mint bs now cp l.key l.block_ids s ≡ raise e
      → split mint bs now c l kids tail rest cp index s
        ≡ record { out = raise e; forest = child c l kids rest; index = index; store = s }
  unfolding split
  split-raise c l kids tail rest cp index s e h = rw (h, split)

  pub split-ok :
      (c : ℕ) (l : Label T) (kids : Forest T) (tail : List ℕ) (rest : Forest T) (cp : ℕ)
      (index : List ℕ) (s s' : S) (head : List ℕ)
      → mint_head mint bs now cp l.key l.block_ids s ≡ ok (head, s')
      → split mint bs now c l kids tail rest cp index s
        ≡ split_edge mint bs now c l kids tail rest cp head index s'
  unfolding split
  split-ok c l kids tail rest cp index s s' head h = rw (h, split)

  pub sprout-IsWellFormed :
      (t : ℕ) (ts index : List ℕ) (s : S) → IsWellFormed bs (sprout mint bs now t ts index s).forest
  unfolding fresh_label absent
  sprout-IsWellFormed t ts index s = elim (Result-cases (mint (n_blocks bs (t ∷ ts)) s)) [
    | inr (e, bad) ↦ rw (sprout-raise t ts index s e bad) tt
    | inl ((ids, s'), good) ↦ rw (sprout-ok t ts index s s' ids good) (
      record { tail = ts; headed = refl; blocks = mints (n_blocks bs (t ∷ ts)) s s' ids good },
      refl,
      tt,
      tt,
    )
  ]

  -- the number of ids that the second half of a split ends up with
  pub mint_head-length :
      (cp : ℕ) (key ids : List ℕ) (s s' : S) (head : List ℕ)
      → 0 < cp
      → cp < length key
      → length ids ≡ n_blocks bs key
      → mint_head mint bs now cp key ids s ≡ ok (head, s')
      → length (head ++ drop (ceil_div bs cp) ids) ≡ n_blocks bs (drop cp key)
  unfolding mint_head
  mint_head-length cp key ids s s' head p q b h =
      let dk : length (drop cp key) ≡ length key - cp = length-drop cp key in
      let di : length (drop (ceil_div bs cp) ids) ≡ length ids - ceil_div bs cp =
        length-drop (ceil_div bs cp) ids in
      let whole : cp + (length key - cp) ≡ length key = omega arith in
      let (low, high) = ceil_div-add bs pos cp (length key - cp) in
      let nk : n_blocks bs key ≡ ceil_div bs (length key) = n_blocks-length bs key (omega arith) in
      let nd : n_blocks bs (drop cp key) ≡ ceil_div bs (length key - cp) =
        n_blocks-length bs (drop cp key) (omega (arith, dk)) ∙ ap (ceil_div bs) dk in
      let least : ceil_div bs cp ≤ ceil_div bs (length key) =
        ceil_div_mono bs pos cp (length key) (omega arith) in
      let low' : ceil_div bs (length key) ≤ ceil_div bs cp + ceil_div bs (length key - cp) =
        rw whole at low in
      let high' : ceil_div bs cp + ceil_div bs (length key - cp) ≤ suc (ceil_div bs (length key)) =
        rw whole at high in
      rw (length-append head (drop (ceil_div bs cp) ids), di, nd)
        (elim (Bool-cases (ltb (length ids) (ceil_div bs cp + ceil_div bs (length key - cp)))) [
          | inl extra ↦
              let got : mint 1 s ≡ ok (head, s') = ground arith in
              omega (arith, mints 1 s s' head got, ltb→lt _ _ extra)
          | inr none_needed ↦ let got : head ≡ [] = ground arith in rw got (ground arith)
        ])

  first_token-take :
      (cp c : ℕ) (tail key : List ℕ)
      → key ≡ c ∷ tail
      → 0 < cp
      → (ks : List ℕ) × (take cp key ≡ c ∷ ks)
  first_token-take zero c tail key e h = absurd (omega arith)
  first_token-take (suc cp) c tail key e h = (take cp tail, rw e)

  -- A split edge, with whatever fits beside its lower half.
  pub halves-IsWellFormed :
      (c : ℕ) (l mid low : Label T) (kids more rest : Forest T) (cp : ℕ)
      → IsWellFormed bs (child c l kids rest)
      → 0 < cp
      → cp < length l.key
      → mid.key ≡ take cp l.key
      → mid.block_ids ≡ take (ceil_div bs cp) l.block_ids
      → low.key ≡ drop cp l.key
      → length low.block_ids ≡ n_blocks bs (drop cp l.key)
      → IsWellFormed bs more
      → absent (first_token (drop cp l.key)) more ≡ true
      → IsWellFormed bs (child c mid (child (first_token (drop cp l.key)) low kids more) rest)
  halves-IsWellFormed c l mid low kids more rest cp w p q mk mb lk lb wm am =
      let (ks, e) = first_token-take cp c w.0.tail l.key w.0.headed p in
      let (ks', e') = headed-drop cp l.key q in
      let upper : length (take cp l.key) ≡ cp = omega (arith, length-take cp l.key) in
      let room : ceil_div bs cp ≤ length l.block_ids =
        rw (w.0.blocks, n_blocks-length bs l.key (omega arith))
          (ceil_div_mono bs pos cp (length l.key) (omega arith)) in
      (
        record {
          tail = ks;
          headed = mk ∙ e;
          blocks =
              rw (mb, mk, n_blocks-length bs (take cp l.key) (rw upper p), upper)
                (omega (arith, length-take (ceil_div bs cp) l.block_ids));
        },
        w.1,
        (record { tail = ks'; headed = lk ∙ e'; blocks = rw lk lb }, am, w.2, wm),
        w.3,
      )

  pub absent-sprout :
      (k t : ℕ) (ts index : List ℕ) (s : S)
      → (k == t) ≡ false
      → absent k (sprout mint bs now t ts index s).forest ≡ true
  unfolding absent
  absent-sprout k t ts index s h = elim (Result-cases (mint (n_blocks bs (t ∷ ts)) s)) [
    | inr (e, bad) ↦ rw (sprout-raise t ts index s e bad)
    | inl ((ids, s'), good) ↦ rw (sprout-ok t ts index s s' ids good) (ground arith)
  ]

  pub split_edge-IsWellFormed :
      (c : ℕ) (l : Label T) (kids : Forest T) (tail : List ℕ) (rest : Forest T) (cp : ℕ)
      (head index : List ℕ) (s : S)
      → IsWellFormed bs (child c l kids rest)
      → 0 < cp
      → cp < length l.key
      → length (head ++ drop (ceil_div bs cp) l.block_ids) ≡ n_blocks bs (drop cp l.key)
      → ((t : ℕ) (ts : List ℕ) → tail ≡ t ∷ ts → (first_token (drop cp l.key) == t) ≡ false)
      → IsWellFormed bs (split_edge mint bs now c l kids tail rest cp head index s).forest
  unfolding split_tail fresh_label
  split_edge-IsWellFormed c l kids tail rest cp head index s w p q b d =
      split_edge_rule (λ g. IsWellFormed bs g.forest) c l kids tail rest cp head index s
        (λ e i bad.
          halves-IsWellFormed c l _ _ kids empty rest cp w p q refl refl refl b tt
            (absent-empty T _))
        (λ i. below tail i d)
    where
      below :
          (tl i : List ℕ)
          → ((t : ℕ) (ts : List ℕ) → tl ≡ t ∷ ts → (first_token (drop cp l.key) == t) ≡ false)
          → IsWellFormed bs
              (split_tail mint bs now c
                (upper cp l)
                (child (first_token (drop cp l.key)) (lower cp head l) kids)
                tl
                rest
                i
                s).forest
      below [] i d2 =
          halves-IsWellFormed c l _ _ kids empty rest cp w p q refl refl refl b tt
            (absent-empty T _)
      below (t ∷ ts) i d2 = rw (hung-sprout t ts i s) (
          halves-IsWellFormed c l _ _ kids (sprout mint bs now t ts i s).forest rest cp w p q refl
            refl refl b (sprout-IsWellFormed t ts i s)
            (absent-sprout (first_token (drop cp l.key)) t ts i s (d2 t ts refl)))
