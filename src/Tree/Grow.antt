-- ===== src/Tree/Grow.antt =====
-- The loop of `insert` in kv_cache/radix_tree.py, by the ways in which it goes on.
use nano_kvrouter.Prelude.{
  List-cases, ℕ, ◌<◌, ◌≡◌, inl, inr, true, false, List, [], ◌∷◌, length, arith, ◌==◌, drop,
  Bool-cases, Result, ok, Result-cases,
}
use nano_kvrouter.Tree.{
  Label, Forest, empty, child, cp_len, touch, Grown, sprout, mint_head, split, grow, split_tail,
  first_token,
}
use nano_kvrouter.Tree.Blocks.{absent, IsWellFormed}
use nano_kvrouter.Tree.Match.{cp_len-le}
use nano_kvrouter.Tree.Chains.{parts}
use nano_kvrouter.Tree.Insert.{
  upper, lower, split_edge_rule, split-raise, split-ok, mint_head-length, split_edge-IsWellFormed,
}

-- Where tokens and key begin alike, they share a token at least.
pub cp_len_pos :
    (c t : ℕ) (ts ks key : List ℕ) → key ≡ c ∷ ks → (c == t) ≡ true → 0 < cp_len (t ∷ ts) key
unfolding cp_len
cp_len_pos c t ts ks key e h = rw e (ground arith)

pub cp_len_short :
    (us key : List ℕ) → (cp_len us key == length key) ≡ false → cp_len us key < length key
cp_len_short us key h = let (_, b) = cp_len-le us key in ground arith

module _ {T S : Type 0} (mint : ℕ → S → Result (List ℕ × S)) (bs : ℕ) (now : T)
    (mints : (n : ℕ) (s s' : S) (ids : List ℕ) → mint n s ≡ ok (ids, s') → length ids ≡ n)
    (pos : 0 < bs) where
  -- `split` leaves one entry under the same token, well-formed with what follows it.
  pub split-IsWellFormed :
      (c t : ℕ) (ts : List ℕ) (l : Label T) (kids rest : Forest T) (index : List ℕ) (s : S)
      → IsWellFormed bs (child c l kids rest)
      → (c == t) ≡ true
      → (cp_len (t ∷ ts) l.key == length l.key) ≡ false
      → IsWellFormed bs
          (split mint bs now c l kids
            (drop (cp_len (t ∷ ts) l.key) (t ∷ ts))
            rest
            (cp_len (t ∷ ts) l.key)
            index
            s).forest
  split-IsWellFormed c t ts l kids rest index s w here part =
      let cp = cp_len (t ∷ ts) l.key in
      let p : 0 < cp = cp_len_pos c t ts w.0.tail l.key w.0.headed here in
      let q : cp < length l.key = cp_len_short (t ∷ ts) l.key part in
      elim (Result-cases (mint_head mint bs now cp l.key l.block_ids s)) [
        | inr (e, bad) ↦
            rw (split-raise mint bs now mints pos c l kids (drop cp (t ∷ ts)) rest cp index s e bad)
              w
        | inl ((head, s'), good) ↦
            rw
              (split-ok mint bs now mints pos c l kids (drop cp (t ∷ ts)) rest cp index s s' head
                good)
              (split_edge-IsWellFormed mint bs now mints pos c l kids (drop cp (t ∷ ts)) rest cp
                head index s' w p q
                (mint_head-length mint bs now mints pos cp l.key l.block_ids s s' head p q
                  w.0.blocks good)
                (λ u us e. parts (t ∷ ts) l.key u us q e))
      ]

  pub absent-split :
      (k c : ℕ) (l : Label T) (kids : Forest T) (tail : List ℕ) (rest : Forest T) (cp : ℕ)
      (index : List ℕ) (s : S)
      → absent k (child c l kids rest) ≡ true
      → absent k (split mint bs now c l kids tail rest cp index s).forest ≡ true
  unfolding absent split_tail
  absent-split k c l kids tail rest cp index s a =
      elim (Result-cases (mint_head mint bs now cp l.key l.block_ids s)) [
        | inr (e, bad) ↦
            rw (split-raise mint bs now mints pos c l kids tail rest cp index s e bad) a
        | inl ((head, s'), good) ↦
            rw (split-ok mint bs now mints pos c l kids tail rest cp index s s' head good) (
              split_edge_rule mint bs now mints pos (λ g. absent k g.forest ≡ true) c l kids tail
                rest cp head index s' (λ e i bad. a) (λ i. absent_tail tail head i s'))
      ]
    where
      absent_tail :
          (tl hd i : List ℕ) (st : S)
          → absent k
              (split_tail mint bs now c
                (upper mint bs now mints pos cp l)
                (child (first_token (drop cp l.key)) (lower mint bs now mints pos cp hd l) kids)
                tl
                rest
                i
                st).forest
            ≡ true
      absent_tail [] hd i st = a
      absent_tail (u ∷ us) hd i st = a

  -- The four ways of one round.
  module _ (c t : ℕ) (ts : List ℕ) (l : Label T) (kids rest : Forest T) (index : List ℕ)
      (s : S) where
    grow_other :
        (c == t) ≡ false
        → grow mint bs now (t ∷ ts) (child c l kids rest) index s
          ≡ record (grow mint bs now (t ∷ ts) rest index s) {
            forest = child c l kids (grow mint bs now (t ∷ ts) rest index s).forest;
          }
    unfolding grow
    grow_other h = rw h

    grow-split :
        (c == t) ≡ true
        → (cp_len (t ∷ ts) l.key == length l.key) ≡ false
        → grow mint bs now (t ∷ ts) (child c l kids rest) index s
          ≡ split mint bs now c l kids
              (drop (cp_len (t ∷ ts) l.key) (t ∷ ts))
              rest
              (cp_len (t ∷ ts) l.key)
              index
              s
    unfolding grow
    grow-split h p = rw (h, p)

    grow_end :
        (c == t) ≡ true
        → (cp_len (t ∷ ts) l.key == length l.key) ≡ true
        → drop (cp_len (t ∷ ts) l.key) (t ∷ ts) ≡ []
        → grow mint bs now (t ∷ ts) (child c l kids rest) index s ≡ record {
          out = ok l.block_ids;
          forest = child c (touch now l) kids rest;
          index = index;
          store = s;
        }
    unfolding grow
    grow_end h p e = rw (h, p, e)

    grow_below :
        (u : ℕ) (us : List ℕ)
        → (c == t) ≡ true
        → (cp_len (t ∷ ts) l.key == length l.key) ≡ true
        → drop (cp_len (t ∷ ts) l.key) (t ∷ ts) ≡ u ∷ us
        → grow mint bs now (t ∷ ts) (child c l kids rest) index s
          ≡ record (grow mint bs now (u ∷ us) kids index s) {
            forest = child c (touch now l) (grow mint bs now (u ∷ us) kids index s).forest rest;
          }
    unfolding grow
    grow_below u us h p e = rw (h, p, e, e)

  -- A property of what `grow` leaves follows from the four ways, and from `sprout`.
  module _ (P : List ℕ → Forest T → Grown T S → Type 0)
      (at_end : (ts index : List ℕ) (s : S) (f : Forest T)
        → P [] f (record { out = ok []; forest = f; index = index; store = s }))
      (at_leaf : (t : ℕ) (ts index : List ℕ) (s : S)
        → P (t ∷ ts) empty (sprout mint bs now t ts index s))
      (other : (c t : ℕ) (ts : List ℕ) (l : Label T) (kids rest : Forest T) (g : Grown T S)
        → IsWellFormed bs (child c l kids rest)
        → (c == t) ≡ false
        → P (t ∷ ts) rest g
        → P (t ∷ ts) (child c l kids rest) (record g { forest = child c l kids g.forest }))
      (parted : (c t : ℕ) (ts : List ℕ) (l : Label T) (kids rest : Forest T) (index : List ℕ)
          (s : S)
        → IsWellFormed bs (child c l kids rest)
        → (c == t) ≡ true
        → (cp_len (t ∷ ts) l.key == length l.key) ≡ false
        → P (t ∷ ts) (child c l kids rest) (
            split mint bs now c l kids
              (drop (cp_len (t ∷ ts) l.key) (t ∷ ts))
              rest
              (cp_len (t ∷ ts) l.key)
              index
              s))
      (ended : (c t : ℕ) (ts : List ℕ) (l : Label T) (kids rest : Forest T) (index : List ℕ) (s : S)
        → IsWellFormed bs (child c l kids rest)
        → (cp_len (t ∷ ts) l.key == length l.key) ≡ true
        → drop (cp_len (t ∷ ts) l.key) (t ∷ ts) ≡ []
        → P (t ∷ ts) (child c l kids rest) (record {
          out = ok l.block_ids;
          forest = child c (touch now l) kids rest;
          index = index;
          store = s;
        }))
      (under : (c t : ℕ) (ts : List ℕ) (l : Label T) (kids rest : Forest T) (u : ℕ) (us : List ℕ)
          (g : Grown T S)
        → IsWellFormed bs (child c l kids rest)
        → (cp_len (t ∷ ts) l.key == length l.key) ≡ true
        → drop (cp_len (t ∷ ts) l.key) (t ∷ ts) ≡ u ∷ us
        → P (u ∷ us) kids g
        → P
            (t ∷ ts)
            (child c l kids rest)
            (record g { forest = child c (touch now l) g.forest rest })) where
    pub grow_rule :
        (f : Forest T) (ts index : List ℕ) (s : S)
        → IsWellFormed bs f
        → P ts f (grow mint bs now ts f index s)
    grow_rule empty [] index s w = unfold grow in at_end [] index s empty
    grow_rule empty (t ∷ ts) index s w = unfold grow in at_leaf t ts index s
    grow_rule (child c l kids rest) [] index s w =
        unfold grow in at_end [] index s (child c l kids rest)
    grow_rule (child c l kids rest) (t ∷ ts) index s w = elim (Bool-cases (c == t)) [
      | inr no_edge ↦
          rw (grow_other c t ts l kids rest index s no_edge)
            (other c t ts l kids rest _ w no_edge (grow_rule rest (t ∷ ts) index s w.3))
      | inl here ↦ elim (Bool-cases (cp_len (t ∷ ts) l.key == length l.key)) [
        | inr part ↦
            rw (grow-split c t ts l kids rest index s here part)
              (parted c t ts l kids rest index s w here part)
        | inl whole ↦ elim (List-cases (drop (cp_len (t ∷ ts) l.key) (t ∷ ts))) [
          | inl done ↦
              rw (grow_end c t ts l kids rest index s here whole done)
                (ended c t ts l kids rest index s w whole done)
          | inr (u, us, more) ↦
              rw (grow_below c t ts l kids rest index s u us here whole more)
                (under c t ts l kids rest u us _ w whole more (grow_rule kids (u ∷ us) index s w.2))
        ]
      ]
    ]
