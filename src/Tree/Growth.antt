-- ===== src/Tree/Growth.antt =====
-- `insert` in kv_cache/radix_tree.py: the shape of the tree and its cached sequences.
use nano_kvrouter.Prelude.{
  ℕ, ◌<◌, ◌≡◌, inl, inr, refl, true, false, List, [], ◌∷◌, length, arith, ◌==◌, take, drop,
  length-take, drop_all, ==_iff, Result, Error, ok, raise, ◌∙◌, Result-cases,
}
use nano_kvrouter.Tree.{
  Label, Forest, empty, child, n_blocks, cp_len, touch, fresh_label, first_token, Grown, sprout,
  mint_head, split, grow, split_tail,
}
use nano_kvrouter.Tree.Blocks.{IsEdge, absent, IsWellFormed}
use nano_kvrouter.Tree.Match.{starts, cached, cached-nil, starts-cp_len, cp_len-le}
use nano_kvrouter.Tree.Chains.{
  starts-common, starts_self, cached-step, cached-kids, cached-rest, cached-beside, cached-halves,
}
use nano_kvrouter.Tree.Insert.{
  upper, lower, hung-sprout, split_edge_rule, absent-sprout, sprout-raise, sprout-ok, split-raise,
  split-ok, sprout-IsWellFormed,
}
use nano_kvrouter.Tree.Grow.{split-IsWellFormed, absent-split, grow_rule, cp_len_short}

starts_of_whole : (us key : List ℕ) → (cp_len us key == length key) ≡ true → starts key us ≡ true
starts_of_whole us key h = starts-cp_len us key ∙ h

module _ {T S : Type 0} (mint : ℕ → S → Result (List ℕ × S)) (bs : ℕ) (now : T)
    (mints : (n : ℕ) (s s' : S) (ids : List ℕ) → mint n s ≡ ok (ids, s') → length ids ≡ n)
    (pos : 0 < bs) where
  -- What `grow` leaves is well-formed, with no new token among the entries but that of the tokens.
  abbrev Shaped : List ℕ → Forest T → Grown T S → Type 0
  Shaped ts f g =
      IsWellFormed bs f
      → IsWellFormed bs g.forest
        × ((k : ℕ) → (first_token ts == k) ≡ false → absent k f ≡ true → absent k g.forest ≡ true)

  -- What was cached still is.
  abbrev Keeping : List ℕ → Forest T → Grown T S → Type 0
  Keeping ts f g = (us : List ℕ) → cached f us ≡ true → cached g.forest us ≡ true

  -- Once it returns, the tokens are cached.
  abbrev Adding : List ℕ → Forest T → Grown T S → Type 0
  Adding ts f g = (ids : List ℕ) → g.out ≡ ok ids → cached g.forest ts ≡ true

  split-Keeping :
      (c : ℕ) (l : Label T) (kids : Forest T) (tail : List ℕ) (rest : Forest T) (cp : ℕ)
      (index : List ℕ) (s : S) (us : List ℕ)
      → cp < length l.key
      → cached (child c l kids rest) us ≡ true
      → cached (split mint bs now c l kids tail rest cp index s).forest us ≡ true
  unfolding split_tail fresh_label
  split-Keeping c l kids tail rest cp index s us q k =
      elim (Result-cases (mint_head mint bs now cp l.key l.block_ids s)) [
        | inr (e, bad) ↦
            rw (split-raise mint bs now mints pos c l kids tail rest cp index s e bad) k
        | inl ((head, s'), good) ↦
            rw (split-ok mint bs now mints pos c l kids tail rest cp index s s' head good) (
              split_edge_rule mint bs now mints pos (λ g. cached g.forest us ≡ true) c l kids tail
                rest cp head index s' (λ e i bad. halves head empty) (λ i. edge tail head i s'))
      ]
    where
      halves :
          (hd : List ℕ) (more : Forest T)
          → cached
              (child c
                (upper mint bs now mints pos cp l)
                (child
                  (first_token (drop cp l.key))
                  (lower mint bs now mints pos cp hd l)
                  kids
                  more)
                rest)
              us
            ≡ true
      halves hd more =
          cached-halves c (first_token (drop cp l.key)) cp l _ _ kids more rest us refl refl q k

      edge :
          (tl hd i : List ℕ) (st : S)
          → cached
              (split_tail mint bs now c
                (upper mint bs now mints pos cp l)
                (child (first_token (drop cp l.key)) (lower mint bs now mints pos cp hd l) kids)
                tl
                rest
                i
                st).forest
              us
            ≡ true
      edge [] hd i st = halves hd empty
      edge (t ∷ ts) hd i st = halves hd _

  cached-sprout :
      (t : ℕ) (ts index : List ℕ) (s : S) (ids : List ℕ)
      → (sprout mint bs now t ts index s).out ≡ ok ids
      → cached (sprout mint bs now t ts index s).forest (t ∷ ts) ≡ true
  unfolding fresh_label
  cached-sprout t ts index s ids h = elim (Result-cases (mint (n_blocks bs (t ∷ ts)) s)) [
    | inr (e, bad) ↦
        absurd_ok e ids (rw (sprout-raise mint bs now mints pos t ts index s e bad) at h)
    | inl ((new, s'), good) ↦ rw (sprout-ok mint bs now mints pos t ts index s s' new good) (
        cached-step t _ empty empty (t ∷ ts) (starts_self (t ∷ ts))
          (rw (drop_all (length ts) ts (omega arith)) (let f : Forest T = empty in cached-nil f)))
  ]
    where
      absurd_ok : {A : Type 0} (e : Error) (i : List ℕ) → raise e ≡ ok i → A
      absurd_ok e i x = cc

  split-Adding :
      (c : ℕ) (l : Label T) (kids rest : Forest T) (us : List ℕ) (index : List ℕ) (s : S)
      (ids : List ℕ)
      → (split mint bs now c l kids (drop (cp_len us l.key) us) rest (cp_len us l.key) index s).out
        ≡ ok ids
      → cached
          (split mint bs now c l kids
            (drop (cp_len us l.key) us)
            rest
            (cp_len us l.key)
            index
            s).forest
          us
        ≡ true
  unfolding split_tail fresh_label
  split-Adding c l kids rest us index s ids h =
      elim (Result-cases (mint_head mint bs now (cp_len us l.key) l.key l.block_ids s)) [
        | inr (e, bad) ↦ absurd_ok e (
            rw
              (split-raise mint bs now mints pos c l kids (drop (cp_len us l.key) us) rest
                (cp_len us l.key) index s e bad)
              at h)
        | inl ((head, s'), good) ↦
            let shape =
              split-ok mint bs now mints pos c l kids (drop (cp_len us l.key) us) rest
                (cp_len us l.key) index s s' head good in
            rw shape (
              split_edge_rule mint bs now mints pos
                (λ g. g.out ≡ ok ids → cached g.forest us ≡ true) c l kids
                (drop (cp_len us l.key) us) rest (cp_len us l.key) head index s'
                (λ e i bad o. absurd_ok e o)
                (λ i o. edge (drop (cp_len us l.key) us) refl head i s' o) (rw shape at h))
      ]
    where
      absurd_ok : {A : Type 0} (e : Error) → raise e ≡ ok ids → A
      absurd_ok e x = cc

      shorter : length (take (cp_len us l.key) l.key) ≡ cp_len us l.key
      shorter = omega (arith, length-take (cp_len us l.key) l.key, (cp_len-le us l.key).1)

      edge :
          (tl : List ℕ)
          → drop (cp_len us l.key) us ≡ tl
          → (hd i : List ℕ) (st : S)
          → (split_tail mint bs now c
              (upper mint bs now mints pos (cp_len us l.key) l)
              (child
                (first_token (drop (cp_len us l.key) l.key))
                (lower mint bs now mints pos (cp_len us l.key) hd l)
                kids)
              tl
              rest
              i
              st).out
            ≡ ok ids
          → cached
              (split_tail mint bs now c
                (upper mint bs now mints pos (cp_len us l.key) l)
                (child
                  (first_token (drop (cp_len us l.key) l.key))
                  (lower mint bs now mints pos (cp_len us l.key) hd l)
                  kids)
                tl
                rest
                i
                st).forest
              us
            ≡ true
      edge [] e hd i st o =
          cached-step c _ _ rest us (starts-common us l.key) (rw (shorter, e) (cached-nil _))
      edge (t ∷ ts) e hd i st o = cached-step c _ _ rest us (starts-common us l.key) (
          rw (shorter, e, hung-sprout mint bs now mints pos t ts i st)
            (cached-beside (first_token (drop (cp_len us l.key) l.key)) _ kids _ (t ∷ ts)
              (cached-sprout t ts i st ids o)))

  grow-Shaped :
      (f : Forest T) (ts index : List ℕ) (s : S)
      → IsWellFormed bs f
      → Shaped ts f (grow mint bs now ts f index s)
  unfolding absent first_token touch
  grow-Shaped =
      grow_rule mint bs now mints pos Shaped (λ ts index s f w. (w, λ k n a. a))
        (λ t ts index s w. (
          sprout-IsWellFormed mint bs now mints pos t ts index s,
          λ k n a. absent-sprout mint bs now mints pos k t ts index s (==_flip t k n),
        ))
        (λ c t ts l kids rest g w n ih w'.
          let (sh, ab) = ih w.3 in
          ((w.0, ab c (==_flip c t n) w.1, w.2, sh), λ k m a. ground (arith, ab k m)))
        (λ c t ts l kids rest index s w here part w'. (
          split-IsWellFormed mint bs now mints pos c t ts l kids rest index s w here part,
          λ k n a. absent-split mint bs now mints pos k c l kids _ rest _ index s a,
        ))
        (λ c t ts l kids rest index s w whole done w'.
          ((touched_edge c l w.0, w.1, w.2, w.3), λ k n a. a))
        (λ c t ts l kids rest u us g w whole more ih w'.
          ((touched_edge c l w.0, w.1, (ih w.2).0, w.3), λ k n a. a))
    where
      touched_edge : (c : ℕ) (l : Label T) → IsEdge bs c l → IsEdge bs c (touch now l)
      touched_edge c l e = record { tail = e.tail; headed = e.headed; blocks = e.blocks }

      ==_flip : (a b : ℕ) → (a == b) ≡ false → (b == a) ≡ false
      ==_flip a b h = ground arith

  pub grow-IsWellFormed :
      (f : Forest T) (ts index : List ℕ) (s : S)
      → IsWellFormed bs f
      → IsWellFormed bs (grow mint bs now ts f index s).forest
  grow-IsWellFormed f ts index s w = (grow-Shaped f ts index s w w).0

  -- A call that returns or raises loses no cached sequence.
  pub grow-Keeping :
      (f : Forest T) (ts index : List ℕ) (s : S)
      → IsWellFormed bs f
      → Keeping ts f (grow mint bs now ts f index s)
  unfolding touch
  grow-Keeping =
      grow_rule mint bs now mints pos Keeping (λ ts index s f us k. k)
        (λ t ts index s us k. nothing_cached us _ k)
        (λ c t ts l kids rest g w n ih us k. cached-rest c l kids rest g.forest us (ih us) k)
        (λ c t ts l kids rest index s w here part us k.
          split-Keeping c l kids _ rest _ index s us (cp_len_short (t ∷ ts) l.key part) k)
        (λ c t ts l kids rest index s w whole done us k.
          cached-kids c l (touch now l) kids kids rest us refl (λ x. x) k)
        (λ c t ts l kids rest u us' g w whole more ih us k.
          cached-kids c l (touch now l) kids g.forest rest us refl (ih _) k)
    where
      nothing_cached :
          (us : List ℕ) (f : Forest T) → cached {T = T} empty us ≡ true → cached f us ≡ true
      nothing_cached [] f k = cached-nil f
      nothing_cached (u ∷ us) f k = unfold cached in cc

  -- A call that returns has cached its tokens.
  pub grow-Adding :
      (f : Forest T) (ts index : List ℕ) (s : S)
      → IsWellFormed bs f
      → Adding ts f (grow mint bs now ts f index s)
  unfolding touch
  grow-Adding =
      grow_rule mint bs now mints pos Adding (λ ts index s f ids k. cached-nil f)
        (λ t ts index s ids o. cached-sprout t ts index s ids o)
        (λ c t ts l kids rest g w n ih ids o. cached-beside c l kids g.forest (t ∷ ts) (ih ids o))
        (λ c t ts l kids rest index s w here part ids o.
          split-Adding c l kids rest (t ∷ ts) index s ids o)
        (λ c t ts l kids rest index s w whole done ids o.
          cached-step c (touch now l) kids rest (t ∷ ts) (starts_of_whole (t ∷ ts) l.key whole)
            (rw (← (==_iff _ _).0 whole, done) (cached-nil kids)))
        (λ c t ts l kids rest u us g w whole more ih ids o.
          cached-step c (touch now l) g.forest rest (t ∷ ts) (starts_of_whole (t ∷ ts) l.key whole)
            (rw (← (==_iff _ _).0 whole, more) (ih ids o)))
