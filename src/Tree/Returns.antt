-- ===== src/Tree/Returns.antt =====
-- `insert` in kv_cache/radix_tree.py: the exceptions that it can raise.
use nano_kvrouter.Prelude.{
  ℕ, ◌<◌, ◌≡◌, ◌≢◌, inl, inr, refl, true, false, List, [], ◌∷◌, length, drop, arith, ◌==◌, ltb, ◌+◌,
  ◌-◌, Bool-cases, Result, Error, ok, raise, Result-cases, sym, ◌∙◌,
}
use nano_kvrouter.Tree.{
  Label, Forest, empty, child, RadixTree, n_blocks, ceil_div, cp_len, first_token, Grown, sprout,
  mint_head, split_tail, split, grow, insert,
}
use nano_kvrouter.Tree.Blocks.{IsEdge, IsWellFormed}
use nano_kvrouter.Tree.Cache.{IsValid}
use nano_kvrouter.Tree.Ceil.{ceil_div_pos}
use nano_kvrouter.Tree.Insert.{
  upper, lower, index_put-both, sprout-raise, sprout-ok, split-raise, split-ok, split_edge_rule,
  mint_head-length, halves-IsWellFormed, absent-empty, n_blocks-length,
}
use nano_kvrouter.Tree.Grow.{grow_rule, cp_len_short, cp_len_pos}

abbrev raised : Error → Result (List ℕ)
raised e = raise e

raised_same : (e d : Error) → raised e ≡ raised d → e ≡ d
raised_same e d h = cc

not_raised : {A : Type 0} (a : A) (e : Error) → ok a ≢ raise e
not_raised a e h = cc

module _ {T S : Type 0} (mint : ℕ → S → Result (List ℕ × S)) (bs : ℕ) (now : T)
    (mints : (n : ℕ) (s s' : S) (ids : List ℕ) → mint n s ≡ ok (ids, s') → length ids ≡ n)
    (pos : 0 < bs) where
  -- the exception is one that the allocator raised
  abbrev pub FromAllocator : Error → Type 0
  FromAllocator e = (n : ℕ) × (s : S) × (mint n s ≡ raise e)

  abbrev Passes : List ℕ → Forest T → Grown T S → Type 0
  Passes ts f g = (e : Error) → g.out ≡ raise e → FromAllocator e

  sprout-Passes :
      (t : ℕ) (ts index : List ℕ) (s : S) (e : Error)
      → (sprout mint bs now t ts index s).out ≡ raise e
      → FromAllocator e
  sprout-Passes t ts index s e h = elim (Result-cases (mint (n_blocks bs (t ∷ ts)) s)) [
    | inr (d, bad) ↦
        let same =
          raised_same d e (rw (sprout-raise mint bs now mints pos t ts index s d bad) at h) in
        (n_blocks bs (t ∷ ts), s, rw (← same) bad)
    | inl ((ids, s'), good) ↦
        absurd
          (not_raised ids e (rw (sprout-ok mint bs now mints pos t ts index s s' ids good) at h))
  ]

  mint_head-Passes :
      (cp : ℕ) (key ids : List ℕ) (s : S) (e : Error)
      → mint_head mint bs now cp key ids s ≡ raise e
      → FromAllocator e
  unfolding mint_head
  mint_head-Passes cp key ids s e h =
      elim (Bool-cases (ltb (length ids) (ceil_div bs cp + ceil_div bs (length key - cp)))) [
        | inl c ↦ (1, s, rw c at h)
        | inr c ↦ absurd (not_raised ([], s) e (rw c at h))
      ]

  edge_blocks : (c : ℕ) (l : Label T) → IsEdge bs c l → 0 < length l.block_ids
  edge_blocks c l e =
      let many = n_blocks-length bs l.key (rw e.headed (omega arith)) in
      let some_block = ceil_div_pos bs pos (length l.key) (rw e.headed (omega arith)) in
      rw (e.blocks, many) some_block

  split-Passes :
      (c t : ℕ) (ts : List ℕ) (l : Label T) (kids rest : Forest T) (index : List ℕ) (s : S)
      → IsWellFormed bs (child c l kids rest)
      → (c == t) ≡ true
      → (cp_len (t ∷ ts) l.key == length l.key) ≡ false
      → (e : Error)
      → (split mint bs now c l kids
          (drop (cp_len (t ∷ ts) l.key) (t ∷ ts))
          rest
          (cp_len (t ∷ ts) l.key)
          index
          s).out
        ≡ raise e
      → FromAllocator e
  unfolding split_tail
  split-Passes c t ts l kids rest index s w here part e h =
      let cp = cp_len (t ∷ ts) l.key in
      let tail = drop cp (t ∷ ts) in
      let p : 0 < cp = cp_len_pos c t ts w.0.tail l.key w.0.headed here in
      let q : cp < length l.key = cp_len_short (t ∷ ts) l.key part in
      elim (Result-cases (mint_head mint bs now cp l.key l.block_ids s)) [
        | inr (d, bad) ↦
            let same =
              raised_same d e
                (rw (split-raise mint bs now mints pos c l kids tail rest cp index s d bad) at h) in
            mint_head-Passes cp l.key l.block_ids s e (rw (← same) bad)
        | inl ((head, s'), good) ↦
            let halves =
              halves-IsWellFormed mint bs now mints pos c l (upper mint bs now mints pos cp l)
                (lower mint bs now mints pos cp head l) kids empty rest cp w p q refl refl refl
                (mint_head-length mint bs now mints pos cp l.key l.block_ids s s' head p q
                  w.0.blocks good)
                tt (absent-empty T _) in
            let filed =
              index_put-both (upper mint bs now mints pos cp l).block_ids
                (lower mint bs now mints pos cp head l).block_ids index (edge_blocks c _ halves.0)
                (edge_blocks _ _ halves.2.0) in
            split_edge_rule mint bs now mints pos (λ g. g.out ≡ raise e → FromAllocator e) c l kids
              tail rest cp head index s' (λ d i bad o. absurd (not_raised tt d (sym filed ∙ bad)))
              (λ i.
                below tail (upper mint bs now mints pos cp l)
                  (child (first_token (drop cp l.key)) (lower mint bs now mints pos cp head l) kids)
                  i s')
              (rw (split-ok mint bs now mints pos c l kids tail rest cp index s s' head good) at h)
      ]
    where
      below :
          (tl : List ℕ) (mid : Label T) (lows : Forest T → Forest T) (i : List ℕ) (st : S)
          → (split_tail mint bs now c mid lows tl rest i st).out ≡ raise e
          → FromAllocator e
      below [] mid lows i st o = absurd (not_raised mid.block_ids e o)
      below (u ∷ us) mid lows i st o = sprout-Passes u us i st e o

  grow-Passes :
      (f : Forest T) (ts index : List ℕ) (s : S)
      → IsWellFormed bs f
      → Passes ts f (grow mint bs now ts f index s)
  grow-Passes =
      grow_rule mint bs now mints pos Passes (λ ts index s f e o. absurd (not_raised [] e o))
        (λ t ts index s e o. sprout-Passes t ts index s e o) (λ c t ts l kids rest g w n ih. ih)
        (λ c t ts l kids rest index s w here part.
          split-Passes c t ts l kids rest index s w here part)
        (λ c t ts l kids rest index s w whole done e o. absurd (not_raised l.block_ids e o))
        (λ c t ts l kids rest u us g w whole more ih. ih)

module _ {T S : Type 0} (mint : ℕ → S → Result (List ℕ × S))
    (mints : (n : ℕ) (s s' : S) (ids : List ℕ) → mint n s ≡ ok (ids, s') → length ids ≡ n) where
  -- On a valid tree, and with an allocator that returns as many ids as it is asked for, whatever
  -- insert raises is what some call of the allocator raises; so it raises no IndexError for a
  -- node without blocks.
  pub insert_raises :
      (now : T) (ts : List ℕ) (r : RadixTree T) (s : S) (e : Error)
      → IsValid r
      → (insert mint r.block_size now ts r s).0 ≡ raise e
      → (n : ℕ) × (s' : S) × (mint n s' ≡ raise e)
  unfolding insert
  insert_raises now ts r s e v h =
      grow-Passes mint r.block_size now mints v.block_size_pos r.root ts r.index s v.shape e h
