-- ===== src/Transfer/Lanes.antt =====
-- The two lanes of a node in simulator/transfer_model.py, over sequences of requests.
use nano_kvrouter.Prelude.{
  ℕ, ◌≡◌, ◌⊎◌, inl, inr, true, List, [], ◌∷◌, arith, ◌==◌, if◌then◌else◌, Bool-cases, ==_iff,
  ==_refl,
}
use nano_kvrouter.Prelude.Dict.{Dict, get_or, put, get-put}
use nano_kvrouter.Prelude.Float.{Float, IsOrdered, max2, leq_refl, max2_bounds}
use nano_kvrouter.Transfer.{Window, LaneModel, request_transfer, peek_backlog}

module _ (F : Float) where
  open F use {Num, of_nat, leq, plus}

  pub record Transfer : Type 0 where
    pub src : ℕ
    pub dst : ℕ
    pub at : Num
    pub cost : Num

  abbrev pub request : Transfer → LaneModel F → Window F × LaneModel F
  request r m = request_transfer F r.src r.dst r.at r.cost m

  -- the model after a sequence of requests
  unfoldable pub serve : List Transfer → LaneModel F → LaneModel F
  serve [] m = m
  serve (r ∷ rs) m = serve rs (request r m).1

  abbrev pub AllPaid : List Transfer → Type 0
  AllPaid [] = Unit
  AllPaid (r ∷ rs) = (leq (of_nat 0) r.cost ≡ true) × AllPaid rs

  get_or-put :
      (d : Dict Num) (k j : ℕ) (v z : Num)
      → get_or (put d k v) j z ≡ (if k == j then v else get_or d j z)
  unfolding get_or
  get_or-put d k j v z = ground (arith, get-put d k j v)

  -- After a request, peek_backlog gives its finish for the egress lane of its source and for the
  -- ingress lane of its destination, and for every other lane what it gave before.
  pub peek-request :
      (r : Transfer) (m : LaneModel F) (n : ℕ)
      → ((peek_backlog F n (request r m).1).egress
          ≡ (if r.src == n then (request r m).0.finish else (peek_backlog F n m).egress))
        × ((peek_backlog F n (request r m).1).ingress
            ≡ (if r.dst == n then (request r m).0.finish else (peek_backlog F n m).ingress))
  unfolding peek_backlog request_transfer
  peek-request r m n =
      (get_or-put m.egress_at r.src n _ (of_nat 0), get_or-put m.ingress_at r.dst n _ (of_nat 0))

  module _ (o : IsOrdered F) where
    -- A transfer starts no earlier than it is requested, nor than peek_backlog says that its
    -- egress and its ingress lane are free, if numbers are ordered as `IsOrdered` says.
    pub request_bounds :
        (r : Transfer) (m : LaneModel F)
        → (leq r.at (request r m).0.start ≡ true)
          × (leq (peek_backlog F r.src m).egress (request r m).0.start ≡ true)
          × (leq (peek_backlog F r.dst m).ingress (request r m).0.start ≡ true)
    unfolding peek_backlog request_transfer
    request_bounds r m =
        let e = get_or m.egress_at r.src (of_nat 0) in
        let i = get_or m.ingress_at r.dst (of_nat 0) in
        let (a, b) = max2_bounds F o r.at e in
        let (c, d) = max2_bounds F o (max2 F r.at e) i in (o.trans _ _ _ a c, o.trans _ _ _ b c, d)

    request_finish :
        (r : Transfer) (m : LaneModel F)
        → leq (of_nat 0) r.cost ≡ true
        → leq (request r m).0.start (request r m).0.finish ≡ true
    unfolding request_transfer
    request_finish r m h = o.grows _ r.cost h

    -- No lane is ever free earlier than it was going to be.
    peek_mono :
        (r : Transfer) (m : LaneModel F) (n : ℕ)
        → leq (of_nat 0) r.cost ≡ true
        → (leq (peek_backlog F n m).egress (peek_backlog F n (request r m).1).egress ≡ true)
          × (leq (peek_backlog F n m).ingress (peek_backlog F n (request r m).1).ingress ≡ true)
    peek_mono r m n h =
        let (a, b, c) = request_bounds r m in
        let d = request_finish r m h in
        (
          elim (Bool-cases (r.src == n)) [
            | inl e ↦ rw ((peek-request r m n).0, e, ← (==_iff r.src n).0 e) (o.trans _ _ _ b d)
            | inr e ↦ rw ((peek-request r m n).0, e) (leq_refl F o _)
          ],
          elim (Bool-cases (r.dst == n)) [
            | inl e ↦ rw ((peek-request r m n).1, e, ← (==_iff r.dst n).0 e) (o.trans _ _ _ c d)
            | inr e ↦ rw ((peek-request r m n).1, e) (leq_refl F o _)
          ],
        )

    serve_mono :
        (rs : List Transfer) (m : LaneModel F) (n : ℕ)
        → AllPaid rs
        → (leq (peek_backlog F n m).egress (peek_backlog F n (serve rs m)).egress ≡ true)
          × (leq (peek_backlog F n m).ingress (peek_backlog F n (serve rs m)).ingress ≡ true)
    unfolding serve
    serve_mono [] m n h = (leq_refl F o _, leq_refl F o _)
    serve_mono (r ∷ rs) m n h =
        let (a, b) = peek_mono r m n h.0 in
        let (c, d) = serve_mono rs (request r m).1 n h.1 in (o.trans _ _ _ a c, o.trans _ _ _ b d)

    -- A transfer that shares its source or its destination with an earlier one, whatever
    -- transfers were requested between the two, starts no earlier than the earlier one finishes,
    -- if the costs of the transfers between the two are not negative and numbers are ordered as
    -- `IsOrdered` says.
    pub serialized :
        (r : Transfer) (rs : List Transfer) (s : Transfer) (m : LaneModel F)
        → AllPaid rs
        → (r.src ≡ s.src) ⊎ (r.dst ≡ s.dst)
        → leq (request r m).0.finish (request s (serve rs (request r m).1)).0.start ≡ true
    serialized r rs s m h shared =
        let later = serve rs (request r m).1 in
        let (_, b, c) = request_bounds s later in
        elim shared [
          | inl e ↦
              let busy : (peek_backlog F s.src (request r m).1).egress ≡ (request r m).0.finish =
                rw ((peek-request r m s.src).0, ← e, ==_refl r.src) in
              o.trans _ _ _ (rw busy at ((serve_mono rs (request r m).1 s.src h).0)) b
          | inr e ↦
              let busy : (peek_backlog F s.dst (request r m).1).ingress ≡ (request r m).0.finish =
                rw ((peek-request r m s.dst).1, ← e, ==_refl r.dst) in
              o.trans _ _ _ (rw busy at ((serve_mono rs (request r m).1 s.dst h).1)) c
        ]
