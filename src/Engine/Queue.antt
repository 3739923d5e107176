-- ===== src/Engine/Queue.antt =====
-- `heapq.heappop` of simulator/engine.py: the order of the queue.
use nano_kvrouter.Prelude.{
  ℕ, ◌<◌, ◌≡◌, ◌≢◌, inl, inr, true, false, List, [], ◌∷◌, arith, Bool-cases,
}
use nano_kvrouter.Prelude.Float.{Float, IsOrdered, less}
use nano_kvrouter.Prelude.Keys.{pair_lt, pair_lt_total, pair_lt_trans}
use nano_kvrouter.Engine.{Event, before, pop_least}

module _ (F : Float) (Payload : Type 0) where
  open F use {Num, leq}

  abbrev pub Every : (Event F Payload → Type 0) → List (Event F Payload) → Type 0
  Every P [] = Unit
  Every P (e ∷ q) = P e × Every P q

  pub Every-map :
      {P Q : Event F Payload → Type 0} (q : List (Event F Payload))
      → ((e : Event F Payload) → P e → Q e)
      → Every P q
      → Every Q q
  Every-map [] f h = tt
  Every-map (e ∷ q) f h = (f e h.0, Every-map q f h.1)

  -- The events wait in the order in which they came, the newest first, and none is due before t.
  abbrev pub IsTimely : Num → List (Event F Payload) → ℕ → Type 0
  IsTimely t [] n = Unit
  IsTimely t (e ∷ q) n = (leq t e.time ≡ true) × (e.seq < n) × IsTimely t q e.seq

  pub IsTimely-older :
      (t : Num) (q : List (Event F Payload)) (n : ℕ)
      → IsTimely t q n
      → Every (λ x. (x.seq < n) × (leq t x.time ≡ true)) q
  IsTimely-older t [] n h = tt
  IsTimely-older t (e ∷ q) n h =
      ((h.1, h.0), Every-map q (λ x k. (omega arith, k.1)) (IsTimely-older t q e.seq h.2))

  -- What is taken and what is left is what was there.
  pub pop_least-Every :
      (P : Event F Payload → Type 0) (e : Event F Payload) (q : List (Event F Payload))
      → Every P (e ∷ q)
      → P (pop_least F Payload e q).0 × Every P (pop_least F Payload e q).1
  unfolding pop_least
  pop_least-Every P e [] h = (h.0, tt)
  pop_least-Every P e (f ∷ q) h =
      let (a, b) = pop_least-Every P f q h.1 in
      elim (Bool-cases (before F Payload (pop_least F Payload f q).0 e)) [
        | inl k ↦ rw k (a, (h.0, b))
        | inr k ↦ rw k h
      ]

  pub Every-pop_least :
      (P : Event F Payload → Type 0) (e : Event F Payload) (q : List (Event F Payload))
      → P (pop_least F Payload e q).0
      → Every P (pop_least F Payload e q).1
      → Every P (e ∷ q)
  unfolding pop_least
  Every-pop_least P e [] h k = (h, tt)
  Every-pop_least P e (f ∷ q) h k =
      elim (Bool-cases (before F Payload (pop_least F Payload f q).0 e)) [
        | inl c ↦ let k2 = rw c at k in (k2.0, Every-pop_least P f q (rw c at h) k2.1)
        | inr c ↦ (rw c at h, rw c at k)
      ]

  module _ (o : IsOrdered F) where
    before-total :
        (a b : Event F Payload)
        → a.seq ≢ b.seq
        → before F Payload a b ≡ false
        → before F Payload b a ≡ true
    unfolding before
    before-total a b d h = pair_lt_total F o (a.time, a.seq) (b.time, b.seq) d h

    before_trans :
        (a b c : Event F Payload)
        → before F Payload a b ≡ true
        → before F Payload b c ≡ true
        → before F Payload a c ≡ true
    unfolding before
    before_trans a b c h k = pair_lt_trans F o (a.time, a.seq) (b.time, b.seq) (c.time, c.seq) h k

    -- What is taken from a queue with events that are not due in the past and have different
    -- sequence numbers is before every event that is left, in the order of times and then of
    -- sequence numbers, if times are ordered as `IsOrdered` says.
    pub pop_least-before :
        (t : Num) (e : Event F Payload) (q : List (Event F Payload)) (n : ℕ)
        → IsTimely t (e ∷ q) n
        → Every
            (λ x. before F Payload (pop_least F Payload e q).0 x ≡ true)
            (pop_least F Payload e q).1
    unfolding pop_least
    pop_least-before t e [] n h = tt
    pop_least-before t e (f ∷ q) n h =
        let m = (pop_least F Payload f q).0 in
        let older =
          (pop_least-Every (λ x. (x.seq < e.seq) × (leq t x.time ≡ true)) f q
            (IsTimely-older t (f ∷ q) e.seq h.2)).0 in
        let least = pop_least-before t f q e.seq h.2 in
        elim (Bool-cases (before F Payload m e)) [
          | inl c ↦ rw c (c, least)
          | inr c ↦
              let em = before-total m e (λ q. omega arith) c in
              rw c (
                Every-pop_least (λ x. before F Payload e x ≡ true) f q em
                  (Every-map (pop_least F Payload f q).1 (λ x k. before_trans e m x em k) least))
        ]

    -- What is left still waits in that order, and is not due before what was taken.
    IsTimely-later :
        (t u : Num) (q : List (Event F Payload)) (n : ℕ)
        → IsTimely t q n
        → Every (λ x. leq u x.time ≡ true) q
        → IsTimely u q n
    IsTimely-later t u [] n h k = tt
    IsTimely-later t u (e ∷ q) n h k = (k.0, h.1, IsTimely-later t u q e.seq h.2 k.1)

    IsTimely-le :
        (t : Num) (q : List (Event F Payload)) (m n : ℕ) → m < n → IsTimely t q m → IsTimely t q n
    IsTimely-le t [] m n l h = tt
    IsTimely-le t (e ∷ q) m n l h = (h.0, omega arith, h.2)

    pop_least-order :
        (t : Num) (e : Event F Payload) (q : List (Event F Payload)) (n : ℕ)
        → IsTimely t (e ∷ q) n
        → IsTimely t (pop_least F Payload e q).1 n
    unfolding pop_least
    pop_least-order t e [] n h = tt
    pop_least-order t e (f ∷ q) n h =
        elim (Bool-cases (before F Payload (pop_least F Payload f q).0 e)) [
          | inl c ↦ rw c (h.0, h.1, pop_least-order t f q e.seq h.2)
          | inr c ↦ rw c (IsTimely-le t (f ∷ q) e.seq n h.1 h.2)
        ]

    before-le : (a b : Event F Payload) → before F Payload a b ≡ true → leq a.time b.time ≡ true
    unfolding before pair_lt less
    before-le a b h = let t = o.total a.time b.time in let u = o.total b.time a.time in ground arith

    pub pop_least-IsTimely :
        (t : Num) (e : Event F Payload) (q : List (Event F Payload)) (n : ℕ)
        → IsTimely t (e ∷ q) n
        → IsTimely (pop_least F Payload e q).0.time (pop_least F Payload e q).1 n
    pop_least-IsTimely t e q n h =
        IsTimely-later t _ _ n (pop_least-order t e q n h)
          (Every-map _ (λ x k. before-le _ x k) (pop_least-before t e q n h))
