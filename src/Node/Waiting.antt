-- ===== src/Node/Waiting.antt =====
-- The estimate of the wait for a slot, against the queue of the node.
use nano_kvrouter.Prelude.{
  ℕ, ◌≡◌, inl, inr, refl, ap, subst, true, false, Option, some, List, [], ◌∷◌, ◌++◌, map, All,
  arith, Bool-cases, ◌==◌,
}
use nano_kvrouter.Prelude.Dict.{get, get-put, put}
use nano_kvrouter.Prelude.Sets.{mem, mem-append}
use nano_kvrouter.Prelude.Float.{Float, IsOrdered, leq_refl}
use nano_kvrouter.Node.{
  Node, RequestState, Phase, new_state, queued, admitted, prefilling, prefill_done, in_decode,
  has_slot, admit,
}
use nano_kvrouter.Node.Batch.{LatencyModel}
use nano_kvrouter.Node.Estimates.{
  insert_num, sort_nums, take_slot, take_slots, first_release, remaining_lifecycle_ms,
  state_for_wait, fifo_wait, queue_wait_time, uses_legacy_wait_fallback, remaining_in,
  wait_decode_step_ms,
}

module _ (F : Float) where
  open F use {Num, of_nat, leq, plus}

  -- x is no greater than any number of the list
  abbrev AtMost : Num → List Num → Type 0
  AtMost x ys = All (λ y. leq x y ≡ true) ys

  abbrev IsSorted : List Num → Type 0
  IsSorted [] = Unit
  IsSorted (x ∷ xs) = AtMost x xs × IsSorted xs

  insert_num-All :
      (P : Num → Type 0) (x : Num) (ys : List Num) → P x → All P ys → All P (insert_num F x ys)
  unfolding insert_num
  insert_num-All P x [] p h = (p, tt)
  insert_num-All P x (y ∷ ys) p h = elim (Bool-cases (leq x y)) [
    | inl c ↦ rw c (p, h)
    | inr c ↦ rw c (h.0, insert_num-All P x ys p h.1)
  ]

  sort_nums-All : (P : Num → Type 0) (xs : List Num) → All P xs → All P (sort_nums F xs)
  unfolding sort_nums
  sort_nums-All P [] h = tt
  sort_nums-All P (x ∷ xs) h = insert_num-All P x (sort_nums F xs) h.0 (sort_nums-All P xs h.1)

  All-snoc : (P : Num → Type 0) (xs : List Num) (x : Num) → All P xs → P x → All P (xs ++ (x ∷ []))
  All-snoc P [] x h p = (p, tt)
  All-snoc P (y ∷ ys) x h p = (h.0, All-snoc P ys x h.1 p)

  take_slots-snoc :
      (slots costs : List Num) (c : Num)
      → take_slots F slots (costs ++ (c ∷ [])) ≡ take_slot F (take_slots F slots costs) c
  unfolding take_slots
  take_slots-snoc slots [] c = refl
  take_slots-snoc slots (d ∷ costs) c = take_slots-snoc (take_slot F slots d) costs c

  map-snoc : (f : ℕ → Num) (xs : List ℕ) (x : ℕ) → map f (xs ++ (x ∷ [])) ≡ map f xs ++ (f x ∷ [])
  map-snoc f [] x = refl
  map-snoc f (y ∷ xs) x = ap (λ t. f y ∷ t) (map-snoc f xs x)

  module _ (o : IsOrdered F) where
    AtMost-trans : (x y : Num) (ys : List Num) → leq x y ≡ true → AtMost y ys → AtMost x ys
    AtMost-trans x y [] h k = tt
    AtMost-trans x y (z ∷ zs) h k = (o.trans x y z h k.0, AtMost-trans x y zs h k.1)

    insert_num-IsSorted : (x : Num) (ys : List Num) → IsSorted ys → IsSorted (insert_num F x ys)
    unfolding insert_num
    insert_num-IsSorted x [] s = (tt, tt)
    insert_num-IsSorted x (y ∷ ys) s = elim (Bool-cases (leq x y)) [
      | inl c ↦ rw c ((c, AtMost-trans x y ys c s.0), s)
      | inr c ↦ rw c (
        insert_num-All (λ z. leq y z ≡ true) x ys (o.total x y c) s.0,
        insert_num-IsSorted x ys s.1,
      )
    ]

    sort_nums-IsSorted : (xs : List Num) → IsSorted (sort_nums F xs)
    unfolding sort_nums
    sort_nums-IsSorted [] = tt
    sort_nums-IsSorted (x ∷ xs) = insert_num-IsSorted x (sort_nums F xs) (sort_nums-IsSorted xs)

    take_slot-IsSorted : (slots : List Num) (c : Num) → IsSorted (take_slot F slots c)
    unfolding take_slot
    take_slot-IsSorted [] c = tt
    take_slot-IsSorted (s ∷ ss) c = sort_nums-IsSorted (ss ++ (plus s c ∷ []))

    take_slots-IsSorted :
        (slots costs : List Num) → IsSorted slots → IsSorted (take_slots F slots costs)
    unfolding take_slots
    take_slots-IsSorted slots [] h = h
    take_slots-IsSorted slots (c ∷ costs) h =
        take_slots-IsSorted (take_slot F slots c) costs (take_slot-IsSorted slots c)

    -- the first of what is put into a list in its order, with a lower bound
    insert_num-first :
        (a x : Num) (ys : List Num)
        → AtMost a (insert_num F x ys)
        → leq a (first_release F (insert_num F x ys)) ≡ true
    unfolding insert_num first_release
    insert_num-first a x [] h = h.0
    insert_num-first a x (y ∷ ys) h = elim (Bool-cases (leq x y)) [
      | inl c ↦
          let same : x ∷ y ∷ ys ≡ insert_num F x (y ∷ ys) = rw (c, insert_num) refl in
          subst (λ l. AtMost a l → leq a (first_release F l) ≡ true) same (λ k. k.0) h
      | inr c ↦
          let same : y ∷ insert_num F x ys ≡ insert_num F x (y ∷ ys) = rw (c, insert_num) refl in
          subst (λ l. AtMost a l → leq a (first_release F l) ≡ true) same (λ k. k.0) h
    ]

    sort_nums-first :
        (a : Num) (ys : List Num) (c : Num)
        → AtMost a (sort_nums F (ys ++ (c ∷ [])))
        → leq a (first_release F (sort_nums F (ys ++ (c ∷ [])))) ≡ true
    unfolding sort_nums
    sort_nums-first a [] c h = insert_num-first a c [] h
    sort_nums-first a (y ∷ ys) c h = insert_num-first a y (sort_nums F (ys ++ (c ∷ []))) h

    take_slot-first :
        (slots : List Num) (c : Num)
        → IsSorted slots
        → leq (of_nat 0) c ≡ true
        → leq (first_release F slots) (first_release F (take_slot F slots c)) ≡ true
    unfolding take_slot first_release
    take_slot-first [] c h k = leq_refl F o (of_nat 0)
    take_slot-first (s ∷ ss) c h k =
        let above : AtMost s (ss ++ (plus s c ∷ [])) =
          All-snoc (λ z. leq s z ≡ true) ss (plus s c) h.0 (o.grows s c k) in
        sort_nums-first s ss (plus s c)
          (sort_nums-All (λ z. leq s z ≡ true) (ss ++ (plus s c ∷ [])) above)

    -- the wait with one more request in the queue
    take_slots-grows :
        (running costs : List Num) (c : Num)
        → leq (of_nat 0) c ≡ true
        → leq
            (first_release F (take_slots F (sort_nums F running) costs))
            (first_release F (take_slots F (sort_nums F running) (costs ++ (c ∷ []))))
          ≡ true
    take_slots-grows running costs c k = rw (take_slots-snoc (sort_nums F running) costs c) (
        take_slot-first (take_slots F (sort_nums F running) costs) c
          (take_slots-IsSorted (sort_nums F running) costs (sort_nums-IsSorted running)) k)

  map_agree :
      (f g : ℕ → Num) (r : ℕ) (xs : List ℕ)
      → ((x : ℕ) → (r == x) ≡ false → g x ≡ f x)
      → mem r xs ≡ false
      → map g xs ≡ map f xs
  unfolding mem
  map_agree f g r [] h k = refl
  map_agree f g r (x ∷ xs) h k = rw (h x (ground arith), map_agree f g r xs h (ground arith)) refl

  -- the node that `admit` leaves when it has no slot
  abbrev enqueued : ℕ → RequestState → Node → Node
  enqueued r state n = record n { states = put n.states r state; queue = n.queue ++ (r ∷ []) }

  admit_full :
      (n : Node) (r expected : ℕ) (prompt uncached : Option ℕ)
      → has_slot n ≡ false
      → (admit r expected prompt uncached n).1
        ≡ enqueued r (new_state r expected prompt uncached queued) n
  unfolding admit
  admit_full n r expected prompt uncached h = rw h refl

  state_for_wait-enqueued :
      (n : Node) (r x : ℕ) (state : RequestState)
      → (r == x) ≡ false
      → state_for_wait (enqueued r state n) x ≡ state_for_wait n x
  unfolding state_for_wait mem
  state_for_wait-enqueued n r x state h =
      let found : get (put n.states r state) x ≡ get n.states x =
        rw (get-put n.states r x state, h) refl in
      let waits : mem x (n.queue ++ (r ∷ [])) ≡ mem x n.queue =
        ground (arith, mem-append n.queue (r ∷ []) x, h) in
      rw (found, waits) refl

  cost-enqueued :
      (l : LatencyModel F) (n : Node) (r x : ℕ) (state : RequestState) (prompt output : Option ℕ)
      → (r == x) ≡ false
      → remaining_lifecycle_ms F l (enqueued r state n) prompt output x
        ≡ remaining_lifecycle_ms F l n prompt output x
  unfolding remaining_lifecycle_ms remaining_in wait_decode_step_ms
  cost-enqueued l n r x state prompt output h =
      rw (state_for_wait-enqueued n r x state h) (same (state_for_wait n x).phase)
    where
      same :
          (p : Phase)
          → remaining_in F p l (enqueued r state n) (state_for_wait n x) prompt output
            ≡ remaining_in F p l n (state_for_wait n x) prompt output
      same queued = refl
      same admitted = refl
      same prefilling = refl
      same prefill_done = refl
      same in_decode = refl

  module _ (o : IsOrdered F) where
    fifo_wait-enqueued :
        (l : LatencyModel F) (n : Node) (r : ℕ) (state : RequestState) (prompt output : Option ℕ)
        → mem r n.running ≡ false
        → mem r n.queue ≡ false
        → leq (of_nat 0) (remaining_lifecycle_ms F l (enqueued r state n) prompt output r) ≡ true
        → leq (fifo_wait F l n prompt output) (fifo_wait F l (enqueued r state n) prompt output)
          ≡ true
    unfolding fifo_wait
    fifo_wait-enqueued l n r state prompt output absent_running absent_queue c =
        let f = remaining_lifecycle_ms F l n prompt output in
        let g = remaining_lifecycle_ms F l (enqueued r state n) prompt output in
        let same : (x : ℕ) → (r == x) ≡ false → g x ≡ f x =
          λ x h. cost-enqueued l n r x state prompt output h in
        rw
          (
            map-snoc g n.queue r,
            map_agree f g r n.queue same absent_queue,
            map_agree f g r n.running same absent_running,
          )
          (take_slots-grows o (map f n.running) (map f n.queue) (g r) c)

    -- A request that a full node takes into its queue, and that is not on the node already, makes
    -- queue_wait_time for a known prompt length no shorter, if its own remaining time is not
    -- negative and numbers are ordered as `IsOrdered` says.
    pub queue_wait_time-admit :
        (l : LatencyModel F) (n : Node) (r expected k : ℕ) (prompt uncached output : Option ℕ)
        → has_slot n ≡ false
        → mem r n.running ≡ false
        → mem r n.queue ≡ false
        → leq
            (of_nat 0)
            (remaining_lifecycle_ms F l (admit r expected prompt uncached n).1 (some k) output r)
          ≡ true
        → leq
            (queue_wait_time F l n (some k) output)
            (queue_wait_time F l (admit r expected prompt uncached n).1 (some k) output)
          ≡ true
    unfolding queue_wait_time uses_legacy_wait_fallback
    queue_wait_time-admit l n r expected k prompt uncached output full absent_running absent_queue
          c =
        let state = new_state r expected prompt uncached queued in
        let same = admit_full n r expected prompt uncached full in
        rw (same, full)
          (fifo_wait-enqueued l n r state (some k) output absent_running absent_queue (
            subst (λ m. leq (of_nat 0) (remaining_lifecycle_ms F l m (some k) output r) ≡ true) same
              c))
