-- ===== src/Node/Slots.antt =====
-- `running_requests`, `queue` and `decoding` in engine/mock_node.py, call by call.
use nano_kvrouter.Prelude.{
  ℕ, suc, ◌≤◌, ◌<◌, ◌≡◌, ◌≢◌, inl, inr, refl, true, false, Option, List, [], ◌∷◌, ◌++◌, length,
  ◌==◌, arith, Bool-cases, ==_iff, ltb→lt, length-append,
}
use nano_kvrouter.Prelude.Sets.{mem, mem-add, mem-discard, mem-append}
use nano_kvrouter.Node.{
  Node, init, has_slot, admit, start_decode, init_promoted, enter_prefill, mark_prefill_done,
}
use nano_kvrouter.Node.Batch.{remove_first, promote_from, promote, forget, complete}

-- No more requests run than there are slots; none waits while a slot is free; and only running
-- requests are in the decode batch.
pub record IsServing (n : Node) : Type 0 where
  pub within : length n.running ≤ n.capacity
  pub no_waste : length n.running < n.capacity → n.queue ≡ []
  pub batched : (x : ℕ) → mem x n.decoding ≡ true → mem x n.running ≡ true

pub init-IsServing : (c k : ℕ) → IsServing (init c k)
unfolding init mem
init-IsServing c k = record { within = omega arith; no_waste = λ _. refl; batched = λ x h. h }

pub length-remove_first :
    (r : ℕ) (xs : List ℕ) → mem r xs ≡ true → suc (length (remove_first r xs)) ≡ length xs
unfolding mem remove_first
length-remove_first r [] h = ground arith
length-remove_first r (x ∷ xs) h = ground (arith, length-remove_first r xs)

pub mem-remove_first :
    (x r : ℕ) (xs : List ℕ) → (x == r) ≡ false → mem x xs ≡ true → mem x (remove_first r xs) ≡ true
unfolding mem remove_first
mem-remove_first x r [] d h = h
mem-remove_first x r (y ∷ xs) d h = ground (arith, mem-remove_first x r xs d)

pub mem-snoc : (x r : ℕ) (xs : List ℕ) → mem x xs ≡ true → mem x (xs ++ (r ∷ [])) ≡ true
mem-snoc x r xs h = ground (arith, mem-append xs (r ∷ []) x)

pub admit-IsServing :
    (r expected : ℕ) (prompt uncached : Option ℕ) (n : Node)
    → IsServing n
    → IsServing (admit r expected prompt uncached n).1
unfolding admit has_slot
admit-IsServing r expected prompt uncached n s = elim (Bool-cases (has_slot n)) [
  | inl c ↦
      let free = ltb→lt (length n.running) n.capacity c in
      let longer = length-append n.running (r ∷ []) in
      rw c (record {
        within = omega arith;
        no_waste = λ f. s.no_waste (omega arith);
        batched = λ x m. mem-snoc x r n.running (s.batched x m);
      })
  | inr c ↦ rw c (record { within = s.within; no_waste = λ f. ground arith; batched = s.batched })
]

promote_from-IsServing :
    (q : List ℕ) (n : Node)
    → n.queue ≡ q
    → length n.running ≤ n.capacity
    → (n.queue ≢ [] → n.capacity ≤ suc (length n.running))
    → ((x : ℕ) → mem x n.decoding ≡ true → mem x n.running ≡ true)
    → IsServing (promote_from q n).1
unfolding promote_from has_slot
promote_from-IsServing [] n e w full b = record { within = w; no_waste = λ _. e; batched = b }
promote_from-IsServing (r ∷ rs) n e w full b =
    let tight = full (λ h. ground arith) in
    elim (Bool-cases (has_slot n)) [
      | inl c ↦
          let free = ltb→lt (length n.running) n.capacity c in
          let longer = length-append n.running (r ∷ []) in
          rw c (record {
            within = omega arith;
            no_waste = λ f. absurd (omega arith);
            batched = λ x m. mem-snoc x r n.running (b x m);
          })
      | inr c ↦ rw c (record { within = w; no_waste = λ f. ground arith; batched = b })
    ]

pub complete-IsServing : (r : ℕ) (n : Node) → IsServing n → IsServing (complete r n).1
unfolding complete promote forget
complete-IsServing r n s = elim (Bool-cases (mem r n.running)) [
  | inl c ↦
      let shorter = length-remove_first r n.running c in
      rw c (
        promote_from-IsServing n.queue (forget r (record n { running = remove_first r n.running }))
          refl (omega (arith, s.within)) (λ waits. ground (arith, s.no_waste))
          (λ x m.
            mem-remove_first x r n.running (ground (arith, mem-discard n.decoding r x))
              (s.batched x (ground (arith, mem-discard n.decoding r x)))))
  | inr c ↦ elim (Bool-cases (mem r n.queue)) [
    | inl d ↦
        rw (c, d)
          (promote_from-IsServing (remove_first r n.queue)
            (forget r (record n { queue = remove_first r n.queue })) refl s.within
            (λ waits. ground (arith, s.no_waste, mem))
            (λ x m. s.batched x (ground (arith, mem-discard n.decoding r x))))
    | inr d ↦ rw (c, d) s
  ]
]

pub start_decode-IsServing : (r : ℕ) (n : Node) → IsServing n → IsServing (start_decode r n).1
unfolding start_decode
start_decode-IsServing r n s = elim (Bool-cases (mem r n.running)) [
  | inl c ↦ rw c (record {
    within = s.within;
    no_waste = s.no_waste;
    batched = λ x m. elim (Bool-cases (r == x)) [
      | inl e ↦ rw (← (==_iff r x).0 e) c
      | inr e ↦ s.batched x (ground (arith, mem-add n.decoding r x))
    ];
  })
  | inr c ↦ rw c s
]

-- the nodes with the same slots, queue and batch
abbrev pub IsSameService : Node → Node → Type 0
IsSameService n m =
    (m.capacity ≡ n.capacity)
    × (m.running ≡ n.running)
    × (m.queue ≡ n.queue)
    × ((x : ℕ) → mem x m.decoding ≡ true → mem x n.decoding ≡ true)

pub same-IsServing : (n m : Node) → IsSameService n m → IsServing n → IsServing m
same-IsServing n m (c, r, q, d) s = record {
  within = rw (c, r) s.within;
  no_waste = λ h. rw q (s.no_waste (rw (r, c) at h));
  batched = λ x h. rw r (s.batched x (d x h));
}

pub init_promoted-IsServing :
    (r expected : ℕ) (prompt uncached : Option ℕ) (n : Node)
    → IsServing n
    → IsServing (init_promoted r expected prompt uncached n).1
unfolding init_promoted
init_promoted-IsServing r expected prompt uncached n s = elim (Bool-cases (mem r n.running)) [
  | inl c ↦ rw c (same-IsServing n _ (refl, refl, refl, λ x h. h) s)
  | inr c ↦ rw c s
]

pub enter_prefill-IsServing :
    (r uncached : ℕ) (n : Node) → IsServing n → IsServing (enter_prefill r uncached n).1
unfolding enter_prefill
enter_prefill-IsServing r uncached n s = elim (Bool-cases (mem r n.running)) [
  | inl c ↦ rw c (same-IsServing n _ (refl, refl, refl, λ x h. h) s)
  | inr c ↦ rw c s
]

pub mark_prefill_done-IsServing :
    (r : ℕ) (n : Node) → IsServing n → IsServing (mark_prefill_done r n).1
unfolding mark_prefill_done
mark_prefill_done-IsServing r n s = elim (Bool-cases (mem r n.running)) [
  | inl c ↦ rw c (same-IsServing n _ (refl, refl, refl, λ x h. h) s)
  | inr c ↦ rw c s
]
