-- ===== src/Scheduler/Rotation.antt =====
-- The rotation of RoundRobin: the node of each call, and that every node has its turn.
use nano_kvrouter.Prelude.{
  ℕ, zero, suc, ◌+◌, ◌-◌, ◌%◌, ◌<◌, ◌≡◌, refl, sym, subst, ap, ◌⊎◌, inl, inr, Option, some, List,
  [], ◌∷◌, Mem, mem-cons_self, mem-cons_of_mem, length, get_elem?, ◌∙◌, leb, leb→le, Bool-cases,
  arith, Result, ok, raise, key_error, ◌>>=◌,
}
use native.Mathlib.Nat.{mod-lt, mod-eq_of_lt, add-mod_right, mod-add-mod}
use nano_kvrouter.Prelude.Float.{Float}
use nano_kvrouter.Manager.Lookup.{CacheLookup}
use nano_kvrouter.Scheduler.{Request, PoolNode, CacheQuery, Setting, hit_of}
use nano_kvrouter.Scheduler.Queries.{caught_answers}
use nano_kvrouter.Scheduler.RoundRobin.{RoundRobin, item, turn_of, schedule}

-- the j-th turn from the cursor comes to index i
turn_at : (cursor n i : ℕ) → i < suc n → (j : ℕ) × (j < suc n) × ((cursor + j) % suc n ≡ i)
turn_at cursor n i h =
    let r = cursor % suc n in
    let small : r < suc n = mod-lt cursor (omega arith) in
    elim (Bool-cases (leb r i)) [
      | inl c ↦
          let le = leb→le r i c in
          let sum : r + (i - r) ≡ i = omega arith in
          (
            i - r,
            omega arith,
            sym (mod-add-mod cursor (suc n) (i - r)) ∙ (ap (λ k. k % suc n) sum ∙ mod-eq_of_lt h),
          )
      | inr c ↦
          let gt : i < r = ground arith in
          let sum : r + (i + suc n - r) ≡ i + suc n = omega arith in
          (
            i + suc n - r,
            omega arith,
            sym (mod-add-mod cursor (suc n) (i + suc n - r))
                ∙ (ap (λ k. k % suc n) sum ∙ (add-mod_right i (suc n) ∙ mod-eq_of_lt h)),
          )
    ]

pub item-Mem : {A : Type 0} (x : A) (xs : List A) (i : ℕ) → Mem (item x xs i) (x ∷ xs)
unfolding item
item-Mem x xs zero = mem-cons_self
item-Mem x [] (suc i) = mem-cons_self
item-Mem x (y ∷ ys) (suc i) = mem-cons_of_mem x (item-Mem y ys i)

in_range : {A : Type 0} (xs : List A) (i : ℕ) (x : A) → get_elem? xs i ≡ some x → i < length xs
in_range [] i x e = cc
in_range (y ∷ ys) zero x e = omega arith
in_range (y ∷ ys) (suc i) x e = omega (arith, in_range ys i x e)

some_inj : {A : Type 0} {x y : A} → some x ≡ some y → x ≡ y
some_inj h = cc

item_at :
    {A : Type 0} (x : A) (xs : List A) (i : ℕ)
    → i < suc (length xs)
    → get_elem? (x ∷ xs) i ≡ some (item x xs i)
unfolding item
item_at x xs zero h = refl
item_at x [] (suc i) h = absurd (omega arith)
item_at x (y ∷ ys) (suc i) h = item_at y ys i (omega arith)

module _ (F : Float) where
  -- the prefill nodes of the decisions of a list of requests, one after another
  unfoldable pub prefills :
      (q : CacheQuery F)
      → Setting F
      → List (PoolNode F)
      → List (PoolNode F)
      → List (Request F)
      → RoundRobin × q.State
      → Result (List (Option ℕ))
  unfolding schedule
  prefills q c ps ds [] ws = ok []
  prefills q c ps ds (r ∷ rs) ws =
      let (decision, ws2) = schedule F q c r ps ds ws in
      let rest = prefills q c ps ds rs ws2 in
      decision >>= λ d. rest >>= λ ids. ok (d.prefill_node ∷ ids)

  -- the nodes from the cursor on
  abbrev pub rotation : ℕ → PoolNode F → List (PoolNode F) → List (Request F) → List (Option ℕ)
  rotation cursor p ps [] = []
  rotation cursor p ps (r ∷ rs) =
      some (turn_of F cursor p ps).node_id ∷ rotation (suc cursor) p ps rs

  -- Every lookup answers, or does not know the node.
  abbrev pub Answers : CacheQuery F → Type 0
  Answers q =
      (r : Request F) (i : ℕ) (s : q.State)
      → ((l : CacheLookup F) × ((q.lookup r i s).0 ≡ ok l)) ⊎ ((q.lookup r i s).0 ≡ raise key_error)

  prefills-rotation :
      (q : CacheQuery F) (c : Setting F) (p d : PoolNode F) (ps ds : List (PoolNode F))
      (rs : List (Request F)) (w : RoundRobin) (s : q.State)
      → Answers q
      → prefills q c (p ∷ ps) (d ∷ ds) rs (w, s) ≡ ok (rotation w.prefill_cursor p ps rs)
  unfolding prefills schedule
  prefills-rotation q c p d ps ds [] w s a = refl
  prefills-rotation q c p d ps ds (r ∷ rs) w s a =
      let decode = turn_of F w.decode_cursor d ds in
      let (hit, e) = caught_answers F (q.lookup r decode.node_id s) (a r decode.node_id s) in
      let moved : RoundRobin = record {
        prefill_cursor = suc w.prefill_cursor;
        decode_cursor = suc w.decode_cursor;
      } in
      let rest = prefills-rotation q c p d ps ds rs moved (hit_of F q r decode s).1 a in
      rw (e, rest) refl

  rotation_reaches :
      (p : PoolNode F) (ps : List (PoolNode F)) (rs : List (Request F)) (cursor j : ℕ)
      → j < length rs
      → Mem (some (turn_of F (cursor + j) p ps).node_id) (rotation cursor p ps rs)
  rotation_reaches p ps [] cursor j h = absurd (omega arith)
  rotation_reaches p ps (r ∷ rs) cursor zero h =
      let same : cursor + 0 ≡ cursor = omega arith in rw same mem-cons_self
  rotation_reaches p ps (r ∷ rs) cursor (suc j) h =
      let same : cursor + suc j ≡ suc cursor + j = omega arith in
      rw same (
        mem-cons_of_mem (some (turn_of F cursor p ps).node_id)
          (rotation_reaches p ps rs (suc cursor) j (omega arith)))

  -- Among as many successive requests as the prefill pool has nodes, from any cursors, RoundRobin
  -- answers all and gives each node of the pool a request, if each lookup of the cache answers or
  -- does not know its node.
  pub prefills_reach :
      (q : CacheQuery F) (c : Setting F) (p d n : PoolNode F) (ps ds : List (PoolNode F))
      (rs : List (Request F)) (w : RoundRobin) (s : q.State) (i : ℕ)
      → Answers q
      → get_elem? (p ∷ ps) i ≡ some n
      → length rs ≡ suc (length ps)
      → (ids : List (Option ℕ)) × (prefills q c (p ∷ ps) (d ∷ ds) rs (w, s) ≡ ok ids)
        × Mem (some n.node_id) ids
  unfolding turn_of
  prefills_reach q c p d n ps ds rs w s i a e k =
      let below = in_range (p ∷ ps) i n e in
      let (j, small, at) = turn_at w.prefill_cursor (length ps) i below in
      let found = rotation_reaches p ps rs w.prefill_cursor j (omega (arith, small, k)) in
      let same : turn_of F (w.prefill_cursor + j) p ps ≡ n =
        rw at (some_inj (sym (item_at p ps i below) ∙ e)) in
      (
        rotation w.prefill_cursor p ps rs,
        prefills-rotation q c p d ps ds rs w s a,
        subst (λ m. Mem (some m.node_id) (rotation w.prefill_cursor p ps rs)) same found,
      )
