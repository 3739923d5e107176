-- ===== src/Pool/Allocations.antt =====
-- `allocate`: fresh ids on the tier that was asked for, and the invariant.
use nano_kvrouter.Prelude.{
  ℕ, zero, suc, ◌+◌, ◌≤◌, ◌<◌, ◌≡◌, ◌≢◌, ◌⊎◌, refl, ap, true, false, some, List, [], ◌∷◌, length,
  arith, if◌then◌else◌, ◌==◌, ok, Bool-cases, inl, inr, ==_iff,
}
use nano_kvrouter.Prelude.Count.{pos, natural}
use nano_kvrouter.Prelude.Dict.{get, put, has, get_or, get-put}
use nano_kvrouter.Prelude.Sets.{
  mem, distinct, update, mem-update, length-update-le, distinct-update,
}
use nano_kvrouter.Pool.{
  Tier, gpu, cpu, disk, unknown, BlockPool, same_tier, is_on, ref_count, pin_count, enter,
  update_tier, admit_ids, draw, allocate,
}
use nano_kvrouter.Pool.Invariant.{tier_state, IsConsistent, IsFresh}

module _ (t : Tier) where
  get-enter :
      (ids : List ℕ) (p : BlockPool) (x : ℕ)
      → (get (enter t ids p).block_tier x ≡ (if mem x ids then some t else get p.block_tier x))
        × (get (enter t ids p).refs x ≡ (if mem x ids then some (pos 0) else get p.refs x))
        × (get (enter t ids p).pins x ≡ (if mem x ids then some (pos 0) else get p.pins x))
  unfolding enter mem
  get-enter [] p x = (refl, refl, refl)
  get-enter (b ∷ ids) p x =
      let q : BlockPool = record p {
        block_tier = put p.block_tier b t;
        refs = put p.refs b (pos 0);
        pins = put p.pins b (pos 0);
      } in
      let (tiers, refs, pins) = get-enter ids q x in
      (
        ground (arith, tiers, get-put p.block_tier b x t),
        ground (arith, refs, get-put p.refs b x (pos 0)),
        ground (arith, pins, get-put p.pins b x (pos 0)),
      )

  state-enter :
      (ids : List ℕ) (p : BlockPool) (u : Tier)
      → (tier_state (enter t ids p) u ≡ tier_state p u) × ((enter t ids p).drawn ≡ p.drawn)
  unfolding enter tier_state
  state-enter [] p u = (refl, refl)
  state-enter (b ∷ ids) p gpu = state-enter ids _ gpu
  state-enter (b ∷ ids) p cpu = state-enter ids _ cpu
  state-enter (b ∷ ids) p disk = state-enter ids _ disk
  state-enter (b ∷ ids) p unknown = state-enter ids _ unknown

  state-update_tier :
      (ids : List ℕ) (p : BlockPool) (u : Tier)
      → t ≢ unknown
      → ((tier_state (update_tier p t ids) u).allocated ≡ (
          if same_tier t u
          then update (tier_state p u).allocated ids
          else (tier_state p u).allocated))
        × ((tier_state (update_tier p t ids) u).capacity ≡ (tier_state p u).capacity)
        × ((update_tier p t ids).block_tier ≡ p.block_tier)
        × ((update_tier p t ids).refs ≡ p.refs)
        × ((update_tier p t ids).pins ≡ p.pins)
        × ((update_tier p t ids).drawn ≡ p.drawn)
  unfolding update_tier tier_state same_tier
  state-update_tier ids p u h = ground arith

module _ (t : Tier) (ids : List ℕ) (p : BlockPool) (known : t ≢ unknown) where
  -- What the writes of `allocate` leave in each table.
  pub tables-admit_ids :
      (x : ℕ)
      → (get (admit_ids t ids p).block_tier x ≡ (if mem x ids then some t else get p.block_tier x))
        × (get (admit_ids t ids p).refs x ≡ (if mem x ids then some (pos 0) else get p.refs x))
        × (get (admit_ids t ids p).pins x ≡ (if mem x ids then some (pos 0) else get p.pins x))
  unfolding admit_ids
  tables-admit_ids x =
      let (_, _, tiers, refs, pins, _) = state-update_tier t ids p gpu known in
      let (a, b, c) = get-enter t ids (update_tier p t ids) x in
      (rw (a, tiers), rw (b, refs), rw (c, pins))

  pub allocated-admit_ids :
      (u : Tier)
      → ((tier_state (admit_ids t ids p) u).allocated ≡ (
          if same_tier t u
          then update (tier_state p u).allocated ids
          else (tier_state p u).allocated))
        × ((tier_state (admit_ids t ids p) u).capacity ≡ (tier_state p u).capacity)
        × ((admit_ids t ids p).drawn ≡ p.drawn)
  unfolding admit_ids
  allocated-admit_ids u =
      let (a, c, _, _, _, d) = state-update_tier t ids p u known in
      let (s, e) = state-enter t ids (update_tier p t ids) u in (rw s a, rw s c, rw e d)

  module _ (c : IsConsistent p) (new : (x : ℕ) → mem x ids ≡ true → has p.block_tier x ≡ false)
      (room : length (tier_state p t).allocated + length ids ≤ (tier_state p t).capacity) where
    admit_ids-on :
        (u : Tier) (x : ℕ)
        → mem x (tier_state (admit_ids t ids p) u).allocated ≡ is_on (admit_ids t ids p) x u
    unfolding is_on has
    admit_ids-on u x = ground (
      arith,
      (allocated-admit_ids u).0,
      (tables-admit_ids x).0,
      mem-update (tier_state p u).allocated ids x,
      c.on u x,
      new x,
    )

    same_tier-eq : (u v : Tier) → same_tier u v ≡ true → u ≡ v
    unfolding same_tier
    same_tier-eq u v h = ground arith

    admit_ids-within :
        (u : Tier)
        → length (tier_state (admit_ids t ids p) u).allocated
          ≤ (tier_state (admit_ids t ids p) u).capacity
    admit_ids-within u = ground (
      arith,
      ap length (allocated-admit_ids u).0,
      (allocated-admit_ids u).1,
      length-update-le (tier_state p u).allocated ids,
      c.within u,
      same_tier-eq t u,
    )

    admit_ids-once : (u : Tier) → distinct (tier_state (admit_ids t ids p) u).allocated ≡ true
    admit_ids-once u =
        ground (
          arith,
          (allocated-admit_ids u).0,
          distinct-update (tier_state p u).allocated ids,
          c.once u,
        )

    pub admit_ids-IsConsistent : IsConsistent (admit_ids t ids p)
    unfolding has ref_count pin_count get_or natural
    admit_ids-IsConsistent = record {
      on = admit_ids-on;
      within = admit_ids-within;
      once = admit_ids-once;
      refs_tracked = λ x. ground (arith, tables-admit_ids x, c.refs_tracked x);
      pins_tracked = λ x. ground (arith, tables-admit_ids x, c.pins_tracked x);
      balanced = λ x. ground (arith, tables-admit_ids x, c.balanced x);
      counted = λ x. ground (arith, tables-admit_ids x, c.counted x);
    }

-- The number of draws says nothing of the tables.
state-drawn :
    (p : BlockPool) (k : ℕ) (u : Tier) → tier_state (record p { drawn = k }) u ≡ tier_state p u
unfolding tier_state
state-drawn p k u = ground arith

with_drawn : (p : BlockPool) (k : ℕ) → IsConsistent p → IsConsistent (record p { drawn = k })
unfolding is_on ref_count pin_count
with_drawn p k c = record {
  on = λ u x. rw (state-drawn p k u) (c.on u x);
  within = λ u. rw (state-drawn p k u) (c.within u);
  once = λ u. rw (state-drawn p k u) (c.once u);
  refs_tracked = c.refs_tracked;
  pins_tracked = c.pins_tracked;
  balanced = c.balanced;
  counted = c.counted;
}

module _ (uuid : ℕ → ℕ) where
  pub length-draw : (n k : ℕ) → length (draw uuid n k) ≡ n
  unfolding draw
  length-draw zero k = refl
  length-draw (suc n) k = ap suc (length-draw n (suc k))

  draw-new :
      (p : BlockPool)
      → IsFresh uuid p
      → (n k x : ℕ) → p.drawn ≤ k
      → mem x (draw uuid n k) ≡ true
      → has p.block_tier x ≡ false
  unfolding draw mem
  draw-new p f zero k x h m = cc
  draw-new p f (suc n) k x h m = elim (Bool-cases (uuid k == x)) [
    | inl e ↦ subst_has (uuid k) x ((==_iff (uuid k) x).0 e) (f.unused k h)
    | inr e ↦ draw-new p f n (suc k) x (omega arith) (rw e at m)
  ]
    where
      subst_has : (a b : ℕ) → a ≡ b → has p.block_tier a ≡ false → has p.block_tier b ≡ false
      subst_has a b e h' = rw (← e) h'

  module _ (injective : (i j : ℕ) → uuid i ≡ uuid j → i ≡ j) where
    later-not-drawn : (n k j : ℕ) → (j < k) ⊎ (k + n ≤ j) → mem (uuid j) (draw uuid n k) ≡ false
    unfolding draw mem
    later-not-drawn zero k j h = refl
    later-not-drawn (suc n) k j h = ground (arith, injective k j, later-not-drawn n (suc k) j)

    pub draw-distinct : (n k : ℕ) → distinct (draw uuid n k) ≡ true
    unfolding draw distinct
    draw-distinct zero k = refl
    draw-distinct (suc n) k =
        rw (later-not-drawn n (suc k) k (inl (omega arith))) (draw-distinct n (suc k))

    pub admit_ids-IsFresh :
        (n : ℕ) (t : Tier) (p : BlockPool)
        → t ≢ unknown
        → IsFresh uuid p
        → IsFresh uuid (admit_ids t (draw uuid n p.drawn) (record p { drawn = p.drawn + n }))
    unfolding has
    admit_ids-IsFresh n t p known f =
        let ids = draw uuid n p.drawn in
        let p' : BlockPool = record p { drawn = p.drawn + n } in
        record {
          unused = λ k h.
              let late : p.drawn + n ≤ k = rw (allocated-admit_ids t ids p' known gpu).2 at h in
              ground (
                arith,
                (tables-admit_ids t ids p' known (uuid k)).0,
                later-not-drawn n p.drawn k (inr late),
                f.unused k,
              );
        }

  -- What an allocation that succeeds has found and done.
  pub allocate-ok :
      (n : ℕ) (t : Tier) (p q : BlockPool) (ids : List ℕ)
      → allocate uuid n t p ≡ ok (ids, q)
      → (ids ≡ draw uuid n p.drawn)
        × (q ≡ admit_ids t ids (record p { drawn = p.drawn + n }))
        × (t ≢ unknown)
        × (length (tier_state p t).allocated + n ≤ (tier_state p t).capacity)
  unfolding allocate tier_state
  allocate-ok n unknown p q ids h = cc
  allocate-ok n t p q ids h = ground arith

  pub allocate-IsConsistent :
      (n : ℕ) (t : Tier) (p q : BlockPool) (ids : List ℕ)
      → IsFresh uuid p
      → IsConsistent p
      → allocate uuid n t p ≡ ok (ids, q)
      → IsConsistent q
  allocate-IsConsistent n t p q ids f c h =
      let (e, e', known, room) = allocate-ok n t p q ids h in
      let p' : BlockPool = record p { drawn = p.drawn + n } in
      rw e' (
        admit_ids-IsConsistent t ids p' known (with_drawn p (p.drawn + n) c)
          (λ x m. draw-new p f n p.drawn x (omega arith) (rw e at m))
          (rw (state-drawn p (p.drawn + n) t, e, length-draw n p.drawn) room))
