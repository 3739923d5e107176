-- ===== src/Pool/Pinning.antt =====
-- `pin` and `unpin`: the counts of active requests on each block, and the invariant.
use nano_kvrouter.Prelude.{
  ℕ, zero, suc, ◌≡◌, ◌⊎◌, refl, ◌∙◌, true, false, ◌||◌, List, [], ◌∷◌, arith, if◌then◌else◌, ◌==◌,
  ok, Bool-cases, Result-cases, inl, inr, ==_refl,
}
use nano_kvrouter.Prelude.Count.{
  ℤ, pos, natural, positive, incr, decr, incr-natural, decr-natural, decr-incr, positive-incr,
}
use nano_kvrouter.Prelude.Dict.{Dict, has, get_or, get-put, has-put}
use nano_kvrouter.Prelude.Sets.{mem, distinct}
use nano_kvrouter.Pool.{
  Tier, gpu, cpu, disk, unknown, BlockPool, is_on, ref_count, pin_count, all_allocated, pin_one,
  pin_all, pin, check_pinned, unpin_one, unpin_all, unpin, tier_of,
}
use nano_kvrouter.Pool.Invariant.{tier_state, IsConsistent}

-- how often `x` stands in `bs`
unfoldable pub count : ℕ → List ℕ → ℕ
count x [] = 0
count x (b ∷ bs) = let n = count x bs in if b == x then suc n else n

unfoldable pub up : ℕ → ℤ → ℤ
up zero z = z
up (suc n) z = up n (incr z)

unfoldable pub down : ℕ → ℤ → ℤ
down zero z = z
down (suc n) z = down n (decr z)

up-incr : (n : ℕ) (z : ℤ) → up n (incr z) ≡ incr (up n z)
unfolding up
up-incr zero z = refl
up-incr (suc n) z = up-incr n (incr z)

pub down-up : (n : ℕ) (z : ℤ) → down n (up n z) ≡ z
unfolding up down
down-up zero z = refl
down-up (suc n) z = rw (up-incr n z, decr-incr (up n z)) (down-up n z)

up-natural : (n : ℕ) (z : ℤ) → natural z ≡ true → natural (up n z) ≡ true
unfolding up
up-natural zero z h = h
up-natural (suc n) z h = up-natural n (incr z) (incr-natural z h)

positive-up : (n : ℕ) (z : ℤ) → natural z ≡ true → positive (up (suc n) z) ≡ true
unfolding up
positive-up n z h = rw (up-incr n z) (positive-incr (up n z) (up-natural n z h))

mem-count : (x : ℕ) (bs : List ℕ) → mem x bs ≡ true → (n : ℕ) × (count x bs ≡ suc n)
unfolding mem count
mem-count x [] h = cc
mem-count x (b ∷ bs) h = elim (Bool-cases (b == x)) [
  | inl e ↦ (count x bs, rw e)
  | inr e ↦ let (n, is) = mem-count x bs (rw e at h) in (n, rw e is)
]

-- What pinning changes, and what it leaves alone.
pub pin_all-tables :
    (p : BlockPool) (bs : List ℕ) (x : ℕ)
    → (pin_count (pin_all p bs) x ≡ up (count x bs) (pin_count p x))
      × (ref_count (pin_all p bs) x ≡ up (count x bs) (ref_count p x))
      × (has (pin_all p bs).pins x ≡ (mem x bs || has p.pins x))
      × (has (pin_all p bs).refs x ≡ (mem x bs || has p.refs x))
unfolding pin_all pin_one pin_count ref_count count up mem get_or
pin_all-tables p [] x = (refl, refl, refl, refl)
pin_all-tables p (b ∷ bs) x =
    let (a, r, hp, hr) = pin_all-tables (pin_one p b) bs x in
    (
      ground (arith, a, get-put p.pins b x (incr (get_or p.pins b (pos 0)))),
      ground (arith, r, get-put p.refs b x (incr (get_or p.refs b (pos 0)))),
      ground (arith, hp, has-put p.pins b x (incr (get_or p.pins b (pos 0)))),
      ground (arith, hr, has-put p.refs b x (incr (get_or p.refs b (pos 0)))),
    )

-- The counts say nothing of the tiers.
state-recount :
    (p : BlockPool) (refs pins : Dict ℤ) (u : Tier)
    → tier_state (record p { refs = refs; pins = pins }) u ≡ tier_state p u
unfolding tier_state
state-recount p refs pins gpu = refl
state-recount p refs pins cpu = refl
state-recount p refs pins disk = refl
state-recount p refs pins unknown = refl

pub pin_all-frame :
    (p : BlockPool) (bs : List ℕ)
    → ((pin_all p bs).block_tier ≡ p.block_tier)
      × ((pin_all p bs).drawn ≡ p.drawn)
      × ((u : Tier) → tier_state (pin_all p bs) u ≡ tier_state p u)
unfolding pin_all pin_one
pin_all-frame p [] = (refl, refl, λ u. refl)
pin_all-frame p (b ∷ bs) =
    let (a, d, s) = pin_all-frame (pin_one p b) bs in (a, d, λ u. s u ∙ state-recount p _ _ u)

pub unpin_all-tables :
    (p : BlockPool) (bs : List ℕ) (x : ℕ)
    → (pin_count (unpin_all p bs) x ≡ down (count x bs) (pin_count p x))
      × (ref_count (unpin_all p bs) x ≡ down (count x bs) (ref_count p x))
      × (has (unpin_all p bs).pins x ≡ (mem x bs || has p.pins x))
      × (has (unpin_all p bs).refs x ≡ (mem x bs || has p.refs x))
unfolding unpin_all unpin_one pin_count ref_count count down mem get_or
unpin_all-tables p [] x = (refl, refl, refl, refl)
unpin_all-tables p (b ∷ bs) x =
    let (a, r, hp, hr) = unpin_all-tables (unpin_one p b) bs x in
    (
      ground (arith, a, get-put p.pins b x (decr (get_or p.pins b (pos 0)))),
      ground (arith, r, get-put p.refs b x (decr (get_or p.refs b (pos 0)))),
      ground (arith, hp, has-put p.pins b x (decr (get_or p.pins b (pos 0)))),
      ground (arith, hr, has-put p.refs b x (decr (get_or p.refs b (pos 0)))),
    )

pub unpin_all-frame :
    (p : BlockPool) (bs : List ℕ)
    → ((unpin_all p bs).block_tier ≡ p.block_tier)
      × ((unpin_all p bs).drawn ≡ p.drawn)
      × ((u : Tier) → tier_state (unpin_all p bs) u ≡ tier_state p u)
unfolding unpin_all unpin_one
unpin_all-frame p [] = (refl, refl, λ u. refl)
unpin_all-frame p (b ∷ bs) =
    let (a, d, s) = unpin_all-frame (unpin_one p b) bs in (a, d, λ u. s u ∙ state-recount p _ _ u)

all_allocated-mem :
    (p : BlockPool) (bs : List ℕ)
    → all_allocated p bs ≡ true
    → (x : ℕ) → mem x bs ≡ true
    → has p.block_tier x ≡ true
unfolding all_allocated mem
all_allocated-mem p [] h x m = cc
all_allocated-mem p (b ∷ bs) h x m = ground (arith, all_allocated-mem p bs (ground arith) x)

-- What a `pin` that succeeds has found and done.
pub pin-ok :
    (bs : List ℕ) (p q : BlockPool)
    → pin bs p ≡ ok q
    → (q ≡ pin_all p bs) × (all_allocated p bs ≡ true)
unfolding pin
pin-ok bs p q h = ground arith

-- Counts that change only for allocated blocks, in step, and stay natural, keep the invariant.
recount-IsConsistent :
    (p q : BlockPool)
    → IsConsistent p
    → q.block_tier ≡ p.block_tier
    → ((u : Tier) → tier_state q u ≡ tier_state p u)
    → ((x : ℕ)
        → (has q.refs x ≡ has p.refs x)
          × (has q.pins x ≡ has p.pins x)
          × (ref_count q x ≡ pin_count q x)
          × (natural (pin_count q x) ≡ true))
    → IsConsistent q
unfolding is_on
recount-IsConsistent p q c e s k = record {
  on = λ u x. rw (s u, e) (c.on u x);
  within = λ u. rw (s u) (c.within u);
  once = λ u. rw (s u) (c.once u);
  refs_tracked = λ x. (k x).0 ∙ (rw e (c.refs_tracked x));
  pins_tracked = λ x. (k x).1 ∙ (rw e (c.pins_tracked x));
  balanced = λ x. (k x).2;
  counted = λ x. (k x).3;
}

pub pin-IsConsistent :
    (bs : List ℕ) (p q : BlockPool) → IsConsistent p → pin bs p ≡ ok q → IsConsistent q
pin-IsConsistent bs p q c h =
    let (is, there) = pin-ok bs p q h in
    let (tiers, _, state) = pin_all-frame p bs in
    rw is (
      recount-IsConsistent p (pin_all p bs) c tiers state λ x.
        let (a, r, hp, hr) = pin_all-tables p bs x in
        (
          ground (arith, hr, c.refs_tracked x, all_allocated-mem p bs there x),
          ground (arith, hp, c.pins_tracked x, all_allocated-mem p bs there x),
          ground (arith, a, r, c.balanced x),
          ground (arith, a, up-natural (count x bs) (pin_count p x), c.counted x),
        ))

check_pinned-ok :
    (p : BlockPool) (bs : List ℕ) (x : ℕ)
    → check_pinned p bs ≡ ok tt
    → mem x bs ≡ true
    → (has p.block_tier x ≡ true) × (positive (pin_count p x) ≡ true)
unfolding check_pinned mem
check_pinned-ok p [] x h m = cc
check_pinned-ok p (b ∷ bs) x h m = ground (arith, check_pinned-ok p bs x)

check_pinned_total :
    (p : BlockPool) (bs : List ℕ)
    → ((x : ℕ)
        → mem x bs ≡ true
        → (has p.block_tier x ≡ true)
          × (positive (pin_count p x) ≡ true)
          × (positive (ref_count p x) ≡ true))
    → check_pinned p bs ≡ ok tt
unfolding check_pinned mem
check_pinned_total p [] h = refl
check_pinned_total p (b ∷ bs) h =
    ground (arith, h b, ==_refl b, check_pinned_total p bs (λ x m. h x (ground arith)))

-- On a consistent pool, when pin has returned for a list of blocks, with repetitions or not,
-- unpin of the same list returns too, and leaves every block's counts and tier as they were
-- before the pin.
pub unpin-pin :
    (bs : List ℕ) (p q : BlockPool)
    → IsConsistent p
    → pin bs p ≡ ok q
    → (r : BlockPool) × (unpin bs q ≡ ok r)
      × ((x : ℕ)
          → (pin_count r x ≡ pin_count p x)
            × (ref_count r x ≡ ref_count p x)
            × (tier_of r x ≡ tier_of p x))
unfolding unpin tier_of
unpin-pin bs p q c h =
    let (is, there) = pin-ok bs p q h in
    let r = unpin_all q bs in
    let counted : (x : ℕ)
        → mem x bs ≡ true
        → (has q.block_tier x ≡ true)
          × (positive (pin_count q x) ≡ true)
          × (positive (ref_count q x) ≡ true) =
      λ x m.
        let (n, often) = mem-count x bs m in
        let (a, r, _, _) = pin_all-tables p bs x in
        let pos_pins : positive (pin_count q x) ≡ true =
          rw (is, a, often) (positive-up n (pin_count p x) (c.counted x)) in
        (
          rw (is, (pin_all-frame p bs).0) (all_allocated-mem p bs there x m),
          pos_pins,
          rw (is, r, c.balanced x, ← a, ← is) pos_pins,
        ) in
    (
      r,
      rw (check_pinned_total q bs counted),
      λ x.
          let (a, b, _, _) = pin_all-tables p bs x in
          let (a', b', _, _) = unpin_all-tables q bs x in
          (
            rw (a', is, a) (down-up (count x bs) (pin_count p x)),
            rw (b', is, b) (down-up (count x bs) (ref_count p x)),
            rw ((unpin_all-frame q bs).0, is, (pin_all-frame p bs).0),
          ),
    )

count_once :
    (x : ℕ) (bs : List ℕ)
    → distinct bs ≡ true
    → (count x bs ≡ 0) ⊎ ((count x bs ≡ 1) × (mem x bs ≡ true))
unfolding count distinct mem
count_once x [] h = inl refl
count_once x (b ∷ bs) h = ground (arith, count_once x bs, count_absent x bs)
  where
    count_absent : (y : ℕ) (cs : List ℕ) → mem y cs ≡ false → count y cs ≡ 0
    count_absent y [] e = refl
    count_absent y (d ∷ cs) e = ground (arith, count_absent y cs)

pub unpin-ok :
    (bs : List ℕ) (p q : BlockPool)
    → unpin bs p ≡ ok q
    → (q ≡ unpin_all p bs) × (check_pinned p bs ≡ ok tt)
unfolding unpin
unpin-ok bs p q h = elim (Result-cases (check_pinned p bs)) [
  | inl (tt, e) ↦ ground arith
  | inr (er, e) ↦ absurd (ground arith)
]

pub unpin-IsConsistent :
    (bs : List ℕ) (p q : BlockPool)
    → IsConsistent p
    → distinct bs ≡ true
    → unpin bs p ≡ ok q
    → IsConsistent q
unfolding down
unpin-IsConsistent bs p q c d h =
    let (is, checked) = unpin-ok bs p q h in
    let (tiers, _, state) = unpin_all-frame p bs in
    rw is (
      recount-IsConsistent p (unpin_all p bs) c tiers state λ x.
        let (a, r, hp, hr) = unpin_all-tables p bs x in
        let found = check_pinned-ok p bs x checked in
        (
          ground (arith, hr, c.refs_tracked x, found),
          ground (arith, hp, c.pins_tracked x, found),
          ground (arith, a, r, c.balanced x),
          ground (arith, a, found, count_once x bs d, c.counted x, decr-natural (pin_count p x)),
        ))

-- unpin of a list that names twice an allocated block whose pin count and reference count are 1
-- passes its checks and returns, and leaves that block with a negative pin count.
pub unpin_negative :
    (b : ℕ) (p : BlockPool)
    → has p.block_tier b ≡ true
    → pin_count p b ≡ pos 1
    → ref_count p b ≡ pos 1
    → (q : BlockPool) × (unpin (b ∷ b ∷ []) p ≡ ok q) × (natural (pin_count q b) ≡ false)
unfolding unpin positive pin_count ref_count count down decr natural
unpin_negative b p h e e' =
    (unpin_all p (b ∷ b ∷ []), ground arith, ground (arith, (unpin_all-tables p (b ∷ b ∷ []) b).0))
