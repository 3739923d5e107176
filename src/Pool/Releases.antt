-- ===== src/Pool/Releases.antt =====
-- `free`: what it checks, which blocks are gone afterwards, and the invariant.
use nano_kvrouter.Prelude.{
  ℕ, ◌≤◌, ◌≡◌, refl, ap, subst, ◌∙◌, true, false, ◌||◌, none, some, List, [], ◌∷◌, length, arith,
  if◌then◌else◌, ◌==◌, ok, Result-cases, Option-cases, inl, inr,
}
use nano_kvrouter.Prelude.Count.{natural, positive}
use nano_kvrouter.Prelude.Dict.{Dict, get, put, has, get_or, get-remove, has-put, has-some}
use nano_kvrouter.Prelude.Sets.{
  mem, distinct, discard, mem-discard, length-discard-le, distinct-discard,
}
use nano_kvrouter.Pool.{
  Tier, gpu, BlockPool, same_tier, is_on, ref_count, pin_count, validate_free, release, release_all,
  free, tier_of,
}
use nano_kvrouter.Pool.Invariant.{tier_state, IsConsistent}

-- The pairs that `free` has collected: distinct allocated blocks with their tiers.
abbrev Holds : BlockPool → Dict Tier → Type 0
Holds p [] = Unit
Holds p ((b, t) ∷ d) = (get p.block_tier b ≡ some t) × (has d b ≡ false) × Holds p d

Holds-put :
    (p : BlockPool) (d : Dict Tier) (b : ℕ) (t : Tier)
    → get p.block_tier b ≡ some t
    → has d b ≡ false
    → Holds p d
    → Holds p (put d b t)
unfolding put has get
Holds-put p [] b t e h hd = (e, refl, tt)
Holds-put p ((j, u) ∷ d) b t e h hd =
    let other : (j == b) ≡ false = ground arith in
    rw other (hd.0, ground (arith, has-put d b j t, hd.1), Holds-put p d b t e (ground arith) hd.2)

-- What the validation of `free` has found when it raises nothing.
validate_free-ok :
    (p : BlockPool) (bs : List ℕ) (seen d : Dict Tier)
    → validate_free p seen bs ≡ ok d
    → Holds p seen
    → Holds p d
      × ((x : ℕ) → has d x ≡ (has seen x || mem x bs))
      × ((x : ℕ)
          → mem x bs ≡ true
          → (has p.block_tier x ≡ true) × (positive (pin_count p x) ≡ false))
unfolding validate_free mem
validate_free-ok p [] seen d h hs =
    let e : seen ≡ d = cc in (subst (λ x. Holds p x) e hs, λ x. ground arith, λ x m. cc)
validate_free-ok p (b ∷ bs) seen d h hs = elim (Option-cases (get p.block_tier b)) [
  | inl lost ↦ absurd (ground arith)
  | inr (t, at) ↦
      let fresh : has seen b ≡ false = ground arith in
      let loose : positive (pin_count p b) ≡ false = ground arith in
      let (holds, keys, sound) =
        validate_free-ok p bs (put seen b t) d (ground arith) (Holds-put p seen b t at fresh hs) in
      (
        holds,
        λ x. ground (arith, keys x, has-put seen b x t),
        λ x m. ground (arith, sound x, has-some p.block_tier b t at),
      )
]

module _ (p : BlockPool) (b : ℕ) (t : Tier) where
  tables-release :
      (x : ℕ)
      → (get (release p b t).block_tier x ≡ (if b == x then none else get p.block_tier x))
        × (get (release p b t).refs x ≡ (if b == x then none else get p.refs x))
        × (get (release p b t).pins x ≡ (if b == x then none else get p.pins x))
  unfolding release
  tables-release x = (get-remove p.block_tier b x, get-remove p.refs b x, get-remove p.pins b x)

  state-release :
      (u : Tier)
      → ((tier_state (release p b t) u).allocated ≡ (
          if same_tier t u
          then discard (tier_state p u).allocated b
          else (tier_state p u).allocated))
        × ((tier_state (release p b t) u).capacity ≡ (tier_state p u).capacity)
        × ((release p b t).drawn ≡ p.drawn)
  unfolding release tier_state same_tier discard
  state-release u = ground arith

  module _ (c : IsConsistent p) (at : get p.block_tier b ≡ some t) where
    release-on :
        (u : Tier) (x : ℕ)
        → mem x (tier_state (release p b t) u).allocated ≡ is_on (release p b t) x u
    unfolding is_on
    release-on u x = ground (
      arith,
      (state-release u).0,
      (tables-release x).0,
      mem-discard (tier_state p u).allocated b x,
      c.on u x,
      at,
    )

    release-within :
        (u : Tier)
        → length (tier_state (release p b t) u).allocated ≤ (tier_state (release p b t) u).capacity
    release-within u = ground (
      arith,
      ap length (state-release u).0,
      (state-release u).1,
      length-discard-le (tier_state p u).allocated b,
      c.within u,
    )

    release-once : (u : Tier) → distinct (tier_state (release p b t) u).allocated ≡ true
    release-once u =
        ground (arith, (state-release u).0, distinct-discard (tier_state p u).allocated b, c.once u)

    release-IsConsistent : IsConsistent (release p b t)
    unfolding has ref_count pin_count get_or natural
    release-IsConsistent = record {
      on = release-on;
      within = release-within;
      once = release-once;
      refs_tracked = λ x. ground (arith, tables-release x, c.refs_tracked x);
      pins_tracked = λ x. ground (arith, tables-release x, c.pins_tracked x);
      balanced = λ x. ground (arith, tables-release x, c.balanced x);
      counted = λ x. ground (arith, tables-release x, c.counted x);
    }

Holds-release :
    (p : BlockPool) (b : ℕ) (t : Tier) (d : Dict Tier)
    → has d b ≡ false
    → Holds p d
    → Holds (release p b t) d
unfolding has get
Holds-release p b t [] h hd = tt
Holds-release p b t ((j, u) ∷ d) h hd = (
  ground (arith, (tables-release p b t j).0, hd.0),
  hd.1,
  Holds-release p b t d (ground arith) hd.2,
)

-- The second loop forgets exactly the collected blocks.
release_all-tables :
    (p : BlockPool) (d : Dict Tier) (x : ℕ)
    → (get (release_all p d).block_tier x ≡ (if has d x then none else get p.block_tier x))
      × (get (release_all p d).pins x ≡ (if has d x then none else get p.pins x))
      × ((release_all p d).drawn ≡ p.drawn)
unfolding release_all has get
release_all-tables p [] x = (refl, refl, refl)
release_all-tables p ((b, t) ∷ d) x =
    let (tiers, pins, drawn) = release_all-tables (release p b t) d x in
    (
      ground (arith, tiers, (tables-release p b t x).0),
      ground (arith, pins, (tables-release p b t x).2),
      drawn ∙ (state-release p b t gpu).2,
    )

release_all-IsConsistent :
    (p : BlockPool) (d : Dict Tier) → IsConsistent p → Holds p d → IsConsistent (release_all p d)
unfolding release_all
release_all-IsConsistent p [] c h = c
release_all-IsConsistent p ((b, t) ∷ d) c h =
    release_all-IsConsistent (release p b t) d (release-IsConsistent p b t c h.0)
      (Holds-release p b t d h.1 h.2)

has_nothing : (x : ℕ) → has {V = Tier} [] x ≡ false
unfolding has get
has_nothing x = refl

-- What a `free` that succeeds has found and done.
pub free-ok :
    (bs : List ℕ) (p q : BlockPool)
    → free bs p ≡ ok q
    → (x : ℕ)
    → (tier_of q x ≡ (if mem x bs then none else tier_of p x))
      × (get q.pins x ≡ (if mem x bs then none else get p.pins x))
      × (q.drawn ≡ p.drawn)
      × (mem x bs ≡ true → (has p.block_tier x ≡ true) × (positive (pin_count p x) ≡ false))
unfolding free tier_of
free-ok bs p q h x = elim (Result-cases (validate_free p [] bs)) [
  | inr (e, bad) ↦ absurd (ground arith)
  | inl (d, good) ↦
      let (holds, keys, sound) = validate_free-ok p bs [] d good tt in
      let (tiers, pins, drawn) = release_all-tables p d x in
      let is : q ≡ release_all p d = ground arith in
      rw is (
        ground (arith, tiers, keys x, has_nothing x),
        ground (arith, pins, keys x, has_nothing x),
        drawn,
        sound x,
      )
]

pub free-IsConsistent :
    (bs : List ℕ) (p q : BlockPool) → IsConsistent p → free bs p ≡ ok q → IsConsistent q
unfolding free
free-IsConsistent bs p q c h = elim (Result-cases (validate_free p [] bs)) [
  | inr (e, bad) ↦ absurd (ground arith)
  | inl (d, good) ↦
      let is : q ≡ release_all p d = ground arith in
      rw is (release_all-IsConsistent p d c (validate_free-ok p bs [] d good tt).0)
]
