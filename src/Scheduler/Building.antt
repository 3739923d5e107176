-- ===== src/Scheduler/Building.antt =====
-- What `_build_scheduler` builds, and when it raises.
use nano_kvrouter.Prelude.{
  ◌≡◌, refl, ◌⊎◌, inl, inr, true, false, Bool-cases, Result, ok, raise, value_error, ◌>>=◌,
}
use nano_kvrouter.Prelude.Float.{Float, less}
use nano_kvrouter.Scheduler.PrefixGreedy
use nano_kvrouter.Scheduler.E2
use nano_kvrouter.Scheduler.Conductor
use nano_kvrouter.Scheduler.Policy.{
  Policy, rotating, loaded, greedy, scoring, conducting, Name, round_robin, least_loaded,
  prefix_greedy, e2_policy, conductor, other, Params, build_scheduler,
}

module _ (F : Float) where
  open F use {Num, of_nat, leq}

  -- not below 0
  abbrev pub IsWeight : Num → Type 0
  IsWeight w = less F w (of_nat 0) ≡ false

  -- The parameters of a policy are in their ranges.
  abbrev pub IsInRange : Policy F → Type 0
  IsInRange (rotating w) = Unit
  IsInRange loaded = Unit
  IsInRange (greedy ratio) = (leq (of_nat 0) ratio ≡ true) × (leq ratio (of_nat 1) ≡ true)
  IsInRange (scoring w) = IsWeight w.w_historical × IsWeight w.w_eviction × IsWeight w.w_run
  IsInRange (conducting w) = IsWeight w.alpha × IsWeight w.beta × IsWeight w.gamma

  built :
      {A : Type 0} (x : Result A) (v : A) (f : A → Policy F)
      → (x ≡ raise value_error) ⊎ ((x ≡ ok v) × IsInRange (f v))
      → (x >>= (λ a. ok (f a)) ≡ raise value_error)
        ⊎ ((policy : Policy F) × (x >>= (λ a. ok (f a)) ≡ ok policy) × IsInRange policy)
  built x v f (inl e) = inl (rw e refl)
  built x v f (inr (e, h)) = inr (f v, rw e refl, h)

  create_greedy :
      (ratio : Num)
      → (PrefixGreedy.create F ratio ≡ raise value_error)
        ⊎ ((PrefixGreedy.create F ratio ≡ ok ratio) × IsInRange (greedy ratio))
  unfolding PrefixGreedy.create
  create_greedy ratio = elim (Bool-cases (leq (of_nat 0) ratio)) [
    | inl e ↦ elim (Bool-cases (leq ratio (of_nat 1))) [
      | inl f ↦ inr (rw (e, f) refl, (e, f))
      | inr f ↦ inl (rw (e, f) refl)
    ]
    | inr e ↦ inl (rw e refl)
  ]

  create_scoring :
      (w : E2.Weights F)
      → (E2.create F w ≡ raise value_error) ⊎ ((E2.create F w ≡ ok w) × IsInRange (scoring w))
  unfolding E2.create
  create_scoring w = elim (Bool-cases (less F w.w_historical (of_nat 0))) [
    | inl e ↦ inl (rw e refl)
    | inr e ↦ elim (Bool-cases (less F w.w_eviction (of_nat 0))) [
      | inl f ↦ inl (rw (e, f) refl)
      | inr f ↦ elim (Bool-cases (less F w.w_run (of_nat 0))) [
        | inl g ↦ inl (rw (e, f, g) refl)
        | inr g ↦ inr (rw (e, f, g) refl, (e, f, g))
      ]
    ]
  ]

  create_conducting :
      (w : Conductor.Weights F)
      → (Conductor.create F w ≡ raise value_error)
        ⊎ ((Conductor.create F w ≡ ok w) × IsInRange (conducting w))
  unfolding Conductor.create
  create_conducting w = elim (Bool-cases (less F w.alpha (of_nat 0))) [
    | inl e ↦ inl (rw e refl)
    | inr e ↦ elim (Bool-cases (less F w.beta (of_nat 0))) [
      | inl f ↦ inl (rw (e, f) refl)
      | inr f ↦ elim (Bool-cases (less F w.gamma (of_nat 0))) [
        | inl g ↦ inl (rw (e, f, g) refl)
        | inr g ↦ inr (rw (e, f, g) refl, (e, f, g))
      ]
    ]
  ]

  -- _build_scheduler raises a ValueError or builds a policy whose parameters are in their ranges:
  -- a hit ratio between 0 and 1, and weights that are not below 0.
  pub build_scheduler_answers :
      (name : Name) (k : Params F)
      → (build_scheduler F name k ≡ raise value_error)
        ⊎ ((policy : Policy F) × (build_scheduler F name k ≡ ok policy) × IsInRange policy)
  unfolding build_scheduler
  build_scheduler_answers round_robin k = inr (_, refl, tt)
  build_scheduler_answers least_loaded k = inr (loaded, refl, tt)
  build_scheduler_answers prefix_greedy k = built _ _ greedy (create_greedy _)
  build_scheduler_answers e2_policy k = built _ _ scoring (create_scoring _)
  build_scheduler_answers conductor k = built _ _ conducting (create_conducting _)
  build_scheduler_answers other k = inl refl
