-- ===== src/Engine/Handlers.antt =====
-- The handlers that `on` registers are called in the order of their registration.
use nano_kvrouter.Prelude.{
  ◌≡◌, refl, inl, inr, List, [], ◌∷◌, ◌++◌, append-nil, if◌then◌else◌, ◌==◌, Bool-cases, Exec, next,
  ok, raise, Result, return_value,
}
use nano_kvrouter.Prelude.Float.{Float}
use nano_kvrouter.Engine.{EventType, Event, Engine, Handler, HandlerTable, index, on, call_all}

module _ (F : Float) (Payload World : Type 0) where
  next-return : (x : Result Unit × (Engine F Payload × World)) → next (λ _. return_value tt) x ≡ x
  next-return (ok _, s) = refl
  next-return (raise c, s) = refl

  next_assoc :
      (x : Result Unit × (Engine F Payload × World)) (f g h : Exec (Engine F Payload × World) Unit)
      → ((sw : Engine F Payload × World) → f sw ≡ next (λ _. h) (g sw))
      → next (λ _. f) x ≡ next (λ _. h) (next (λ _. g) x)
  next_assoc (ok _, s) f g h same = same s
  next_assoc (raise c, s) f g h same = refl

  call_all-snoc :
      (hs : List (Handler F Payload World)) (h : Handler F Payload World) (e : Event F Payload)
      (sw : Engine F Payload × World)
      → call_all F Payload (hs ++ (h ∷ [])) e sw ≡ next (λ _. h e) (call_all F Payload hs e sw)
  unfolding call_all
  call_all-snoc [] h e sw = next-return (h e sw)
  call_all-snoc (f ∷ hs) h e sw =
      next_assoc (f e sw) (call_all F Payload (hs ++ (h ∷ [])) e) (call_all F Payload hs e) (h e)
        (call_all-snoc hs h e)

  -- After `on`, the handlers of the event type are called in the order in which they were, and
  -- the new one after them if they return; those of another type are called as before.
  pub on_order :
      (kind k : EventType) (h : Handler F Payload World) (handlers : HandlerTable F Payload World)
      (e : Event F Payload) (sw : Engine F Payload × World)
      → call_all F Payload (on F Payload kind h handlers k) e sw ≡ (
          if index kind == index k
          then next (λ _. h e) (call_all F Payload (handlers k) e sw)
          else call_all F Payload (handlers k) e sw)
  unfolding on
  on_order kind k h handlers e sw = elim (Bool-cases (index kind == index k)) [
    | inl c ↦ rw c (call_all-snoc (handlers k) h e sw)
    | inr c ↦ rw (c, append-nil (handlers k)) refl
  ]
