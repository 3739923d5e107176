-- ===== src/Engine/Worlds.antt =====
-- What every handler keeps of its world, a run keeps.
use nano_kvrouter.Prelude.{
  ℕ, zero, suc, inl, inr, Bool, true, false, List, [], ◌∷◌, All, All-append, append-nil, ◌==◌,
  Bool-cases, next-keeps, Exec,
}
use nano_kvrouter.Prelude.Float.{Float}
use nano_kvrouter.Engine.{
  Event, EventType, Engine, Handler, HandlerTable, index, on, call_all, fire, turn, run,
}

module _ (F : Float) (Payload World : Type 0) where
  pub on-All :
      (Q : Handler F Payload World → Type 0) (kind k : EventType) (h : Handler F Payload World)
      (handlers : HandlerTable F Payload World)
      → All Q (handlers k)
      → Q h
      → All Q (on F Payload kind h handlers k)
  unfolding on
  on-All Q kind k h handlers qs q = elim (Bool-cases (index kind == index k)) [
    | inl c ↦ rw c (All-append Q (handlers k) (h ∷ []) qs (q, tt))
    | inr c ↦ rw (c, append-nil (handlers k)) qs
  ]

  module _ (P : World → Type 0) where
    -- the handler keeps the property of its world, whether it returns or raises
    abbrev pub KeepsWorld : Handler F Payload World → Type 0
    KeepsWorld h =
        (e : Event F Payload) (s : Engine F Payload) (w : World) → P w → P (h e (s, w)).1.1

    call_all_keeps :
        (hs : List (Handler F Payload World)) (e : Event F Payload) (sw : Engine F Payload × World)
        → All KeepsWorld hs
        → P sw.1
        → P (call_all F Payload hs e sw).1.1
    unfolding call_all
    call_all_keeps [] e sw k p = p
    call_all_keeps (h ∷ hs) e (s, w) k p =
        next-keeps (λ sw. P sw.1) (h e (s, w)) _ (k.0 e s w p)
          (λ _ sw q. call_all_keeps hs e sw k.1 q)

    module _ (handlers : HandlerTable F Payload World)
        (ks : (k : EventType) → All KeepsWorld (handlers k)) where
      turn_keeps :
          (rest : Exec (Engine F Payload × World) Unit) (q : List (Event F Payload))
          (stopped : Bool) (sw : Engine F Payload × World)
          → ((sw2 : Engine F Payload × World) → P sw2.1 → P (rest sw2).1.1)
          → P sw.1
          → P (turn F Payload handlers rest q stopped sw).1.1
      unfolding turn fire
      turn_keeps rest [] stopped sw r p = p
      turn_keeps rest (e ∷ q) true sw r p = p
      turn_keeps rest (e ∷ q) false sw r p =
          next-keeps (λ sw. P sw.1) (fire F Payload handlers e q sw) _
            (call_all_keeps _ _ _ (ks _) p) (λ _ sw2 p2. r sw2 p2)

      pub run_keeps :
          (fuel : ℕ) (sw : Engine F Payload × World)
          → P sw.1
          → P (run F Payload fuel handlers sw).1.1
      unfolding run
      run_keeps zero sw p = p
      run_keeps (suc fuel) (s, w) p =
          turn_keeps (run F Payload fuel handlers) s.queue s.is_stopped (s, w) (run_keeps fuel) p
