-- ===== src/Transfer/Tests.antt =====
-- Two transfers to one node, and one elsewhere between them.
use nano_kvrouter.Prelude.{◌≡◌, ◌==◌, if◌then◌else◌, refl, inr, true, leb, [], ◌∷◌}
use nano_kvrouter.Prelude.Float.{units, units-IsOrdered}
use nano_kvrouter.Transfer.{init, peek_backlog}
use nano_kvrouter.Transfer.Lanes.{
  Transfer, request, serve, serialized, request_bounds, peek-request,
}

abbrev first : Transfer units
first = record { src = 0; dst = 2; at = 1; cost = 5 }

abbrev elsewhere : Transfer units
elsewhere = record { src = 3; dst = 4; at = 2; cost = 1 }

abbrev second : Transfer units
second = record { src = 1; dst = 2; at = 3; cost = 4 }

serialized_example :
    leb
      (request units first (init units)).0.finish
      (request units second
        (serve units (elsewhere ∷ []) (request units first (init units)).1)).0.start
    ≡ true
serialized_example =
    serialized units units-IsOrdered first (elsewhere ∷ []) second (init units) (refl, tt)
      (inr refl)

request_bounds_example :
    (leb 3 (request units second (request units first (init units)).1).0.start ≡ true)
    × (leb
          (peek_backlog units 1 (request units first (init units)).1).egress
          (request units second (request units first (init units)).1).0.start
        ≡ true)
    × (leb
          (peek_backlog units 2 (request units first (init units)).1).ingress
          (request units second (request units first (init units)).1).0.start
        ≡ true)
request_bounds_example =
    request_bounds units units-IsOrdered second (request units first (init units)).1

peek-request_example :
    ((peek_backlog units 2 (request units first (init units)).1).egress ≡ (
      if 0 == 2
      then (request units first (init units)).0.finish
      else (peek_backlog units 2 (init units)).egress))
    × ((peek_backlog units 2 (request units first (init units)).1).ingress ≡ (
        if 2 == 2
        then (request units first (init units)).0.finish
        else (peek_backlog units 2 (init units)).ingress))
peek-request_example = peek-request units first (init units) 2
