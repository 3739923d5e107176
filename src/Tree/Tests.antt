-- ===== src/Tree/Tests.antt =====
-- A tree of blocks of two tokens, after two insertions that share one token.
use nano_kvrouter.Prelude.{
  ℕ, zero, suc, ◌+◌, ◌≤◌, ◌≡◌, refl, ap, false, ltb, List, [], ◌∷◌, length, arith, Result, ok,
  raise, memory_error, leb, if◌then◌else◌, Bool-cases, inl, inr, ◌≢◌,
}
use nano_kvrouter.Tree.{RadixTree, init, insert, match_prefix}
use nano_kvrouter.Tree.Match.{IsLongest}
use nano_kvrouter.Tree.Cache.{
  IsValid, init-IsValid, inserted, insert-IsValid, match_prefix-IsLongest, match-insert,
  match-le-insert,
}
use nano_kvrouter.Tree.Evict.{evict}
use nano_kvrouter.Prelude.Choice.{IsKeyOrder}
use nano_kvrouter.Tree.Recency.{IsEvictable, NoneBefore, victim-oldest}
use nano_kvrouter.Tree.{Label}
use nano_kvrouter.Tree.Evict.{candidates, oldest, victim}
use nano_kvrouter.Prelude.{some}
use nano_kvrouter.Prelude.Sets.{mem}
use nano_kvrouter.Tree.Returns.{insert_raises}
use nano_kvrouter.Tree.Purge.{purge_block_ids}
use nano_kvrouter.Tree.Evict.{owns}
use nano_kvrouter.Tree.Census.{IsDistinct, tally, weigh}
use nano_kvrouter.Tree.Eviction.{Evicts, evict-Evicts}
use nano_kvrouter.Tree.Purging.{Purges, purge_block_ids-Purges}

-- an allocator that counts
unfoldable from : ℕ → ℕ → List ℕ
from s zero = []
from s (suc n) = s ∷ from (suc s) n

length-from : (s n : ℕ) → length (from s n) ≡ n
unfolding from
length-from s zero = refl
length-from s (suc n) = ap suc (length-from (suc s) n)

unfoldable mint : ℕ → ℕ → Result (List ℕ × ℕ)
unfolding from
mint n s = ok (from s n, s + n)

abbrev minted : Result (List ℕ × ℕ) → List ℕ
minted (ok (xs, _)) = xs
minted _ = []

mints : (n : ℕ) (s s' : ℕ) (ids : List ℕ) → mint n s ≡ ok (ids, s') → length ids ≡ n
unfolding mint
mints n s s' ids h = rw (← ap minted h) (length-from s n)

abbrev one : RadixTree ℕ
one = inserted mint mints 1 (7 ∷ 8 ∷ 9 ∷ []) (init 2) 0 (init-IsValid ℕ 2)

one-IsValid : IsValid one
one-IsValid = insert-IsValid mint mints 1 (7 ∷ 8 ∷ 9 ∷ []) (init 2) 0 (init-IsValid ℕ 2)

-- The second sequence parts from the first inside its edge.
abbrev two : RadixTree ℕ
two = inserted mint mints 2 (7 ∷ 5 ∷ []) one 2 one-IsValid

insert-IsValid_example : IsValid two
insert-IsValid_example = insert-IsValid mint mints 2 (7 ∷ 5 ∷ []) one 2 one-IsValid

two-IsValid : IsValid two
two-IsValid = insert-IsValid mint mints 2 (7 ∷ 5 ∷ []) one 2 one-IsValid

match_prefix-IsLongest_example :
    IsLongest two.block_size two.root
      (7 ∷ 8 ∷ 9 ∷ 4 ∷ [])
      (match_prefix 3 (7 ∷ 8 ∷ 9 ∷ 4 ∷ []) two).0.0
match_prefix-IsLongest_example = match_prefix-IsLongest 3 (7 ∷ 8 ∷ 9 ∷ 4 ∷ []) two two-IsValid

match_le_insert_example :
    (match_prefix 3 (7 ∷ 8 ∷ 9 ∷ []) one).0.0 ≤ (match_prefix 4 (7 ∷ 8 ∷ 9 ∷ []) two).0.0
match_le_insert_example =
    match-le-insert mint mints 2 (7 ∷ 5 ∷ []) one 2 one-IsValid (7 ∷ 8 ∷ 9 ∷ []) 3 4

insert_two : (insert mint one.block_size 2 (7 ∷ 5 ∷ []) one 2).0 ≡ ok (2 ∷ [])
unfolding insert mint init
insert_two = refl

match-insert_example : (match_prefix 3 (7 ∷ 5 ∷ []) two).0.0 ≡ 2
match-insert_example =
    match-insert mint mints 2 (7 ∷ 5 ∷ []) one 2 one-IsValid (2 ∷ []) insert_two 3

two-IsDistinct : IsDistinct two.root
unfolding insert mint init tally weigh owns
two-IsDistinct b = ground arith

evict-Evicts_example : Evicts 1 two (evict ltb 1 two).0 (evict ltb 1 two).1
evict-Evicts_example = evict-Evicts ltb 1 two two-IsValid two-IsDistinct

purge_block_ids-Purges_example :
    Purges
      (λ b. ltb b 2)
      (4 ∷ 2 ∷ [])
      two.index
      two
      (purge_block_ids (λ b. ltb b 2) (4 ∷ 2 ∷ []) two).0
      (purge_block_ids (λ b. ltb b 2) (4 ∷ 2 ∷ []) two).1
purge_block_ids-Purges_example =
    purge_block_ids-Purges (λ b. ltb b 2) (4 ∷ 2 ∷ []) two two-IsValid two-IsDistinct

purged_one : (purge_block_ids (λ b. ltb b 2) (4 ∷ 2 ∷ []) two).0 ≡ 1
unfolding purge_block_ids insert mint init mem
purged_one = refl

ltb-IsKeyOrder : IsKeyOrder ltb
ltb-IsKeyOrder = record { asym = λ a b h. ground arith; chain = λ a b c h k. ground arith }

abbrev chosen : ℕ × Label ℕ
chosen =
    oldest ltb (1, record { key = 8 ∷ 9 ∷ []; block_ids = 1 ∷ []; last_access = 1; ref_count = 0 })
      ((2, record { key = 5 ∷ []; block_ids = 2 ∷ []; last_access = 2; ref_count = 0 }) ∷ [])

victim_two : victim ltb (candidates (λ _. false) two.root two.index) ≡ some chosen
unfolding victim candidates insert mint init mem
victim_two = refl

victim-oldest_example :
    IsEvictable (λ _. false) two.root chosen
    × NoneBefore ltb chosen.1.last_access (candidates (λ _. false) two.root two.index)
victim-oldest_example = victim-oldest ltb ltb-IsKeyOrder (λ _. false) two chosen victim_two

-- an allocator that has four ids to give
unfoldable scarce : ℕ → ℕ → Result (List ℕ × ℕ)
unfolding from
scarce n s = if leb (s + n) 4 then ok (from s n, s + n) else raise memory_error

abbrev refused : Result (List ℕ × ℕ)
refused = raise memory_error

scarce_gives : (n s s' : ℕ) (ids : List ℕ) → scarce n s ≡ ok (ids, s') → length ids ≡ n
unfolding scarce
scarce_gives n s s' ids h = elim (Bool-cases (leb (s + n) 4)) [
  | inl c ↦ rw (← ap minted (rw c at h)) (length-from s n)
  | inr c ↦ absurd (no_ids (rw c at h))
]
  where
    no_ids : refused ≢ ok (ids, s')
    no_ids e = cc

insert_runs_out : (insert scarce two.block_size 3 (7 ∷ 8 ∷ 4 ∷ []) two 4).0 ≡ raise memory_error
unfolding insert scarce mint init
insert_runs_out = refl

insert_raises_example : (n : ℕ) × (s' : ℕ) × (scarce n s' ≡ raise memory_error)
insert_raises_example =
    insert_raises scarce scarce_gives 3 (7 ∷ 8 ∷ 4 ∷ []) two 4 memory_error two-IsValid
      insert_runs_out
