-- ===== src/Manager/Requests.antt =====
-- `materialize_request` and `release_request`: the block tables of active requests.
use nano_kvrouter.Prelude.{
  ℕ, ◌-◌, ◌*◌, ◌/◌, Bool, not, ◌&&◌, Option, none, some, List, [], ◌∷◌, Result, Exec, next, ok,
  raise, memory_error, value_error, key_error, length, take, ltb, ◌==◌, if◌then◌else◌, min, select,
}
use nano_kvrouter.Prelude.Dict.{get}
use nano_kvrouter.Prelude.Sets.{mem}
use nano_kvrouter.Pool.{BlockPool, pin, unpin, tiers_of}
use nano_kvrouter.Tree.{match_prefix_path}
use nano_kvrouter.Manager.{NodeCache, Manager, BlockTable, alive, on_node}
use nano_kvrouter.Manager.Admit.{admit}

-- the leading ids whose blocks are alive
unfoldable pub live_prefix : (ℕ → Bool) → List ℕ → List ℕ
live_prefix live [] = []
live_prefix live (b ∷ bs) = let rest = live_prefix live bs in if live b then b ∷ rest else []

-- `_retain_blocks` and `_release_blocks`
unfoldable pub retain_blocks : List ℕ → BlockPool → Result BlockPool
retain_blocks [] p = ok p
retain_blocks (b ∷ bs) p = pin (b ∷ bs) p

unfoldable pub release_blocks : List ℕ → BlockPool → Result BlockPool
release_blocks [] p = ok p
release_blocks (b ∷ bs) p = unpin (b ∷ bs) p

-- `table = self._block_tables.pop(key)`, the key being the node and the request
unfoldable pub is_key : ℕ → ℕ → BlockTable → Bool
is_key node request t = t.node_id == node && t.request_id == request

unfoldable pub find_table : ℕ → ℕ → List BlockTable → Option BlockTable
unfolding is_key
find_table node request [] = none
find_table node request (t ∷ ts) =
    let rest = find_table node request ts in if is_key node request t then some t else rest

unfoldable pub drop_table : ℕ → ℕ → List BlockTable → List BlockTable
unfolding is_key
drop_table node request [] = []
drop_table node request (t ∷ ts) =
    let rest = drop_table node request ts in if is_key node request t then rest else t ∷ rest

module _ {T : Type 0} where
  -- A call on the pool alone.
  unfoldable pub on_pool : (BlockPool → Result BlockPool) → Exec (NodeCache T) (Unit {0})
  on_pool f c = elim (f (c.pool)) [ ok q ↦ (ok tt, record c { pool = q }) | raise e ↦ (raise e, c) ]

  -- `except Exception: self._release_blocks(node_id, retained); raise`
  unfoldable pub or_release :
      {A : Type 0} → List ℕ → Result A × NodeCache T → Result A × NodeCache T
  unfolding on_pool release_blocks
  or_release retained (ok a, c) = (ok a, c)
  or_release retained (raise e, c) =
      next (λ _ c'. (raise e, c')) (on_pool (release_blocks retained) c)

  module _ (uuid : ℕ → ℕ) (lt : T → T → Bool) (now later : T) (bs capacity : ℕ) where
    -- `_live_prefix_block_ids`
    unfoldable pub live_prefix_ids : List ℕ → ℕ → NodeCache T → List ℕ × NodeCache T
    unfolding match_prefix_path live_prefix alive
    live_prefix_ids ts total c =
        let (found, tree) = match_prefix_path now ts c.tree in
        (
          live_prefix (alive (c.pool)) (take (min (found.0 / bs) total) found.1),
          record c { tree = tree },
        )

    -- From the check of the path to the block ids of the table.
    unfoldable pub pin_path : List ℕ → ℕ → List ℕ → Exec (NodeCache T) (List ℕ)
    unfolding match_prefix_path tiers_of on_pool retain_blocks
    pin_path ts total prefix c =
        let (found, tree) = match_prefix_path now ts c.tree in
        let c' = record c { tree = tree } in
        let ids = take total found.1 in
        let added = select (λ b. not (mem b prefix)) ids in
        if ltb (found.0 / bs) total
        then (raise memory_error, c')
        else if length (tiers_of c.pool ids) == total
        then next (λ _ c''. (ok ids, c'')) (on_pool (retain_blocks added) c')
        else (raise memory_error, c')

    -- The body of the `try`, once the prefix is retained.
    unfoldable pub fill : List ℕ → ℕ → List ℕ → Exec (NodeCache T) (List ℕ)
    unfolding pin_path admit
    fill ts total prefix c =
        if ltb (length prefix) total
        then next (λ _. pin_path ts total prefix) (admit uuid lt now later bs capacity ts c)
        else pin_path ts total prefix c

    -- `materialize_request` on the cache of the node, for at least one block: the number of matched
    -- blocks and the ids of the table.
    unfoldable pub materialize : List ℕ → ℕ → Exec (NodeCache T) (ℕ × List ℕ)
    unfolding live_prefix_ids on_pool retain_blocks or_release fill
    materialize ts total c =
        let (prefix, c') = live_prefix_ids ts total c in
        next
          (λ _ c1.
            next (λ ids c2. (ok (length prefix, ids), c2))
              (or_release prefix (fill ts total prefix c1)))
          (on_pool (retain_blocks prefix) c')

module _ {T : Type 0} (uuid : ℕ → ℕ) (lt : T → T → Bool) (now later : T) where
  unfoldable pub add_table : ℕ → ℕ → ℕ → ℕ × List ℕ → Manager T → BlockTable × Manager T
  add_table request node total (matched, ids) m =
      let table : BlockTable = record {
        request_id = request;
        node_id = node;
        block_ids = ids;
        matched_blocks = matched;
        new_blocks = total - matched;
      } in
      (table, record m { tables = table ∷ m.tables })

  unfoldable pub materialize_request : ℕ → List ℕ → ℕ → Manager T → Result BlockTable × Manager T
  unfolding find_table add_table materialize on_node
  materialize_request request token_ids node m =
      let bs = m.block_size in
      let total = length token_ids / bs in
      elim (get m.nodes node) [
        | none ↦ (raise key_error, m)
        | some c ↦ elim (find_table node request (m.tables)) [
          | some t ↦ (raise value_error, m)
          | none ↦
              if total == 0
              then (let (table, m') = add_table request node 0 (0, []) m in (ok table, m'))
              else next
                  (λ r m'. let (table, m'') = add_table request node total r m' in (ok table, m''))
                  (on_node node
                    (materialize uuid lt now later bs m.gpu_capacity (take (total * bs) token_ids)
                      total)
                    m)
        ]
      ]

  unfoldable pub release_request : ℕ → ℕ → Manager T → Result (Unit {0}) × Manager T
  unfolding find_table drop_table on_node on_pool release_blocks
  release_request request node m = elim (get m.nodes node) [
    | none ↦ (raise key_error, m)
    | some c ↦ elim (find_table node request (m.tables)) [
      | none ↦ (raise key_error, m)
      | some t ↦
          on_node node (on_pool (release_blocks t.block_ids))
            (record m { tables = drop_table node request m.tables })
    ]
  ]
