-- ===== src/Lib.antt =====
-- nano-kvrouter simulates a router for the KV caches of a cluster of inference nodes. This library
-- models its core.
--
-- - Pool: src/nano_kvrouter/kv_cache/block_pool.py. `BlockPool` keeps the blocks of a node on the
--   tiers gpu, cpu and disk, with reference and pin counts. A method that raises leaves the pool as it
--   was, so each is a function into `Result BlockPool`. `Tier.unknown` stands for every other string.
-- - Tree: src/nano_kvrouter/kv_cache/radix_tree.py. `Tree` has the types, both matches and `insert`;
--   `Tree.Evict` has eviction and the scan of `demote_lru`, `Tree.Purge` the two purges. A `RadixNode`
--   is a `Label` with the `Forest` of its children, in the order of the dict. A node's parent is its
--   place, and `_nodes` is the list of its keys, which finds the node by its first block id. `insert`
--   takes the tree's allocator `mint` as an argument, over any state, and raises `index_error` where
--   that gives a node no id. `Tree.Census` counts the nodes that pass a test.
-- - Manager: src/nano_kvrouter/kv_cache/cache_manager.py and block_table.py. A node's pool and tree are
--   a `NodeCache`; the tree's allocator and release are the pool's `allocate` and `free`, so a call is
--   an `Exec` on the pair and returns what it changed also when it raises. `Manager.Demote` moves
--   blocks down, `Manager.Admit` admits prompts, `Manager.Lookup` answers what is cached, and
--   `Manager.Requests` pins the blocks of a request and releases them.
-- - Transfer: src/nano_kvrouter/simulator/transfer_model.py, both transfer models.
-- - Engine: src/nano_kvrouter/simulator/event.py and engine.py, the event loop. The heap is the list of
--   its events, the newest first, and `pop_least` is `heapq.heappop`. Handlers act on the engine and on
--   a world of their own; the table that `on` fills is an argument of `run`.
-- - Node: src/nano_kvrouter/engine/mock_node.py, the slots, queue, prefill and decode batch of a node.
--   `Node.Batch` has `tick_batch_step` and `complete`, `Node.Estimates` what the schedulers read.
-- - Scheduler: src/nano_kvrouter/scheduler/ and request.py, with `_build_scheduler` of cli.py. `Scheduler`
--   has what the policies share: requests, decisions, and compute_est_ttft of base.py. Each policy has
--   a file; the nodes of a pool are a list, and the code that follows the test for empty pools takes a
--   first node and the others. A policy reads the cache through `CacheQuery`, of which
--   `Scheduler.Queries` has the cache manager and the null query as instances; what it reads of the
--   transfer lanes is the function `backlog`.
-- - Driver: `_wire_simulator` of src/nano_kvrouter/cli.py, the handlers that join the other parts. A
--   `World` is what they share; the handlers are in `Driver.Prefilling` and `Driver.Decoding`, as
--   sequences of calls on the engine and the world, each of which may raise. The nodes are kept once
--   by their ids, so that a node that is in both pools is one object.
-- - Metrics: the handlers of `MetricsCollector` in src/nano_kvrouter/metrics/collector.py. They take
--   what they read of an event, and are not joined to the engine, which they do not change.
--   `Metrics.Summary` has the rate of met targets.
-- - Prelude: lists, Python's dicts and sets with identifiers for keys, exceptions, and `Float`.
--
-- Strings that name blocks, nodes and requests are natural numbers, as are tokens and counts that are
-- never negative; the counts of `pin` and `unpin` are integers. `uuid4` is a parameter: the k-th call
-- returns `uuid k`, and where it matters it does not repeat. Time stamps of the tree are of any type
-- `T`, with the clock's answer as an argument, and its order where it is compared. Other floats are
-- those of a record `Float` of operations, of which a theorem assumes at most `IsOrdered`: the order
-- is total and transitive, and a cost that is not negative does not make a number smaller.
--
-- Fuel: `make_room`, the loop of `admit`, has one unit more than the rank of the pool, that is the
-- blocks on the disk tier, twice those on the cpu tier and three times those on the gpu tier, since
-- each round moves a block down or frees it, or raises. `demote_scan` has the source's
-- own limit of scans. `run` of the engine has any fuel, since handlers may schedule without end.
--
-- The set of streams of a batch step is taken in the order of a list, where Python's order is that of
-- the hashes. A rejected decision is never stored, so the nodes of a stored one are there.
--
-- Not modelled: the other statistics of the metrics, workload generation, configuration, the command
-- line around the handlers, and logging.
pub mod Driver
pub mod Engine
pub mod Manager
pub mod Metrics
pub mod Node
pub mod Pool
pub mod Prelude
pub mod Scheduler
pub mod Transfer
pub mod Tree
