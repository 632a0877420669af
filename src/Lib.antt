-- ===== src/Lib.antt =====
-- Verification library of the Fabric Shortcut Proxy.
--
-- The program serves relational tables, Iceberg and Delta tables as objects over S3. A Manager
-- (enterprise/control) holds a leader lease in a shared artifact store, plans the materialization
-- of tables as durable tasks, and hands the tasks to Agents. An Agent
-- (src/fabric_shortcut_proxy) runs the queries, writes Parquet objects, and serves them from tiers
-- of caches over the same store. Operators and identities are authorized by roles and grants.
--
-- The store is the meeting point: the lease is a record in it that is changed by compare-and-swap,
-- the queue writes its records under the fence of the lease, and the tiers read and write the
-- objects. The interface Artifacts.Register states what the lease takes from a store, and
-- Artifacts.Memory.Laws shows that the in-memory store has it.
--
-- Which file models what:
--
-- - Artifacts.Keys: `_normalize_key` of src/fabric_shortcut_proxy/runtime/artifact_store.py, on the
--   characters of a key.
-- - Artifacts.Memory: `MemoryStore` of the same file. A store is a dict from normalised keys to
--   contents of any type with a size; an operation returns the new store and a result, whose
--   errors are the exceptions of the code.
-- - Lease.Record, Lease.Leader, Lease.Durable: `LeaderLease` of enterprise/control/lease.py, in
--   explicit state passing over a register. An environment says at each access whether it faults
--   and what others write between the read and the swap. The loops of four attempts, and of eight
--   in `mutate_state`, are recursion on that number, as in the code. Lease.Takes says what may be
--   taken over.
-- - Lease.Fleet: any number of Managers that share one record, as a step relation. A step is the
--   read of one Manager, its swap, or its loss of the lease; a read and its swap are two steps, so
--   all interleavings are there.
-- - Cache.Lru: `BytesLRUCache` of src/fabric_shortcut_proxy/cache/lru_cache.py. Time is an
--   argument. The loop that evicts is on fuel, the number of entries, and each turn drops one.
-- - Cache.Tiers: the functions of that file over the pinned splits, the two memory caches, the
--   disk cache and the artifact store.
-- - Security.Authorization, Security.Directory:
--   src/fabric_shortcut_proxy/security/authorization.py, permissions, roles, grants, users and
--   groups.
-- - Placement: `PlacementConfig` of enterprise/control/placement.py. Placement.Rules has the checks
--   of a policy, each of which gives the violation that the code raises, or none; Binding the
--   choice of the active store; Tenants, Residency and Dispatch say what a policy that passes looks
--   like. Glob matching is a parameter.
-- - Registry: `Registry` of enterprise/control/registry.py. Snapshot has the durable snapshot, its
--   restoration and the undoing of a failed write, Calls the calls; History is any sequence of
--   calls, with the log of one agent; Attached adds the attaching and detaching of the durable
--   state. A write of the durable state succeeds or fails as its caller
--   says, since Lease models it.
-- - Scheduler: `TaskScheduler` of enterprise/control/task_scheduler.py: the agents that can take a
--   task in Scheduler itself, the choice of one in Best, the memberships in Dispatch, the counts of
--   claims in Claiming, the loop of `dispatch_once` in Run. Setting says what the surroundings
--   answer while a run is at a task. Tasks and agents are taken in the order of their dicts.
-- - Generation: src/fabric_shortcut_proxy/runtime/generation.py. Calls has what a call of a
--   coordinator computes from what it read, Runs the whole calls with what others do between their
--   accesses, Join the polls of a worker, one for each turn of its loop until the deadline. Steps is
--   any number of coordinators, whose reads and swaps interleave in every way; Plans is about the
--   table plans that they write.
-- - Reidentification: `RequestLimiter` of src/fabric_shortcut_proxy/reidentification/limits.py.
-- - Planner.Ranges: the key ranges and the number of splits of
--   src/fabric_shortcut_proxy/planner/split_planner.py.
-- - Planner.Shards: the assignment of splits to shards of
--   src/fabric_shortcut_proxy/planner/shard_weight.py.
-- - WorkQueue.Task: the states, transitions and messages of enterprise/control/contract.py.
-- - WorkQueue.Steps, WorkQueue.Queue, WorkQueue.Changes, WorkQueue.Answers, WorkQueue.Checks,
--   WorkQueue.Results: `DurableWorkQueue` of enterprise/control/work_queue.py. Steps holds what an
--   operation writes for one task, as the list of the versions of its record; Queue has the records
--   of the queue, Changes the calls that apply such versions; Answers has the results of agents and
--   the answers to them, Checks and Results `accept_result` with all its refusals.
-- - WorkQueue.Identity, WorkQueue.Create, WorkQueue.Recover, WorkQueue.Prune, WorkQueue.Runnable,
--   WorkQueue.Publish, WorkQueue.Snapshot: `create_request`, `recover`, `prune_terminal`,
--   `runnable_tasks`, `publish_snapshot` and `get_snapshot` of the same class. The writes of a
--   creation are a list, and a process that stops has done a first part of it. A publication says
--   whether the generation record that guards its batch is unchanged, and whether the catalog of a
--   federation takes the manifest.
-- - WorkQueue.Membership: the workers of a generation in the same file, with their fences.
-- - WorkQueue.History: the calls on tasks that are there, but for `retry_task`, move them along such
--   versions, which is the specification that these calls refine.
--
-- Dict models Python's `dict` and `OrderedDict` with text keys as an association list in insertion
-- order, Prelude the Boolean tests and list functions over the native numbers. Times, sizes,
-- attempts and fences are natural numbers; Python's integers are unbounded, so nothing wraps.
-- Times that the code holds as floats are counted in the unit that the code compares them in.
--
-- Not code of the repository, and so parameters: SHA-256, the reading of Parquet files, the tokens
-- that are drawn, the clock. The texts of staging keys and of redacted errors are parameters too.
--
-- Not modelled: JSON encoding (a record is its value), logs and metrics, threads inside one
-- process (the code holds a lock during each operation), the writes of the queue that fail (the
-- call ends with an exception), and its staging objects and the snapshots of a federation. The
-- network services, the database access, the cloud stores and the user interface are left out.
pub mod Prelude
pub mod Dict
pub mod Artifacts
pub mod Cache
pub mod Generation
pub mod Lease
pub mod Placement
pub mod Registry
pub mod Scheduler
pub mod Planner
pub mod Security
pub mod Reidentification
pub mod WorkQueue
mod Tests
