-- ===== src/WorkQueue/Publish.antt =====
-- `publish_snapshot` of enterprise/control/work_queue.py: the manifest of a finished request becomes
-- what Agents serve. The metrics are left out.

pub mod Ready
pub mod Sound
use Prim.Native.String.{◌++◌ as ◌+++◌}
use fabric_shortcut_proxy.Prelude.{
  ℕ, zero, suc, ◌-◌, String, str_eq, Bool, true, false, not, ◌&&◌, ◌||◌, Option, none, some, List,
  [], ◌∷◌, if◌then◌else◌, ltb, ◌==◌, all, any, map, length,
}
use fabric_shortcut_proxy.Dict.{Dict, lookup, insert, has_key}
use fabric_shortcut_proxy.Artifacts.Keys.{chars}
use fabric_shortcut_proxy.WorkQueue.Task.{succeeded, code_of, is_in, MaterializeTask, Task, Request}
use fabric_shortcut_proxy.WorkQueue.Queue.{
  SplitRef, SnapshotManifest, Queue, write_request, tasks_of,
}
use fabric_shortcut_proxy.WorkQueue.Answers.{Parts}
use fabric_shortcut_proxy.WorkQueue.Identity.{decimal, several_datasets, dataset_of}
use fabric_shortcut_proxy.WorkQueue.Recover.{has_missing}

-- The coordinator record of the generations: `current_generation_record`.
pub record LiveGeneration : Type 0 where
  pub generation_id : String
  pub fence : ℕ
  pub plan_sha256 : String
  pub expires_at_ms : ℕ

-- What the call meets: the objects of the store, the generation record that it reads, whether that
-- record is unchanged when the guarded batch is written, and whether the catalog of the
-- federation, if there is one, takes the manifest.
pub record Surroundings (B : Type 0) : Type 0 where
  pub artifacts : Dict B
  pub generation : Option LiveGeneration
  pub guard_kept : Bool
  pub federation : Option Bool

pub data PublishError : Type 0 where
  unknown_request not_ready identity_differs generation_inactive output_differs : PublishError
  metadata_missing task_missing several_datasets_found dataset_differs : PublishError
  produced_differs guard_changed catalog_refuses : PublishError

pub data PublishResult : Type 0 where
  published_as : Request → PublishResult
  not_published : PublishError → PublishResult

zero_text : ℕ → String
zero_text zero = ""
zero_text (suc n) = "0" +++ zero_text n

-- `f"{n:020d}"`
unfoldable pub pad_20 : ℕ → String
unfolding decimal zero_text
pad_20 n = zero_text (20 - length (chars (decimal n))) +++ decimal n

unfoldable pub same_identity : String → SnapshotManifest → Request → Bool
same_identity id m r =
    str_eq m.request_id id
    && str_eq m.table r.table
    && (m.epoch == r.epoch)
    && str_eq m.generation_id r.generation_id
    && (m.generation_fence == r.generation_fence)
    && str_eq m.plan_sha256 r.plan_sha256
    && str_eq m.tenant_id r.tenant_id

-- No generation at all, or the one of the manifest, which has not run out.
unfoldable pub generation_allows : ℕ → SnapshotManifest → Option LiveGeneration → Bool
generation_allows now m none = true
generation_allows now m (some g) =
    str_eq g.generation_id m.generation_id
    && (g.fence == m.generation_fence)
    && str_eq g.plan_sha256 m.plan_sha256
    && ltb now g.expires_at_ms

-- `payload`: the manifest with the dataset and the production time of the request.
unfoldable pub payload_of : String → Request → SnapshotManifest → SnapshotManifest
payload_of dataset r m = record m { dataset_id = dataset; produced_at_ms = r.created_at_ms }

module _ {B : Type 0} (parts : Parts B) where
  -- `f"{SNAPSHOTS_PREFIX}/{_hash(table)}/"` and `f"...{int(epoch):020d}.json"`, without the first
  -- part
  unfoldable pub table_prefix : String → String
  table_prefix table = parts.texts.hash table +++ "/"

  unfoldable pub key_of_snapshot : String → ℕ → String
  unfolding pad_20 table_prefix
  key_of_snapshot table epoch = table_prefix table +++ (pad_20 epoch +++ ".json")

  -- `store.verify`
  unfoldable pub is_verified : Dict B → SplitRef → Bool
  unfolding lookup
  is_verified artifacts s = elim (lookup s.object_key artifacts) [
    | none ↦ false
    | some b ↦ (parts.size b == s.size_bytes) && str_eq (parts.digest b) s.content_hash
  ]

  -- The checks of the dataset and the production time that the manifest may name.
  unfoldable pub refuse_dataset :
      SnapshotManifest → Request → List MaterializeTask → Option PublishError
  unfolding several_datasets dataset_of
  refuse_dataset m r ts =
      if several_datasets ts
      then some several_datasets_found
      else if not (str_eq m.dataset_id "") && not (str_eq m.dataset_id (dataset_of ts))
      then some dataset_differs
      else if not (m.produced_at_ms == 0) && not (m.produced_at_ms == r.created_at_ms)
      then some produced_differs
      else none

  -- All the refusals, in the order of the code.
  unfoldable pub refuse_publish :
      ℕ → Surroundings B → String → SnapshotManifest → Request → Queue → Option PublishError
  unfolding same_identity generation_allows is_verified has_missing refuse_dataset tasks_of code_of
  refuse_publish now at id m r q =
      if not (is_in r.state succeeded)
      then some not_ready
      else if not (same_identity id m r)
      then some identity_differs
      else if not (generation_allows now m at.generation)
      then some generation_inactive
      else if not (all (is_verified at.artifacts) m.splits)
      then some output_differs
      else if not (all (λ k. has_key k at.artifacts) m.metadata_keys)
      then some metadata_missing
      else if has_missing r.task_ids q.tasks
      then some task_missing
      else refuse_dataset m r (map (λ t. t.task) (tasks_of r.task_ids q.tasks))

  unfoldable pub write_snapshot : SnapshotManifest → Queue → Queue
  unfolding key_of_snapshot
  write_snapshot m q = record q {
    snapshot_records = insert (key_of_snapshot m.table m.epoch) m q.snapshot_records;
  }

  unfoldable pub published_request : ℕ → SnapshotManifest → Request → Request
  unfolding key_of_snapshot
  published_request now m r = record r {
    published = true;
    snapshot_key = key_of_snapshot m.table m.epoch;
    updated_at_ms = now;
  }

  -- Without a federation: both records, in one batch if there is a generation to guard it.
  unfoldable pub publish_local :
      ℕ → Surroundings B → SnapshotManifest → Request → Queue → Queue × PublishResult
  unfolding write_request write_snapshot published_request
  publish_local now at m r q =
      let r' = published_request now m r in
      let q' = write_request r' (write_snapshot m q) in
      elim at.generation [
        | none ↦ (q', published_as r')
        | some g ↦ if at.guard_kept then (q', published_as r') else (q, not_published guard_changed)
      ]

  unfoldable pub publish_checked :
      ℕ → Surroundings B → SnapshotManifest → Request → Queue → Queue × PublishResult
  unfolding write_request publish_local
  publish_checked now at m r q = elim at.federation [
    | none ↦ publish_local now at m r q
    | some taken ↦
        let r' = record r { published = true; updated_at_ms = now } in
        if taken then (write_request r' q, published_as r') else (q, not_published catalog_refuses)
  ]

  unfoldable pub publish_found :
      ℕ
      → Surroundings B
      → String
      → SnapshotManifest
      → Option Request
      → Queue
      → Queue × PublishResult
  unfolding refuse_publish publish_checked payload_of dataset_of tasks_of
  publish_found now at id m none q = (q, not_published unknown_request)
  publish_found now at id m (some r) q = elim (refuse_publish now at id m r q) [
    | some e ↦ (q, not_published e)
    | none ↦
        let dataset = dataset_of (map (λ t. t.task) (tasks_of r.task_ids q.tasks)) in
        publish_checked now at (payload_of dataset r m) r q
  ]

  unfoldable pub publish_snapshot :
      ℕ → Surroundings B → String → SnapshotManifest → Queue → Queue × PublishResult
  unfolding publish_found
  publish_snapshot now at id m q = publish_found now at id m (lookup id q.requests) q
