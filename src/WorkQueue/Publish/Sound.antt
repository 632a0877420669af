-- ===== src/WorkQueue/Publish/Sound.antt =====
-- The outcomes of `publish_snapshot` of enterprise/control/work_queue.py.
use fabric_shortcut_proxy.Prelude.{
  ℕ, String, str_eq_refl, Bool, true, false, Option, none, some, ◌≡◌, refl, ◌∙◌, sym, inl, inr, ◌⊎◌,
  if◌then◌else◌, map,
}
use fabric_shortcut_proxy.Dict.{lookup, lookup-insert}
use fabric_shortcut_proxy.WorkQueue.Task.{Request}
use fabric_shortcut_proxy.WorkQueue.Queue.{SnapshotManifest, Queue, write_request, tasks_of}
use fabric_shortcut_proxy.WorkQueue.Answers.{Parts}
use fabric_shortcut_proxy.WorkQueue.Identity.{dataset_of}
use fabric_shortcut_proxy.WorkQueue.Publish.Ready.{IsReady, refuse_publish-IsReady}
use fabric_shortcut_proxy.WorkQueue.Publish.{
  LiveGeneration, Surroundings, PublishError, PublishResult, published_as, not_published,
  guard_changed, catalog_refuses, payload_of, key_of_snapshot, refuse_publish, write_snapshot,
  published_request, publish_local, publish_checked, publish_found, publish_snapshot,
  unknown_request,
}

some-ne-none : {A : Type 0} {a : A} → some a ≡ none → ⊥
some-ne-none h = cc

module _ {B : Type 0} (parts : Parts B) where
  -- The outcome of a publication that takes place: the request is marked, and without a federation
  -- the snapshot stands under the key of its table and epoch.
  abbrev pub Commits :
      Surroundings B → SnapshotManifest → Request → Queue → Queue × PublishResult → Type 0
  Commits at m r q o =
      (r' : Request) × (o.1 ≡ published_as r')
      × (r'.published ≡ true)
      × (o.0.tasks ≡ q.tasks)
      × (lookup r.request_id o.0.requests ≡ some r')
      × (at.federation ≡ none
          → lookup (key_of_snapshot parts m.table m.epoch) o.0.snapshot_records ≡ some m)

  -- Either nothing is written and there is an error, or the publication takes place.
  abbrev pub IsAtomic :
      Surroundings B → SnapshotManifest → Request → Queue → Queue × PublishResult → Type 0
  IsAtomic at m r q o = ((e : PublishError) × (o ≡ (q, not_published e))) ⊎ Commits at m r q o

  local_writes :
      (now : ℕ) (at : Surroundings B) (m : SnapshotManifest) (r : Request) (q : Queue)
      → let r' = published_request parts now m r in
        Commits at m r q (write_request r' (write_snapshot parts m q), published_as r')
  unfolding write_request write_snapshot published_request
  local_writes now at m r q =
      let r' = published_request parts now m r in
      (
        r',
        refl,
        refl,
        refl,
        rw (lookup-insert r.request_id r.request_id r' q.requests, str_eq_refl r.request_id) refl,
        λ alone.
            rw
              (
                lookup-insert (key_of_snapshot parts m.table m.epoch)
                    (key_of_snapshot parts m.table m.epoch) m q.snapshot_records,
                str_eq_refl (key_of_snapshot parts m.table m.epoch),
              )
              refl,
      )

  guarded_writes :
      (now : ℕ) (at : Surroundings B) (m : SnapshotManifest) (r : Request) (q : Queue)
      → (o : Option LiveGeneration) (kept : Bool)
      → let r' = published_request parts now m r in
        let q' = write_request r' (write_snapshot parts m q) in
        IsAtomic at m r q (elim o [
          | none ↦ (q', published_as r')
          | some g ↦ if kept then (q', published_as r') else (q, not_published guard_changed)
        ])
  guarded_writes now at m r q none kept = inr (local_writes now at m r q)
  guarded_writes now at m r q (some g) true = inr (local_writes now at m r q)
  guarded_writes now at m r q (some g) false = inl (guard_changed, refl)

  publish_local-IsAtomic :
      (now : ℕ) (at : Surroundings B) (m : SnapshotManifest) (r : Request) (q : Queue)
      → IsAtomic at m r q (publish_local parts now at m r q)
  unfolding publish_local
  publish_local-IsAtomic now at m r q = guarded_writes now at m r q at.generation at.guard_kept

  catalog_writes :
      (now : ℕ) (at : Surroundings B) (m : SnapshotManifest) (r : Request) (q : Queue)
      → (o : Option Bool) → at.federation ≡ o
      → let r' = record r { published = true; updated_at_ms = now } in
        IsAtomic at m r q (elim o [
          | none ↦ publish_local parts now at m r q
          | some taken ↦
              if taken
              then (write_request r' q, published_as r')
              else (q, not_published catalog_refuses)
        ])
  unfolding write_request
  catalog_writes now at m r q none e = publish_local-IsAtomic now at m r q
  catalog_writes now at m r q (some false) e = inl (catalog_refuses, refl)
  catalog_writes now at m r q (some true) e =
      let r' : Request = record r { published = true; updated_at_ms = now } in
      inr (
        r',
        refl,
        refl,
        refl,
        rw (lookup-insert r.request_id r.request_id r' q.requests, str_eq_refl r.request_id) refl,
        λ alone. absurd (some-ne-none (sym e ∙ alone)),
      )

  publish_checked-IsAtomic :
      (now : ℕ) (at : Surroundings B) (m : SnapshotManifest) (r : Request) (q : Queue)
      → IsAtomic at m r q (publish_checked parts now at m r q)
  unfolding publish_checked
  publish_checked-IsAtomic now at m r q = catalog_writes now at m r q at.federation refl

  -- The manifest that is stored.
  abbrev pub stored_manifest : SnapshotManifest → Request → Queue → SnapshotManifest
  stored_manifest m r q =
      payload_of (dataset_of (map (λ t. t.task) (tasks_of r.task_ids q.tasks))) r m

  refuse_or_publish :
      (now : ℕ) (at : Surroundings B) (id : String) (m : SnapshotManifest) (r : Request) (q : Queue)
      (o : Option PublishError)
      → refuse_publish parts now at id m r q ≡ o
      → let result : Queue × PublishResult = (elim o [
        | some e ↦ (q, not_published e)
        | none ↦ publish_checked parts now at (stored_manifest m r q) r q
      ]) in
        ((e : PublishError) × (result ≡ (q, not_published e)))
        ⊎ (IsReady parts now at id m r q × Commits at (stored_manifest m r q) r q result)
  refuse_or_publish now at id m r q (some e) h = inl (e, refl)
  refuse_or_publish now at id m r q none h =
      elim (publish_checked-IsAtomic now at (stored_manifest m r q) r q) [
        | inl refused ↦ inl refused
        | inr done ↦ inr (refuse_publish-IsReady parts now at id m r q h, done)
      ]

  -- What a publication of `m` for the request `id` comes to.
  abbrev pub IsSound : ℕ → Surroundings B → String → SnapshotManifest → Queue → Type 0
  IsSound now at id m q =
      let result = publish_snapshot parts now at id m q in
      ((e : PublishError) × (result ≡ (q, not_published e)))
      ⊎ ((r : Request) × (lookup id q.requests ≡ some r)
          × IsReady parts now at id m r q
          × Commits at (stored_manifest m r q) r q result)

  publish_found_or_not :
      (now : ℕ) (at : Surroundings B) (id : String) (m : SnapshotManifest) (q : Queue)
      (o : Option Request)
      → let result = publish_found parts now at id m o q in
        ((e : PublishError) × (result ≡ (q, not_published e)))
        ⊎ ((r : Request) × (o ≡ some r)
            × IsReady parts now at id m r q
            × Commits at (stored_manifest m r q) r q result)
  unfolding publish_found
  publish_found_or_not now at id m q none = inl (unknown_request, refl)
  publish_found_or_not now at id m q (some r) =
      elim (refuse_or_publish now at id m r q (refuse_publish parts now at id m r q) refl) [
        | inl refused ↦ inl refused
        | inr (ready, done) ↦ inr (r, refl, ready, done)
      ]

  -- Whatever the queue, the objects and the generation: `publish_snapshot` either writes nothing
  -- and gives an error, or the request is there, has succeeded and has all its tasks, the manifest
  -- has its identity, the generation in force, if there is one, is that of the manifest and has
  -- not run out, every data file is there with its size and digest, and then the request is marked
  -- as published and, without a federation, the manifest stands under its table and epoch.
  pub publish_snapshot-IsSound :
      (now : ℕ) (at : Surroundings B) (id : String) (m : SnapshotManifest) (q : Queue)
      → IsSound now at id m q
  unfolding publish_snapshot
  publish_snapshot-IsSound now at id m q = publish_found_or_not now at id m q (lookup id q.requests)
