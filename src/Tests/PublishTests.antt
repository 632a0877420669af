-- ===== src/Tests/PublishTests.antt =====
-- `publish_snapshot` of enterprise/control/work_queue.py at concrete inputs: a finished request with
-- one data file, under a generation that is in force.
use fabric_shortcut_proxy.Prelude.{ℕ, true, none, some, [], ◌∷◌, ◌≡◌, refl, map}
use fabric_shortcut_proxy.Dict.{lookup, insert}
use fabric_shortcut_proxy.WorkQueue.Task.{succeeded, Request}
use fabric_shortcut_proxy.WorkQueue.Queue.{SnapshotManifest, Queue}
use fabric_shortcut_proxy.WorkQueue.Publish.{
  Surroundings, published_as, not_published, generation_inactive, key_of_snapshot, publish_snapshot,
}
use fabric_shortcut_proxy.WorkQueue.Publish.Sound.{
  IsSound, stored_manifest, publish_snapshot-IsSound,
}
use fabric_shortcut_proxy.WorkQueue.Snapshot.{get_snapshot, snapshot_read}
use fabric_shortcut_proxy.WorkQueue.Snapshot.Read.{get-publish_snapshot}
use fabric_shortcut_proxy.Tests.QueueTests.{parts, blank, ask}

abbrev done : Queue
done = record {
  memberships = [];
  tasks = ("t1", blank "t1" "r1" succeeded none) ∷ [];
  requests = ("r1", ask "r1" ("t1" ∷ []) succeeded) ∷ [];
  results = [];
  idempotency = [];
  snapshot_records = [];
}

abbrev manifest : SnapshotManifest
manifest = record {
  table = "orders";
  epoch = 7;
  table_format = "delta";
  splits =
      record { object_key = "out"; size_bytes = 3; record_count = 3; content_hash = "sha" } ∷ [];
  metadata_keys = [];
  generation_id = "g";
  generation_fence = 1;
  plan_sha256 = "plan";
  published_at_ms = 5;
  request_id = "r1";
  dataset_id = "";
  produced_at_ms = 0;
  tenant_id = "";
}

abbrev at_fence : ℕ → Surroundings ℕ
at_fence n = record {
  artifacts = ("out", 3) ∷ [];
  generation =
      some (record { generation_id = "g"; fence = n; plan_sha256 = "plan"; expires_at_ms = 90 });
  guard_kept = true;
  federation = none;
}

key_of_manifest : key_of_snapshot parts "orders" 7 ≡ "orders/00000000000000000007.json"
unfolding key_of_snapshot
key_of_manifest = refl

snapshot_stands :
    map
      (λ e. e.1.dataset_id)
      (publish_snapshot parts 8 (at_fence 1) "r1" manifest done).0.snapshot_records
    ≡ "sales::orders" ∷ []
unfolding publish_snapshot lookup insert
snapshot_stands = refl

newer_generation :
    publish_snapshot parts 8 (at_fence 2) "r1" manifest done
    ≡ (done, not_published generation_inactive)
unfolding publish_snapshot lookup insert
newer_generation = refl

publish_snapshot-IsSound_example : IsSound parts 8 (at_fence 1) "r1" manifest done
publish_snapshot-IsSound_example = publish_snapshot-IsSound parts 8 (at_fence 1) "r1" manifest done

abbrev marked : Request
marked = record (ask "r1" ("t1" ∷ []) succeeded) {
  published = true;
  snapshot_key = "orders/00000000000000000007.json";
  updated_at_ms = 8;
}

abbrev after : Queue
after = record done {
  requests = ("r1", marked) ∷ [];
  snapshot_records =
      ("orders/00000000000000000007.json", record manifest { dataset_id = "sales::orders" }) ∷ [];
}

published_orders :
    publish_snapshot parts 8 (at_fence 1) "r1" manifest done ≡ (after, published_as marked)
unfolding publish_snapshot lookup insert
published_orders = refl

newest_read :
    get_snapshot parts (("out", 3) ∷ []) "orders" 0 after
    ≡ snapshot_read (record manifest { dataset_id = "sales::orders" })
unfolding get_snapshot lookup
newest_read = refl

get-publish_snapshot_example :
    (r : Request) × (lookup "r1" done.requests ≡ some r)
    × (get_snapshot parts (at_fence 1).artifacts "orders" 7 after
        ≡ snapshot_read (stored_manifest parts manifest r done))
get-publish_snapshot_example =
    get-publish_snapshot parts 8 (at_fence 1) "r1" manifest done after marked refl refl
      published_orders
