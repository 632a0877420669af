-- ===== src/WorkQueue/Snapshot.antt =====
-- `get_snapshot` of enterprise/control/work_queue.py without a federation: the newest snapshot of a
-- table, or that of an epoch, with its objects checked.
pub mod Read
use text.Mathlib.Text.{starts_with}
use fabric_shortcut_proxy.Prelude.{
  ℕ, String, Bool, true, false, not, Option, none, some, List, [], ◌∷◌, if◌then◌else◌, ◌==◌, all,
  sorted_set,
}
use fabric_shortcut_proxy.Dict.{Dict, lookup, has_key, keys}
use fabric_shortcut_proxy.WorkQueue.Queue.{SnapshotManifest, Queue}
use fabric_shortcut_proxy.WorkQueue.Answers.{Parts}
use fabric_shortcut_proxy.WorkQueue.Publish.{table_prefix, key_of_snapshot, is_verified}

pub data SnapshotRead : Type 0 where
  no_snapshot output_invalid metadata_gone : SnapshotRead
  snapshot_read : SnapshotManifest → SnapshotRead

-- `self.store.list(prefix)`, unsorted
unfoldable pub with_prefix : String → Dict SnapshotManifest → Dict SnapshotManifest
with_prefix prefix [] = []
with_prefix prefix ((k, m) ∷ d) =
    let rest = with_prefix prefix d in if starts_with k prefix then (k, m) ∷ rest else rest

last_of : List String → Option String
last_of [] = none
last_of (k ∷ []) = some k
last_of (k ∷ l ∷ ks) = last_of (l ∷ ks)

find_key : Option String → Dict SnapshotManifest → Option SnapshotManifest
unfolding lookup
find_key none d = none
find_key (some k) d = lookup k d

module _ {B : Type 0} (parts : Parts B) where
  -- The record that is selected; the keys are in the order of texts.
  unfoldable pub selected : String → ℕ → Dict SnapshotManifest → Option SnapshotManifest
  unfolding table_prefix key_of_snapshot with_prefix last_of find_key lookup sorted_set
  selected table epoch d =
      let records = with_prefix (table_prefix parts table) d in
      if epoch == 0
      then find_key (last_of (sorted_set (keys records))) records
      else lookup (key_of_snapshot parts table epoch) records

  unfoldable pub checked_snapshot : Dict B → Option SnapshotManifest → SnapshotRead
  unfolding is_verified
  checked_snapshot artifacts none = no_snapshot
  checked_snapshot artifacts (some m) =
      if not (all (is_verified parts artifacts) m.splits)
      then output_invalid
      else if not (all (λ k. has_key k artifacts) m.metadata_keys)
      then metadata_gone
      else snapshot_read m

  unfoldable pub get_snapshot : Dict B → String → ℕ → Queue → SnapshotRead
  unfolding selected checked_snapshot
  get_snapshot artifacts table epoch q =
      checked_snapshot artifacts (selected table epoch q.snapshot_records)
