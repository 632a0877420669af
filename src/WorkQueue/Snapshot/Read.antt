-- ===== src/WorkQueue/Snapshot/Read.antt =====
-- `get_snapshot` after `publish_snapshot`, of enterprise/control/work_queue.py.
use Prim.Native.String.{◌++◌ as ◌+++◌}
use text.Mathlib.Text.{starts_with}
use text.Mathlib.TextPositions.{starts_with-append}
use fabric_shortcut_proxy.Prelude.{
  ℕ, String, str_eq, str_eq_iff, true, false, Option, none, some, List, [], ◌∷◌, ◌≡◌, refl, ◌∙◌,
  sym, ap, subst, arith, Bool-cases, inl, inr, some_inj, All, all, ◌==◌,
}
use fabric_shortcut_proxy.Dict.{Dict, lookup, has_key}
use fabric_shortcut_proxy.WorkQueue.Task.{Request}
use fabric_shortcut_proxy.WorkQueue.Queue.{SplitRef, SnapshotManifest, Queue}
use fabric_shortcut_proxy.WorkQueue.Answers.{Parts}
use fabric_shortcut_proxy.WorkQueue.Publish.{
  Surroundings, PublishResult, published_as, not_published, payload_of, table_prefix,
  key_of_snapshot, is_verified, publish_snapshot, pad_20,
}
use fabric_shortcut_proxy.WorkQueue.Publish.Ready.{IsIntact}
use fabric_shortcut_proxy.WorkQueue.Publish.Sound.{
  Commits, stored_manifest, publish_snapshot-IsSound,
}
use fabric_shortcut_proxy.WorkQueue.Snapshot.{
  snapshot_read, with_prefix, selected, checked_snapshot, get_snapshot,
}

lookup-with_prefix :
    (prefix k : String) (d : Dict SnapshotManifest)
    → starts_with k prefix ≡ true
    → lookup k (with_prefix prefix d) ≡ lookup k d
unfolding with_prefix lookup
lookup-with_prefix prefix k [] h = refl
lookup-with_prefix prefix k ((j, m) ∷ d) h = elim (Bool-cases (starts_with j prefix)) [
  | inl listed ↦ rw listed (ground (arith, lookup-with_prefix prefix k d h))
  | inr other ↦ rw other (elim (Bool-cases (str_eq j k)) [
    | inl same ↦
        let clash : false ≡ true =
          sym other ∙ ap (λ i. starts_with i prefix) ((str_eq_iff j k).0 same) ∙ h in
        cc
    | inr differs ↦ rw differs (lookup-with_prefix prefix k d h)
  ])
]

module _ {B : Type 0} (parts : Parts B) where
  selected-key :
      (table : String) (epoch : ℕ) (d : Dict SnapshotManifest)
      → (epoch == 0) ≡ false
      → selected parts table epoch d ≡ lookup (key_of_snapshot parts table epoch) d
  unfolding selected key_of_snapshot
  selected-key table epoch d h = rw h (
      lookup-with_prefix (table_prefix parts table)
        (table_prefix parts table +++ (pad_20 epoch +++ ".json")) d
        (starts_with-append (table_prefix parts table) (pad_20 epoch +++ ".json")))

  intact_verified :
      (artifacts : Dict B) (s : SplitRef)
      → IsIntact parts artifacts s
      → is_verified parts artifacts s ≡ true
  unfolding is_verified
  intact_verified artifacts s (b, found, sized, digested) =
      rw (is_verified, found)
        (ground (arith, sized, (str_eq_iff (parts.digest b) s.content_hash).1 digested))

  intact_all :
      (artifacts : Dict B) (ss : List SplitRef)
      → All (IsIntact parts artifacts) ss
      → all (is_verified parts artifacts) ss ≡ true
  intact_all artifacts [] h = refl
  intact_all artifacts (s ∷ ss) h =
      ground (arith, intact_verified artifacts s h.0, intact_all artifacts ss h.1)

  read_stored :
      (artifacts : Dict B) (m : SnapshotManifest) (o : Option SnapshotManifest)
      → o ≡ some m
      → all (is_verified parts artifacts) m.splits ≡ true
      → all (λ k. has_key k artifacts) m.metadata_keys ≡ true
      → checked_snapshot parts artifacts o ≡ snapshot_read m
  unfolding checked_snapshot
  read_stored artifacts m none e verified described = cc
  read_stored artifacts m (some n) e verified described =
      subst (λ x. checked_snapshot parts artifacts (some x) ≡ snapshot_read m) (sym (some_inj e))
        (ground (arith, verified, described))

  read_committed :
      (at : Surroundings B) (m : SnapshotManifest) (r : Request) (q q' : Queue)
      (result : PublishResult)
      → at.federation ≡ none
      → (m.epoch == 0) ≡ false
      → All (IsIntact parts at.artifacts) m.splits
      → all (λ k. has_key k at.artifacts) m.metadata_keys ≡ true
      → Commits parts at m r q (q', result)
      → get_snapshot parts at.artifacts m.table m.epoch q' ≡ snapshot_read m
  unfolding get_snapshot
  read_committed at m r q q' result alone numbered intact described done =
      let (_, _, _, _, _, stands) = done in
      read_stored at.artifacts m (selected parts m.table m.epoch q'.snapshot_records)
        (selected-key m.table m.epoch q'.snapshot_records numbered ∙ stands alone)
        (intact_all at.artifacts m.splits intact) described

  -- Without a federation and for an epoch other than 0, which asks for the newest: what
  -- `get_snapshot` returns after a publication, over the same objects, is the manifest that was
  -- published, with the dataset and the production time of its request.
  pub get-publish_snapshot :
      (now : ℕ) (at : Surroundings B) (id : String) (m : SnapshotManifest) (q q' : Queue)
      (r' : Request)
      → at.federation ≡ none
      → (m.epoch == 0) ≡ false
      → publish_snapshot parts now at id m q ≡ (q', published_as r')
      → (r : Request) × (lookup id q.requests ≡ some r)
        × (get_snapshot parts at.artifacts m.table m.epoch q'
            ≡ snapshot_read (stored_manifest parts m r q))
  unfolding payload_of
  get-publish_snapshot now at id m q q' r' alone numbered done =
      elim (publish_snapshot-IsSound parts now at id m q) [
        | inl (e, refused) ↦
            let clash : not_published e ≡ published_as r' = ap (λ x. x.1) (sym refused ∙ done) in cc
        | inr (r, found, ready, commits) ↦ (
          r,
          found,
          read_committed at (stored_manifest parts m r q) r q q' (published_as r') alone numbered
              ready.intact ready.described
              (subst (Commits parts at (stored_manifest parts m r q) r q) done commits),
        )
      ]
