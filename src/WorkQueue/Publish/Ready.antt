-- ===== src/WorkQueue/Publish/Ready.antt =====
-- What `publish_snapshot` of enterprise/control/work_queue.py has checked when it publishes.
use fabric_shortcut_proxy.Prelude.{
  ℕ, ◌<◌, String, str_eq_iff, true, false, Option, none, some, List, [], ◌∷◌, ◌≡◌, arith,
  Option-cases, inl, inr, All, all, ltb→lt,
}
use fabric_shortcut_proxy.Dict.{Dict, lookup, has_key}
use fabric_shortcut_proxy.WorkQueue.Task.{succeeded, is_in, Task, Request}
use fabric_shortcut_proxy.WorkQueue.Queue.{SplitRef, SnapshotManifest, Queue}
use fabric_shortcut_proxy.WorkQueue.Answers.{Parts}
use fabric_shortcut_proxy.WorkQueue.Runnable.{HasAll}
use fabric_shortcut_proxy.WorkQueue.Recover.{has_missing}
use fabric_shortcut_proxy.WorkQueue.Publish.{
  LiveGeneration, Surroundings, same_identity, generation_allows, is_verified, refuse_publish,
}

has_missing-HasAll : (ids : List String) (d : Dict Task) → has_missing ids d ≡ false → HasAll ids d
unfolding has_missing
has_missing-HasAll [] d h = tt
has_missing-HasAll (id ∷ ids) d h =
    (ground (arith, h), has_missing-HasAll ids d (ground (arith, h)))

-- The generation in force, if there is one, is that of the manifest and has not run out.
abbrev pub IsInForce : ℕ → SnapshotManifest → Option LiveGeneration → Type 0
IsInForce now m none = Unit
IsInForce now m (some g) =
    (g.generation_id ≡ m.generation_id)
    × (g.fence ≡ m.generation_fence)
    × (g.plan_sha256 ≡ m.plan_sha256)
    × (now < g.expires_at_ms)

generation_allows-IsInForce :
    (now : ℕ) (m : SnapshotManifest) (o : Option LiveGeneration)
    → generation_allows now m o ≡ true
    → IsInForce now m o
unfolding generation_allows
generation_allows-IsInForce now m none h = tt
generation_allows-IsInForce now m (some g) h = (
  (str_eq_iff g.generation_id m.generation_id).0 (ground (arith, h)),
  ground (arith, h),
  (str_eq_iff g.plan_sha256 m.plan_sha256).0 (ground (arith, h)),
  ltb→lt now g.expires_at_ms (ground (arith, h)),
)

module _ {B : Type 0} (parts : Parts B) where
  -- The object that the manifest names is there, with its size and its digest.
  abbrev pub IsIntact : Dict B → SplitRef → Type 0
  IsIntact artifacts s =
      (b : B) × (lookup s.object_key artifacts ≡ some b)
      × (parts.size b ≡ s.size_bytes)
      × (parts.digest b ≡ s.content_hash)

  verified_at :
      (artifacts : Dict B) (s : SplitRef)
      → is_verified parts artifacts s ≡ true
      → IsIntact artifacts s
  unfolding is_verified
  verified_at artifacts s h = elim (Option-cases (lookup s.object_key artifacts)) [
    | inl absent ↦ ground (arith, absent, h)
    | inr (b, found) ↦ (
      b,
      found,
      ground (arith, found, h),
      (str_eq_iff (parts.digest b) s.content_hash).0 (ground (arith, found, h)),
    )
  ]

  verified_all :
      (artifacts : Dict B) (ss : List SplitRef)
      → all (is_verified parts artifacts) ss ≡ true
      → All (IsIntact artifacts) ss
  verified_all artifacts [] h = tt
  verified_all artifacts (s ∷ ss) h =
      (verified_at artifacts s (ground (arith, h)), verified_all artifacts ss (ground (arith, h)))

  -- What holds of the request `r` when the manifest `m` is published for it.
  pub record IsReady (now : ℕ) (at : Surroundings B) (id : String) (m : SnapshotManifest)
      (r : Request) (q : Queue) : Type 0 where
    pub finished : is_in r.state succeeded ≡ true
    pub named : same_identity id m r ≡ true
    pub in_force : IsInForce now m at.generation
    pub intact : All (IsIntact at.artifacts) m.splits
    pub described : all (λ k. has_key k at.artifacts) m.metadata_keys ≡ true
    pub whole : HasAll r.task_ids q.tasks

  pub refuse_publish-IsReady :
      (now : ℕ) (at : Surroundings B) (id : String) (m : SnapshotManifest) (r : Request) (q : Queue)
      → refuse_publish parts now at id m r q ≡ none
      → IsReady now at id m r q
  unfolding refuse_publish
  refuse_publish-IsReady now at id m r q h = record {
    finished = ground (arith, h);
    named = ground (arith, h);
    in_force = generation_allows-IsInForce now m at.generation (ground (arith, h));
    intact = verified_all at.artifacts m.splits (ground (arith, h));
    described = ground (arith, h);
    whole = has_missing-HasAll r.task_ids q.tasks (ground (arith, h));
  }
