-- ===== src/Generation/Joined.antt =====
-- What a worker that joins gets.
use fabric_shortcut_proxy.Prelude.{
  ℕ, ◌<◌, String, str_eq_iff, Bool, true, false, Option, none, some, List, [], ◌∷◌, ◌≡◌, ◌⊎◌, refl,
  sym, ap, ◌∙◌, subst, if◌then◌else◌, ltb, ◌==◌, arith, Bool-cases, inl, inr, some_inj,
  Option-cases,
}
use mathlib.Core.List.{Memᴰ}
use fabric_shortcut_proxy.Generation.{
  ready, failed, active, preparing, TablePlan, GenerationContext, StoredRecord, object, invalid,
  planning_failed, digest_mismatch, Outcome, returned, raised, context_of, parsed,
}
use fabric_shortcut_proxy.Generation.Calls.{BuildState, of_plan, staging, Build}
use fabric_shortcut_proxy.Generation.History.{SameIds, state_is→path, returned_inj, if-returned}
use fabric_shortcut_proxy.Generation.Join.{
  Poll, in_state, is_open, failed_of, plan_matches, build_active, can_join, as_joined, join_read,
  join_found, join_poll, or_wait, join_generation,
}

as_joined-Same :
    (b : Build) (x : GenerationContext)
    → SameIds x (as_joined b x)
      × ((as_joined b x).expires_at_ms ≡ x.expires_at_ms)
      × ((as_joined b x).plan_sha256 ≡ x.plan_sha256)
unfolding as_joined
as_joined-Same b x = elim (Bool-cases (in_state active b.state)) [
  | inl is ↦ rw is (
    record { fences = refl; ids = refl; tokens = refl; shards = refl; versions = refl },
    refl,
    refl,
  )
  | inr not_it ↦ rw not_it (
    record { fences = refl; ids = refl; tokens = refl; shards = refl; versions = refl },
    refl,
    refl,
  )
]

is_active_build-path : (s : BuildState) → in_state active s ≡ true → s ≡ of_plan active
is_active_build-path (of_plan active) h = refl
is_active_build-path (of_plan ready) h = absurd cc
is_active_build-path (of_plan failed) h = absurd cc
is_active_build-path (of_plan preparing) h = absurd cc
is_active_build-path staging h = absurd cc

if-found :
    (t : Bool) (x : Outcome GenerationContext) (o : Option (Outcome GenerationContext))
    (c : GenerationContext)
    → (if t then some x else o) ≡ some (returned c)
    → (t ≡ true) × (x ≡ returned c) ⊎ (t ≡ false) × (o ≡ some (returned c))
if-found true x o c h = inl (refl, some_inj h)
if-found false x o c h = inr (refl, h)

if-open :
    (t : Bool) (o : Option (Outcome GenerationContext)) (c : GenerationContext)
    → (if t then o else none) ≡ some (returned c)
    → (t ≡ true) × (o ≡ some (returned c))
if-open true o c h = (refl, h)
if-open false o c h = absurd cc

-- What `can_join` tests, in plain terms.
can_join-live :
    (shard_count now : ℕ) (b : Build) (x : GenerationContext)
    → can_join shard_count now b x ≡ true
    → (x.shard_count ≡ shard_count)
      × (x.generation_id ≡ b.context.generation_id)
      × ((b.state ≡ of_plan active)
            × (b.context.lease_token ≡ x.lease_token)
            × (b.context.fence ≡ x.fence)
          ⊎ (now < x.expires_at_ms))
      × ((x.version ≡ 1) ⊎ (x.plan_state ≡ ready) × (b.context.plan_sha256 ≡ x.plan_sha256))
unfolding can_join build_active plan_matches
can_join-live shard_count now b x h = (
  ground (arith, h),
  ground (arith, h, str_eq_iff x.generation_id b.context.generation_id),
  elim (Bool-cases (ltb now x.expires_at_ms)) [
    | inl unexpired ↦ inr (ground arith)
    | inr over ↦ inl (
      is_active_build-path b.state (ground (arith, h, over)),
      ground (arith, h, over, str_eq_iff b.context.lease_token x.lease_token),
      ground (arith, h, over),
    )
  ],
  elim (Bool-cases (x.version == 1)) [
    | inl one ↦ inl (ground arith)
    | inr two ↦ inr (
      state_is→path x.plan_state ready (ground (arith, h, two)),
      ground (arith, h, two, str_eq_iff b.context.plan_sha256 x.plan_sha256),
    )
  ],
)

module _ (digest : List TablePlan → String) where
  -- What a poll shows when a worker takes the context `c` from it.
  pub record Admits (shard_count : ℕ) (p : Poll) (c : GenerationContext) : Type 0 where
    pub build : Build
    pub lease : GenerationContext
    pub build_there : p.build ≡ some build
    pub lease_there : p.lease ≡ some (object lease)
    pub reads : context_of digest lease ≡ returned (parsed digest lease)
    pub taken : c ≡ as_joined build (parsed digest lease)
    pub opened : is_open build.state ≡ true
    pub shards : c.shard_count ≡ shard_count
    pub same_id : c.generation_id ≡ build.context.generation_id
    pub live :
        (build.state ≡ of_plan active)
          × (build.context.lease_token ≡ c.lease_token)
          × (build.context.fence ≡ c.fence)
        ⊎ (p.now < c.expires_at_ms)
    pub same_plan :
        (c.version ≡ 1)
        ⊎ ((parsed digest lease).plan_state ≡ ready) × (build.context.plan_sha256 ≡ c.plan_sha256)

  context_of-parsed :
      (r x : GenerationContext) → context_of digest r ≡ returned x → (parsed digest r ≡ x)
  unfolding context_of
  context_of-parsed r x h = (if-returned _ digest_mismatch (parsed digest r) x h).1

  admitted :
      (shard_count : ℕ) (p : Poll) (b : Build) (r x c : GenerationContext)
      → p.build ≡ some b
      → p.lease ≡ some (object r)
      → context_of digest r ≡ returned x
      → is_open b.state ≡ true
      → can_join shard_count p.now b x ≡ true
      → as_joined b x ≡ c
      → Admits shard_count p c
  admitted shard_count p b r x c has_b has_r reads opened can is =
      let (shards, id, live, plan) = can_join-live shard_count p.now b x can in
      let (ids, expiry, sha) = as_joined-Same b x in
      let here = context_of-parsed r x reads in
      subst (Admits shard_count p) is (record {
        build = b;
        lease = r;
        build_there = has_b;
        lease_there = has_r;
        reads = reads ∙ ap returned (sym here);
        taken = ap (as_joined b) (sym here);
        opened = opened;
        shards = ids.shards ∙ shards;
        same_id = ids.ids ∙ id;
        live = elim live [
          | inl (is_act, token, fence) ↦
              inl (is_act, token ∙ sym ids.tokens, fence ∙ sym ids.fences)
          | inr unexpired ↦ inr (rw expiry unexpired)
        ];
        same_plan = elim plan [
          | inl one ↦ inl (ids.versions ∙ one)
          | inr (state, digests) ↦
              inr (ap (λ (y : GenerationContext). y.plan_state) here ∙ state, digests ∙ sym sha)
        ];
      })

  join_read-Admits :
      (shard_count : ℕ) (p : Poll) (b : Build) (r c : GenerationContext)
      (o : Outcome GenerationContext)
      → p.build ≡ some b
      → p.lease ≡ some (object r)
      → context_of digest r ≡ o
      → is_open b.state ≡ true
      → join_read shard_count p.now b o ≡ some (returned c)
      → Admits shard_count p c
  unfolding join_read
  join_read-Admits shard_count p b r c (raised e) has_b has_r reads opened h = absurd cc
  join_read-Admits shard_count p b r c (returned x) has_b has_r reads opened h =
      elim (if-found (can_join shard_count p.now b x) (returned (as_joined b x)) none c h) [
        | inl (can, is) ↦
            admitted shard_count p b r x c has_b has_r reads opened can (returned_inj is)
        | inr (_, never) ↦ absurd cc
      ]

  join_poll-Admits :
      (shard_count : ℕ) (p : Poll) (c : GenerationContext) (ob : Option Build)
      (ol : Option StoredRecord)
      → p.build ≡ ob
      → p.lease ≡ ol
      → join_poll digest shard_count p.now ob ol ≡ some (returned c)
      → Admits shard_count p c
  unfolding join_poll join_found
  join_poll-Admits shard_count p c none none has_b has_r h = absurd cc
  join_poll-Admits shard_count p c (some b) none has_b has_r h = absurd cc
  join_poll-Admits shard_count p c none (some (object r)) has_b has_r h = absurd cc
  join_poll-Admits shard_count p c none (some (invalid text)) has_b has_r h = absurd cc
  join_poll-Admits shard_count p c (some b) (some (invalid text)) has_b has_r h = absurd cc
  join_poll-Admits shard_count p c (some b) (some (object r)) has_b has_r h =
      elim (if-found (failed_of b r) (raised planning_failed) _ c h) [
        | inl (_, never) ↦ absurd cc
        | inr (_, h1) ↦
            let (opened, h2) = if-open (is_open b.state) _ c h1 in
            join_read-Admits shard_count p b r c (context_of digest r) has_b has_r refl opened h2
      ]

  -- A worker that joins took its context from one of its polls, in which the coordinator's record
  -- passes the test of its digest and has the worker's number of shards, the build record is of the
  -- same generation and open, the lease is live or that very build active, and, but for version 1,
  -- the plan is ready with the digest that the build record shows.
  pub join-Admits :
      (shard_count : ℕ) (ps : List Poll) (c : GenerationContext)
      → join_generation digest shard_count ps ≡ returned c
      → (p : Poll) × Memᴰ p ps × Admits shard_count p c
  unfolding join_generation or_wait
  join-Admits shard_count [] c h = absurd cc
  join-Admits shard_count (p ∷ ps) c h =
      elim (Option-cases (join_poll digest shard_count p.now p.build p.lease)) [
        | inl waits ↦
            let (q, there, admits) = join-Admits shard_count ps c (rw waits at h) in
            (q, Memᴰ.tail there, admits)
        | inr (o, found) ↦ (
          p,
          Memᴰ.head refl,
          join_poll-Admits shard_count p c p.build p.lease refl refl
              (found ∙ ap some (rw found at h)),
        )
      ]
