-- ===== src/Generation/Published.antt =====
-- A plan that is published is what a worker joins.
use fabric_shortcut_proxy.Prelude.{
  ℕ, ◌<◌, String, str_eq_iff, Bool, true, false, Option, none, some, List, ◌∷◌, ◌≡◌, refl, sym, ap,
  ◌∙◌, subst, ltb, arith,
}
use fabric_shortcut_proxy.Artifacts.Register.{Register}
use fabric_shortcut_proxy.Generation.{
  ready, state_is, TablePlan, GenerationContext, StoredRecord, object, invalid, Outcome, returned,
  raised, context_of, same_context, record_of, sort_plans, changed_while_published,
  changed_while_prepared,
}
use fabric_shortcut_proxy.Generation.Calls.{
  of_plan, Build, assert_lease, check_request, publish_seen, publish_claim, planned,
}
use fabric_shortcut_proxy.Generation.Runs.{
  State, Others, publish_plan, publish_with, after_publish, confirm_published, build_of,
}
use fabric_shortcut_proxy.Generation.History.{same_context-SameIds, if-returned, then_do-returned}
use fabric_shortcut_proxy.Generation.Claims.{check_request-preparing}
use fabric_shortcut_proxy.Generation.Join.{
  Poll, failed_of, plan_matches, can_join, as_joined, join_read, join_found, join_poll, or_wait,
  join_generation,
}

module _ (digest : List TablePlan → String) where
  -- The context of a published plan is ready, and not of version 1.
  publish_seen-ready :
      (c : GenerationContext) (plans : List TablePlan) (seen : Option StoredRecord)
      (d : GenerationContext)
      → publish_seen digest c plans seen ≡ returned d
      → planned digest c plans ≡ d
  unfolding publish_seen
  publish_seen-ready c plans none d h = absurd cc
  publish_seen-ready c plans (some (invalid text)) d h = absurd cc
  publish_seen-ready c plans (some (object r)) d h =
      let (p, is_p, rest) = then_do-returned (context_of digest r) _ d h in
      (if-returned (same_context p c) changed_while_prepared (planned digest c plans) d rest).1

  publish_claim-ready :
      (now : ℕ) (c : GenerationContext) (plans : List TablePlan) (first seen : Option StoredRecord)
      (d : GenerationContext)
      → publish_claim digest now c plans first seen ≡ returned d
      → (ltb d.version 2 ≡ false) × (d.plan_state ≡ ready)
  unfolding publish_claim planned
  publish_claim-ready now c plans first seen d h =
      let (u, held, h1) = then_do-returned (assert_lease now c first) _ d h in
      let (v, asked, h2) = then_do-returned (check_request c (sort_plans plans)) _ d h1 in
      let is = publish_seen-ready c (sort_plans plans) seen d h2 in
      (
        subst (λ (x : GenerationContext). ltb x.version 2 ≡ false) is
            (check_request-preparing digest c (sort_plans plans) v asked).0,
        sym (ap (λ (x : GenerationContext). x.plan_state) is),
      )

  -- What stands in the store after a plan was published.
  pub record Stands (c : GenerationContext) (lease : Option StoredRecord) : Type 0 where
    pub raw : GenerationContext
    pub read : GenerationContext
    pub there : lease ≡ some (object raw)
    pub reads : context_of digest raw ≡ returned read
    pub same : same_context read c ≡ true

  confirm_published-Stands :
      (c d : GenerationContext) (lease : Option StoredRecord)
      → confirm_published digest c lease ≡ returned d
      → (c ≡ d) × Stands c lease
  unfolding confirm_published
  confirm_published-Stands c d none h = absurd cc
  confirm_published-Stands c d (some (invalid text)) h = absurd cc
  confirm_published-Stands c d (some (object r)) h =
      let (x, reads, rest) = then_do-returned (context_of digest r) _ d h in
      let (same, is) = if-returned (same_context x c) changed_while_published c d rest in
      (is, record { raw = r; read = x; there = refl; reads = reads; same = same })

  record_of-new :
      (c : GenerationContext)
      → ltb c.version 2 ≡ false
      → record_of c ≡ record c { table_plans = sort_plans c.table_plans }
  unfolding record_of
  record_of-new c new = rw new refl

  -- A worker can join what was published.
  can_join-published :
      (now : ℕ) (c x : GenerationContext)
      → (ltb c.version 2 ≡ false)
      → c.plan_state ≡ ready
      → same_context x c ≡ true
      → now < c.expires_at_ms
      → can_join c.shard_count now (build_of c) x ≡ true
  unfolding can_join plan_matches same_context
  can_join-published now c x new is_ready same live =
      let states = (same_context-SameIds x c same).1 ∙ is_ready in
      let state : state_is x.plan_state ready ≡ true = rw states refl in
      rw (record_of-new c new) (
        ground (
          arith,
          new,
          same,
          live,
          state,
          str_eq_iff c.plan_sha256 x.plan_sha256,
          str_eq_iff x.plan_sha256 c.plan_sha256,
        ))

  join_found-open :
      (shard_count now : ℕ) (b : Build) (r x : GenerationContext)
      → b.state ≡ of_plan ready
      → context_of digest r ≡ returned x
      → can_join shard_count now b x ≡ true
      → join_found digest shard_count now b r ≡ some (returned x)
  unfolding join_found join_read failed_of as_joined
  join_found-open shard_count now b r x is_ready reads can = rw (reads, can, is_ready) refl

  join_poll-published :
      (now : ℕ) (c : GenerationContext) (lease : Option StoredRecord) (stands : Stands c lease)
      → (ltb c.version 2 ≡ false)
      → c.plan_state ≡ ready
      → now < c.expires_at_ms
      → join_poll digest c.shard_count now (some (build_of c)) lease ≡ some (returned stands.read)
  unfolding join_poll
  join_poll-published now c lease stands new is_ready live = rw stands.there (
      join_found-open c.shard_count now (build_of c) stands.raw stands.read (ap of_plan is_ready)
        stands.reads (can_join-published now c stands.read new is_ready stands.same live))

  module _ (reg : Register StoredRecord) where
    -- What `publish_generation_plan` leaves when it returns.
    record Leaves (c d : GenerationContext) (s : State digest reg) : Type 0 where
      same : c ≡ d
      stands : Stands c (reg.read s.coordinator)
      built : s.build ≡ some (build_of c)

    after_publish-Leaves :
        (o : Others digest reg) (c d : GenerationContext) (s : State digest reg)
        (w : reg.Store × Bool)
        → ((x : State digest reg) → o.after x ≡ x)
        → (after_publish digest reg o c s w).1 ≡ returned d
        → Leaves c d (after_publish digest reg o c s w).0
    unfolding after_publish
    after_publish-Leaves o c d s (t, false) quiet h = absurd cc
    after_publish-Leaves o c d s (t, true) quiet h =
        let later : State digest reg = record { coordinator = t; build = some (build_of c) } in
        let (same, stands) =
          confirm_published-Stands c d (reg.read (o.after later).coordinator) h in
        record {
          same = same;
          stands = stands;
          built = ap (λ (x : State digest reg). x.build) (quiet later);
        }

    publish_with-Leaves :
        (o : Others digest reg) (seen : Option StoredRecord) (claim : Outcome GenerationContext)
        (d : GenerationContext) (s : State digest reg)
        → ((x : State digest reg) → o.after x ≡ x)
        → (publish_with digest reg o seen claim s).1 ≡ returned d
        → (claim ≡ returned d) × Leaves d d (publish_with digest reg o seen claim s).0
    unfolding publish_with
    publish_with-Leaves o seen (raised e) d s quiet h = absurd cc
    publish_with-Leaves o seen (returned c) d s quiet h =
        let leaves = after_publish-Leaves o c d (o.between s) _ quiet h in
        (
          ap returned leaves.same,
          subst (λ x. Leaves x d (publish_with digest reg o seen (returned c) s).0) leaves.same
              leaves,
        )

    -- When `publish_generation_plan` returns a context and nobody writes after its swap, then a
    -- worker with that number of shards that polls before the lease runs out joins at once, with an
    -- equal context, whatever came before.
    pub published_plan_joined :
        (o : Others digest reg) (now poll_now : ℕ) (c d : GenerationContext)
        (plans : List TablePlan) (s : State digest reg) (polls : List Poll)
        → ((x : State digest reg) → o.after x ≡ x)
        → (publish_plan digest reg o now c plans s).1 ≡ returned d
        → poll_now < d.expires_at_ms
        → let s' = (publish_plan digest reg o now c plans s).0 in
          (x : GenerationContext) × (same_context x d ≡ true)
          × (join_generation digest d.shard_count (
                record { build = s'.build; lease = reg.read s'.coordinator; now = poll_now }
                ∷ polls)
              ≡ returned x)
    unfolding publish_plan join_generation or_wait
    published_plan_joined o now poll_now c d plans s polls quiet published live =
        let (claim, leaves) = publish_with-Leaves o _ _ d (o.early s) quiet published in
        let (new, is_ready) =
          publish_claim-ready now c plans _ (reg.read (o.early s).coordinator) d claim in
        let joins = join_poll-published poll_now d _ leaves.stands new is_ready live in
        (leaves.stands.read, leaves.stands.same, rw (leaves.built, joins) refl)
