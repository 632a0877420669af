-- ===== src/Generation/Claims.antt =====
-- What a call writes, against the record that it read.
use fabric_shortcut_proxy.Prelude.{
  ℕ, ◌+◌, ◌*◌, String, true, false, not, Option, some, List, ◌≡◌, ◌⊎◌, refl, sym, ap, ◌∙◌, subst,
  ltb, arith, Bool-cases, inl, inr,
}
use fabric_shortcut_proxy.Placement.{is_empty}
use fabric_shortcut_proxy.Generation.{
  preparing, ready, state_is, TablePlan, GenerationContext, StoredRecord, object, digest_mismatch,
  changed_while_prepared, old_version, not_preparing, lost_before_renewal, returned, same_context,
  sort_plans, record_of, plan_digest, parsed, context_of,
}
use fabric_shortcut_proxy.Generation.Calls.{
  AcquireInput, assert_lease, check_request, new_generation, acquire_claim, planned, publish_seen,
  publish_claim, renew_seen, renew_claim, same_generation,
}
use fabric_shortcut_proxy.Generation.History.{
  SameIds, SameIds-trans, Later, returned_inj, then_do-returned, if-returned, unless-returned,
  state_is→path, same_context-SameIds, same_generation-SameIds, SameIds-sym,
}

module _ (digest : List TablePlan → String) where
  -- What the record of a context shows.
  abbrev pub shown : GenerationContext → GenerationContext
  shown c = parsed digest (record_of c)

  pub parsed-SameIds : (r : GenerationContext) → SameIds r (parsed digest r)
  unfolding parsed
  parsed-SameIds r = elim (Bool-cases (ltb r.version 2)) [
    | inl old ↦
        rw old (record { fences = refl; ids = refl; tokens = refl; shards = refl; versions = refl })
    | inr new ↦
        rw new (record { fences = refl; ids = refl; tokens = refl; shards = refl; versions = refl })
  ]

  pub record_of-SameIds : (c : GenerationContext) → SameIds c (record_of c)
  unfolding record_of
  record_of-SameIds c = elim (Bool-cases (ltb c.version 2)) [
    | inl old ↦
        rw old (record { fences = refl; ids = refl; tokens = refl; shards = refl; versions = refl })
    | inr new ↦
        rw new (record { fences = refl; ids = refl; tokens = refl; shards = refl; versions = refl })
  ]

  pub shown-SameIds : (c : GenerationContext) → SameIds c (shown c)
  shown-SameIds c =
      SameIds-trans c (record_of c) (shown c) (record_of-SameIds c) (parsed-SameIds (record_of c))

  context_of-returned :
      (r c : GenerationContext) → context_of digest r ≡ returned c → parsed digest r ≡ c
  unfolding context_of
  context_of-returned r c h = (if-returned _ digest_mismatch (parsed digest r) c h).1

  -- An acquisition is of a generation whose fence is the next one.
  pub acquire_claim-Later :
      (i : AcquireInput) (r c : GenerationContext)
      → acquire_claim digest i (some (object r)) ≡ returned c
      → c.fence ≡ r.fence + 1
  unfolding acquire_claim new_generation
  acquire_claim-Later i r c h = sym (ap (λ (x : GenerationContext). x.fence) (returned_inj h))

  pub acquire-Later :
      (i : AcquireInput) (r c : GenerationContext)
      → acquire_claim digest i (some (object r)) ≡ returned c
      → Later (parsed digest r) (shown c)
  acquire-Later i r c h =
      let next = acquire_claim-Later i r c h in
      let before = (parsed-SameIds r).fences in
      let after = (shown-SameIds c).fences in inl (omega arith)

  planned-SameIds :
      (c : GenerationContext) (plans : List TablePlan) → SameIds c (planned digest c plans)
  unfolding planned
  planned-SameIds c plans = record {
    fences = refl;
    ids = refl;
    tokens = refl;
    shards = refl;
    versions = refl;
  }

  -- A plan is published over the record of its own generation, which has no plan yet.
  publish_seen-Later :
      (c : GenerationContext) (plans : List TablePlan) (r d : GenerationContext)
      → c.plan_state ≡ preparing
      → publish_seen digest c plans (some (object r)) ≡ returned d
      → Later (parsed digest r) (shown d)
  unfolding publish_seen
  publish_seen-Later c plans r d prep h =
      let (p, is_p, rest) = then_do-returned (context_of digest r) _ d h in
      let (same, is_d) =
        if-returned (same_context p c) changed_while_prepared (planned digest c plans) d rest in
      let (ids, states) = same_context-SameIds p c same in
      let ends =
        SameIds-trans c d (shown d) (subst (SameIds c) is_d (planned-SameIds c plans))
          (shown-SameIds d) in
      subst (λ x. Later x (shown d)) (sym (context_of-returned r p is_p))
        (inr (
          SameIds-trans p c (shown d) (SameIds-sym c p ids) ends,
          λ settled. absurd (settled (states ∙ prep)),
        ))

  pub check_request-preparing :
      (c : GenerationContext) (plans : List TablePlan) (u : Unit)
      → check_request c plans ≡ returned u
      → (ltb c.version 2 ≡ false) × (c.plan_state ≡ preparing)
  unfolding check_request
  check_request-preparing c plans u h =
      let (new, h1) = unless-returned (ltb c.version 2) old_version _ u h in
      let (prep, h2) =
        unless-returned (not (state_is c.plan_state preparing)) not_preparing _ u h1 in
      (new, state_is→path c.plan_state preparing (ground (arith, prep)))

  -- The record that a published plan replaces has no plan.
  pub published_over_preparing :
      (now : ℕ) (c : GenerationContext) (plans : List TablePlan) (first : Option StoredRecord)
      (r d : GenerationContext)
      → publish_claim digest now c plans first (some (object r)) ≡ returned d
      → (parsed digest r).plan_state ≡ preparing
  unfolding publish_claim publish_seen
  published_over_preparing now c plans first r d h =
      let (u, held, h1) = then_do-returned (assert_lease now c first) _ d h in
      let (v, asked, h2) = then_do-returned (check_request c (sort_plans plans)) _ d h1 in
      let (p, is_p, rest) = then_do-returned (context_of digest r) _ d h2 in
      let (same, _) =
        if-returned (same_context p c) changed_while_prepared (planned digest c (sort_plans plans))
          d rest in
      ap (λ (x : GenerationContext). x.plan_state) (context_of-returned r p is_p)
      ∙ (same_context-SameIds p c same).1
      ∙ (check_request-preparing c (sort_plans plans) v asked).1

  pub publish-Later :
      (now : ℕ) (c : GenerationContext) (plans : List TablePlan) (first : Option StoredRecord)
      (r d : GenerationContext)
      → publish_claim digest now c plans first (some (object r)) ≡ returned d
      → Later (parsed digest r) (shown d)
  unfolding publish_claim
  publish-Later now c plans first r d h =
      let (u, held, h1) = then_do-returned (assert_lease now c first) _ d h in
      let (v, asked, h2) = then_do-returned (check_request c (sort_plans plans)) _ d h1 in
      publish_seen-Later c (sort_plans plans) r d
        (check_request-preparing c (sort_plans plans) v asked).1 h2

  module _ (digest_not_empty : (plans : List TablePlan) → is_empty (digest plans) ≡ false) where
    -- The digest of a context that was read is there, but for version 1, where it is not.
    parsed-plan :
        (r : GenerationContext)
        → ((ltb r.version 2 ≡ true)
            × ((parsed digest r).plan_state ≡ ready)
            × ((parsed digest r).plan_sha256 ≡ ""))
          ⊎ (ltb r.version 2 ≡ false) × (is_empty (parsed digest r).plan_sha256 ≡ false)
    unfolding parsed plan_digest
    parsed-plan r = elim (Bool-cases (ltb r.version 2)) [
      | inl old ↦ rw old (inl (refl, refl, refl))
      | inr new ↦ elim (Bool-cases (is_empty r.plan_sha256)) [
        | inl blank ↦ rw (new, blank) (inr (refl, digest_not_empty (sort_plans r.table_plans)))
        | inr full ↦ rw (new, full) (inr (refl, full))
      ]
    ]

    shown-plan :
        (c : GenerationContext)
        → (ltb c.version 2 ≡ false)
        → (is_empty c.plan_sha256 ≡ false)
        → ((shown c).plan_state ≡ c.plan_state) × ((shown c).plan_sha256 ≡ c.plan_sha256)
    unfolding parsed record_of
    shown-plan c new full = rw (new, new, full) (refl, refl)

    shown-old :
        (c : GenerationContext)
        → (ltb c.version 2 ≡ true)
        → ((shown c).plan_state ≡ ready) × ((shown c).plan_sha256 ≡ "")
    unfolding parsed record_of
    shown-old c old = rw (old, old) (refl, refl)

    plan_kept :
        (r c d : GenerationContext)
        → SameIds c (parsed digest r)
        → SameIds c d
        → ((parsed digest r).plan_state ≡ c.plan_state)
          × ((parsed digest r).plan_sha256 ≡ c.plan_sha256)
        → (d.plan_state ≡ c.plan_state) × (d.plan_sha256 ≡ c.plan_sha256)
        → ((shown d).plan_state ≡ (parsed digest r).plan_state)
          × ((shown d).plan_sha256 ≡ (parsed digest r).plan_sha256)
    plan_kept r c d ids ends (state, sha) (state', sha') =
        let version : d.version ≡ r.version =
          ends.versions ∙ sym ids.versions ∙ (parsed-SameIds r).versions in
        elim (parsed-plan r) [
          | inl (old, is_ready, is_blank) ↦
              let (e, f) = shown-old d (ap (λ n. ltb n 2) version ∙ old) in
              (e ∙ sym is_ready, f ∙ sym is_blank)
          | inr (new, full) ↦
              let (e, f) =
                shown-plan d (ap (λ n. ltb n 2) version ∙ new)
                  (ap is_empty (sha' ∙ sym sha) ∙ full) in
              (e ∙ state' ∙ sym state, f ∙ sha' ∙ sym sha)
        ]

    renew_seen-Later :
        (c d : GenerationContext) (r e : GenerationContext)
        → SameIds c d
        → (d.plan_state ≡ c.plan_state) × (d.plan_sha256 ≡ c.plan_sha256)
        → renew_seen digest c d (some (object r)) ≡ returned e
        → Later (parsed digest r) (shown e)
    unfolding renew_seen
    renew_seen-Later c d r e ends plan h =
        let (p, is_p, rest) = then_do-returned (context_of digest r) _ e h in
        let (same, is_e) = if-returned (same_generation p c) lost_before_renewal d e rest in
        let here = context_of-returned r p is_p in
        let (ids, states, digests) = same_generation-SameIds (parsed digest r) c (rw here same) in
        subst (λ x. Later (parsed digest r) (shown x)) is_e
          (inr (
            SameIds-trans (parsed digest r) c (shown d) (SameIds-sym c (parsed digest r) ids)
                (SameIds-trans c d (shown d) ends (shown-SameIds d)),
            λ settled. plan_kept r c d ids ends (states, digests) plan,
          ))

    pub renew-Later :
        (now later_now seconds : ℕ) (c : GenerationContext) (first : Option StoredRecord)
        (r d : GenerationContext)
        → renew_claim digest now later_now seconds c first (some (object r)) ≡ returned d
        → Later (parsed digest r) (shown d)
    unfolding renew_claim
    renew-Later now later_now seconds c first r d h =
        let (u, held, h1) = then_do-returned (assert_lease now c first) _ d h in
        renew_seen-Later c (record c { expires_at_ms = later_now + seconds * 1000 }) r d
          (record { fences = refl; ids = refl; tokens = refl; shards = refl; versions = refl })
          (refl, refl) h1
