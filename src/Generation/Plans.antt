-- ===== src/Generation/Plans.antt =====
-- The table plans of a generation in src/fabric_shortcut_proxy/runtime/generation.py: what a renewal
-- writes of them.
use fabric_shortcut_proxy.Prelude.{
  String, [], ℕ, ◌+◌, ◌*◌, ◌<◌, str_eq_iff, true, false, Option, some, List, ◌≡◌, ◌≢◌, ◌⊎◌, refl,
  sym, ap, ◌∙◌, subst, ltb, arith, Bool-cases, inl, inr,
}
use fabric_shortcut_proxy.Artifacts.Register.{Register}
use fabric_shortcut_proxy.Placement.{is_empty}
use fabric_shortcut_proxy.Generation.{
  preparing, TablePlan, GenerationContext, StoredRecord, object, digest_mismatch,
  lost_before_renewal, returned, sort_plans, record_of, plan_digest, parsed, context_of,
}
use fabric_shortcut_proxy.Generation.Calls.{
  AcquireInput, assert_lease, acquire_claim, publish_claim, renew_seen, renew_claim,
  same_generation,
}
use fabric_shortcut_proxy.Generation.History.{
  Later, Later-trans, Later-refl, Later-fence, then_do-returned, if-returned,
  same_generation-SameIds,
}
use fabric_shortcut_proxy.Generation.Claims.{
  shown, published_over_preparing, acquire_claim-Later, acquire-Later, publish-Later, renew-Later,
  parsed-SameIds, shown-SameIds,
}
use fabric_shortcut_proxy.Generation.Steps.{
  put_record-read, Step, acquires, publishes, renews, Reach, start, next,
}

module _ (digest : List TablePlan → String) where
  -- A context as the coordinator's calls return it: its plans are in order and have its digest.
  abbrev pub HoldsPlan : GenerationContext → Type 0
  HoldsPlan c =
      (ltb c.version 2 ≡ true)
      ⊎ (sort_plans c.table_plans ≡ c.table_plans)
        × (c.plan_sha256 ≡ plan_digest digest c.table_plans)

  -- Once a generation has a plan, its table plans keep their digest.
  abbrev pub KeepsPlans : GenerationContext → GenerationContext → Type 0
  KeepsPlans c d =
      d.fence ≡ c.fence
      → c.plan_state ≢ preparing
      → plan_digest digest d.table_plans ≡ plan_digest digest c.table_plans

  abbrev pub InOrder : GenerationContext → GenerationContext → Type 0
  InOrder c d = Later c d × KeepsPlans c d

  InOrder-refl : (c : GenerationContext) → InOrder c c
  InOrder-refl c = (Later-refl c, λ same settled. refl)

  same_state :
      (c d : GenerationContext)
      → Later c d
      → d.fence ≡ c.fence
      → c.plan_state ≢ preparing
      → d.plan_state ≡ c.plan_state
  same_state c d (inl newer) same settled = absurd (omega (arith, newer, same))
  same_state c d (inr (ids, kept)) same settled = (kept settled).0

  InOrder-trans : (a b c : GenerationContext) → InOrder a b → InOrder b c → InOrder a c
  InOrder-trans a b c (p, k) (q, l) = (
    Later-trans a b c p q,
    λ same settled.
        (let first : b.fence ≡ a.fence =
            omega (arith, Later-fence a b p, Later-fence b c q, same) in
          let state = same_state a b p first settled in
          l (same ∙ sym first) (λ e. settled (sym state ∙ e)) ∙ k first settled),
  )

  plans_old : (c : GenerationContext) → ltb c.version 2 ≡ true → (parsed digest c).table_plans ≡ []
  unfolding parsed
  plans_old c old = rw old refl

  plans_new :
      (c : GenerationContext)
      → ltb c.version 2 ≡ false
      → (parsed digest c).table_plans ≡ c.table_plans
  unfolding parsed
  plans_new c new = rw new refl

  shown_new :
      (c : GenerationContext)
      → ltb c.version 2 ≡ false
      → (shown digest c).table_plans ≡ sort_plans c.table_plans
  unfolding parsed record_of
  shown_new c new = rw (new, new) refl

  shown_old : (c : GenerationContext) → ltb c.version 2 ≡ true → (shown digest c).table_plans ≡ []
  unfolding parsed record_of
  shown_old c old = rw (old, old) refl

  -- What a context that passed its test says of the record.
  tested :
      (r p : GenerationContext)
      → context_of digest r ≡ returned p
      → ltb r.version 2 ≡ false
      → (parsed digest r).plan_sha256 ≡ plan_digest digest r.table_plans
  unfolding context_of
  tested r p h new =
      let (test, _) = if-returned _ digest_mismatch (parsed digest r) p h in
      (str_eq_iff (parsed digest r).plan_sha256 (plan_digest digest r.table_plans)).0
        (ground (arith, test, new))

  -- What a renewal writes has plans of the digest that those it read have.
  renewed_plans :
      (r c : GenerationContext) (d : GenerationContext)
      → HoldsPlan c
      → (d.version ≡ r.version)
      → (c.version ≡ r.version)
      → (d.table_plans ≡ c.table_plans)
      → (ltb r.version 2 ≡ false → plan_digest digest r.table_plans ≡ c.plan_sha256)
      → plan_digest digest (shown digest d).table_plans
        ≡ plan_digest digest (parsed digest r).table_plans
  renewed_plans r c d holds version theirs plans digests = elim (Bool-cases (ltb r.version 2)) [
    | inl old ↦
        ap (plan_digest digest)
          (shown_old d (ap (λ n. ltb n 2) version ∙ old) ∙ sym (plans_old r old))
    | inr new ↦ elim holds [
      | inl old ↦ absurd (ground (arith, new, old, ap (λ n. ltb n 2) theirs))
      | inr (sorted, sha) ↦
          ap (plan_digest digest)
            (shown_new d (ap (λ n. ltb n 2) version ∙ new) ∙ ap sort_plans plans ∙ sorted)
          ∙ sym sha
          ∙ sym (digests new)
          ∙ sym (ap (plan_digest digest) (plans_new r new))
    ]
  ]

  renew-KeepsPlans :
      (now later_now seconds : ℕ) (c : GenerationContext) (first : Option StoredRecord)
      (r d : GenerationContext)
      → HoldsPlan c
      → renew_claim digest now later_now seconds c first (some (object r)) ≡ returned d
      → KeepsPlans (parsed digest r) (shown digest d)
  unfolding renew_claim renew_seen
  renew-KeepsPlans now later_now seconds c first r d holds h =
      let e : GenerationContext = record c { expires_at_ms = later_now + seconds * 1000 } in
      let (u, held, h1) = then_do-returned (assert_lease now c first) _ d h in
      let (p, is_p, rest) = then_do-returned (context_of digest r) _ d h1 in
      let (same, is_d) = if-returned (same_generation p c) lost_before_renewal e d rest in
      let here : parsed digest r ≡ p =
        unfold context_of in (if-returned _ digest_mismatch (parsed digest r) p is_p).1 in
      let (ids, states, digests) = same_generation-SameIds (parsed digest r) c (rw here same) in
      let theirs : c.version ≡ r.version = sym ids.versions ∙ (parsed-SameIds digest r).versions in
      λ fences settled.
        (subst
          (λ x.
            plan_digest digest (shown digest x).table_plans
            ≡ plan_digest digest (parsed digest r).table_plans)
          is_d
          (renewed_plans r c e holds theirs theirs refl
            (λ new. sym (tested r p is_p new) ∙ digests)))

  module _ (reg : Register StoredRecord) where
    -- A renewal is made with a context that a call has returned.
    abbrev pub IsHonest : {s t : reg.Store} → Step digest reg s t → Type 0
    IsHonest (acquires i seen c claim) = Unit
    IsHonest (publishes now c plans first seen d claim) = Unit
    IsHonest (renews now later_now seconds c first seen d claim) = HoldsPlan c

    abbrev pub AllHonest : {s t : reg.Store} → Reach digest reg s t → Type 0
    AllHonest start = Unit
    AllHonest (next run step) = AllHonest run × IsHonest step

    abbrev pub InOrderAt : GenerationContext → reg.Store → Type 0
    InOrderAt r s =
        (r' : GenerationContext) × (reg.read s ≡ some (object r'))
        × InOrder (parsed digest r) (parsed digest r')

    newer-KeepsPlans : (c d : GenerationContext) → c.fence < d.fence → KeepsPlans c d
    newer-KeepsPlans c d newer = λ same settled. absurd (omega (arith, newer, same))

    acquire-InOrder :
        (i : AcquireInput) (r c : GenerationContext)
        → acquire_claim digest i (some (object r)) ≡ returned c
        → InOrder (parsed digest r) (shown digest c)
    acquire-InOrder i r c claim =
        let next_fence = acquire_claim-Later digest i r c claim in
        let before = (parsed-SameIds digest r).fences in
        let after = (shown-SameIds digest c).fences in
        (
          acquire-Later digest i r c claim,
          newer-KeepsPlans (parsed digest r) (shown digest c)
              (omega (arith, next_fence, before, after)),
        )

    publish-InOrder :
        (now : ℕ) (c : GenerationContext) (plans : List TablePlan) (first : Option StoredRecord)
        (r d : GenerationContext)
        → publish_claim digest now c plans first (some (object r)) ≡ returned d
        → InOrder (parsed digest r) (shown digest d)
    publish-InOrder now c plans first r d claim = (
      publish-Later digest now c plans first r d claim,
      λ same settled.
          absurd (settled (published_over_preparing digest now c plans first r d claim)),
    )

    module _ (digest_not_empty : (plans : List TablePlan) → is_empty (digest plans) ≡ false) where
      Step-InOrderAt :
          (s t : reg.Store) (r : GenerationContext)
          → reg.read s ≡ some (object r)
          → (step : Step digest reg s t) → IsHonest step
          → InOrderAt r t
      Step-InOrderAt s t r at (acquires i seen c claim) honest =
          put_record-read digest reg (λ x. InOrder (parsed digest r) (parsed digest x)) seen c r s
            at (InOrder-refl (parsed digest r))
            (λ e.
              acquire-InOrder i r c (subst (λ x. acquire_claim digest i x ≡ returned c) e claim))
      Step-InOrderAt s t r at (publishes now c plans first seen d claim) honest =
          put_record-read digest reg (λ x. InOrder (parsed digest r) (parsed digest x)) seen d r s
            at (InOrder-refl (parsed digest r))
            (λ e.
              publish-InOrder now c plans first r d
                (subst (λ x. publish_claim digest now c plans first x ≡ returned d) e claim))
      Step-InOrderAt s t r at (renews now later_now seconds c first seen d claim) honest =
          put_record-read digest reg (λ x. InOrder (parsed digest r) (parsed digest x)) seen d r s
            at (InOrder-refl (parsed digest r))
            (λ e.
              (let renewed =
                  subst (λ x. renew_claim digest now later_now seconds c first x ≡ returned d) e
                    claim in
                (
                  renew-Later digest digest_not_empty now later_now seconds c first r d renewed,
                  renew-KeepsPlans now later_now seconds c first r d honest renewed,
                )))

      -- Whatever calls are made by however many coordinators, in any order of their accesses, where
      -- each renewal is given a context as the calls return it, its plans in order and with its
      -- digest: a later record is of a newer generation, or of the same one; and if that had its
      -- plan, the table plans in the record have the digest that they had.
      pub plans_kept :
          (s t : reg.Store) (r : GenerationContext)
          → reg.read s ≡ some (object r)
          → (run : Reach digest reg s t) → AllHonest run
          → InOrderAt r t
      plans_kept s _ r at start honest = (r, at, InOrder-refl (parsed digest r))
      plans_kept s _ r at (next {t = t} {u = u} run step) honest =
          let (r', at', later) = plans_kept s t r at run honest.0 in
          let (r'', at'', later') = Step-InOrderAt t u r' at' step honest.1 in
          (
            r'',
            at'',
            InOrder-trans (parsed digest r) (parsed digest r') (parsed digest r'') later later',
          )
