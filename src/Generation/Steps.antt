-- ===== src/Generation/Steps.antt =====
-- Any number of coordinators over one store: every interleaving of their reads and swaps.
use fabric_shortcut_proxy.Prelude.{
  ℕ, String, false, Option, some, List, ◌≡◌, sym, ◌∙◌, subst, Bool-cases, inl, inr,
}
use fabric_shortcut_proxy.Artifacts.Register.{Register}
use fabric_shortcut_proxy.Placement.{is_empty}
use fabric_shortcut_proxy.Generation.{
  TablePlan, GenerationContext, StoredRecord, object, returned, record_of, parsed,
}
use fabric_shortcut_proxy.Generation.Calls.{AcquireInput, acquire_claim, publish_claim, renew_claim}
use fabric_shortcut_proxy.Generation.History.{Later, Later-trans, Later-refl}
use fabric_shortcut_proxy.Generation.Claims.{shown, acquire-Later, publish-Later, renew-Later}

module _ (digest : List TablePlan → String) (reg : Register StoredRecord) where
  abbrev pub put_record : Option StoredRecord → GenerationContext → reg.Store → reg.Store
  put_record seen c s = (reg.swap seen (object (record_of c)) s).0

  -- The swap of one call. What the call read before, `first` and `seen`, is any earlier state of
  -- the record, or any other; the swap is at the store as it is now.
  pub data Step (s : reg.Store) : reg.Store → Type 0 where
    acquires :
        (i : AcquireInput) (seen : Option StoredRecord) (c : GenerationContext)
        → acquire_claim digest i seen ≡ returned c
        → Step s (put_record seen c s)
    publishes :
        (now : ℕ) (c : GenerationContext) (plans : List TablePlan)
        (first seen : Option StoredRecord) (d : GenerationContext)
        → publish_claim digest now c plans first seen ≡ returned d
        → Step s (put_record seen d s)
    renews :
        (now later_now seconds : ℕ) (c : GenerationContext) (first seen : Option StoredRecord)
        (d : GenerationContext)
        → renew_claim digest now later_now seconds c first seen ≡ returned d
        → Step s (put_record seen d s)

  pub data Reach (s : reg.Store) : reg.Store → Type 0 where
    start : Reach s s
    next : {t u : reg.Store} → Reach s t → Step t u → Reach s u

  pub Reach-trans : (s t u : reg.Store) → Reach s t → Reach t u → Reach s u
  Reach-trans s _ _ p start = p
  Reach-trans s t _ p (next {t = v} q step) = next (Reach-trans s t v p q) step

  abbrev pub LaterAt : GenerationContext → reg.Store → Type 0
  LaterAt r s =
      (r' : GenerationContext) × (reg.read s ≡ some (object r'))
      × Later (parsed digest r) (parsed digest r')

  -- What holds of the record that stands there, and of the one that is written over it, holds after
  -- the swap.
  pub put_record-read :
      (P : GenerationContext → Type 0) (seen : Option StoredRecord) (d r : GenerationContext)
      (s : reg.Store)
      → reg.read s ≡ some (object r)
      → P r
      → (seen ≡ some (object r) → P (record_of d))
      → (r' : GenerationContext) × (reg.read (put_record seen d s) ≡ some (object r')) × P r'
  put_record-read P seen d r s at stays claim =
      elim (Bool-cases (reg.swap seen (object (record_of d)) s).1) [
        | inl won ↦
            let (was, is) = reg.swap_won seen (object (record_of d)) s won in
            (record_of d, is, claim (sym was ∙ at))
        | inr lost ↦
            let (_, same) = reg.swap_lost seen (object (record_of d)) s lost in
            (r, rw same at, stays)
      ]

  put_record-LaterAt :
      (seen : Option StoredRecord) (d r : GenerationContext) (s : reg.Store)
      → reg.read s ≡ some (object r)
      → (seen ≡ some (object r) → Later (parsed digest r) (shown digest d))
      → LaterAt r (put_record seen d s)
  put_record-LaterAt seen d r s at claim =
      put_record-read (λ x. Later (parsed digest r) (parsed digest x)) seen d r s at
        (Later-refl (parsed digest r)) claim

  module _ (digest_not_empty : (plans : List TablePlan) → is_empty (digest plans) ≡ false) where
    Step-LaterAt :
        (s t : reg.Store) (r : GenerationContext)
        → reg.read s ≡ some (object r)
        → Step s t
        → LaterAt r t
    Step-LaterAt s t r at (acquires i seen c claim) = put_record-LaterAt seen c r s at (λ e.
        acquire-Later digest i r c (subst (λ x. acquire_claim digest i x ≡ returned c) e claim))
    Step-LaterAt s t r at (publishes now c plans first seen d claim) =
        put_record-LaterAt seen d r s at (λ e.
          publish-Later digest now c plans first r d
            (subst (λ x. publish_claim digest now c plans first x ≡ returned d) e claim))
    Step-LaterAt s t r at (renews now later_now seconds c first seen d claim) =
        put_record-LaterAt seen d r s at (λ e.
          renew-Later digest digest_not_empty now later_now seconds c first r d
            (subst (λ x. renew_claim digest now later_now seconds c first x ≡ returned d) e claim))

    -- Whatever calls are made by however many coordinators, in any order of their accesses: the
    -- record that stands there shows a newer generation than an earlier record, or the same one,
    -- with the same id, token and shards, and, once it is not being prepared any more, with the same
    -- state of its plan and the same recorded digest.
    pub generations_in_order :
        (s t : reg.Store) (r : GenerationContext)
        → reg.read s ≡ some (object r)
        → Reach s t
        → LaterAt r t
    generations_in_order s _ r at start = (r, at, Later-refl (parsed digest r))
    generations_in_order s _ r at (next {t = t} {u = u} run step) =
        let (r', at', later) = generations_in_order s t r at run in
        let (r'', at'', later') = Step-LaterAt t u r' at' step in
        (
          r'',
          at'',
          Later-trans (parsed digest r) (parsed digest r') (parsed digest r'') later later',
        )
