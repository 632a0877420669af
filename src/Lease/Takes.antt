-- ===== src/Lease/Takes.antt =====
-- What `acquire_or_renew` of enterprise/control/lease.py may take over, in plain terms.
use fabric_shortcut_proxy.Prelude.{
  ℕ, ◌+◌, ◌≤◌, ◌<◌, String, str_eq_iff, ◌≡◌, ◌⊎◌, refl, ◌∙◌, ap, true, false, Option, none, some,
  if◌then◌else◌, arith, Bool-cases, Option-cases, inl, inr,
}
use fabric_shortcut_proxy.Dict.{Dict}
use fabric_shortcut_proxy.Lease.Record.{
  LeaseRecord, Raw, object, non_object, undecodable, fence_of, expired, ownerless,
}
use fabric_shortcut_proxy.Lease.Leader.{
  LeaderLease, Plan, failed, stand_by, take, can_take, same_live_owner, decide, plan_for, read_raw,
  parse,
}
use fabric_shortcut_proxy.Lease.Fleet.{owned_by-owner}
use mathlib.Core.Option

-- The last moment at which a record is live; one without a ttl has the reader's.
abbrev pub ends_at : LeaderLease → LeaseRecord → ℕ
ends_at l r = Option.get_or r.renew_ms 0 + Option.get_or r.ttl_ms l.ttl_ms

-- A live record of the owner keeps its fence. Another one is taken under the next fence: if it is
-- released, or past its ttl.
abbrev pub NextTerm : ℕ → LeaderLease → LeaseRecord → ℕ → Type 0
NextTerm now l r fence =
    (r.owner_id ≡ some l.owner_id) × (now ≤ ends_at l r) × (fence ≡ fence_of r)
    ⊎ ((r.owner_id ≡ none) ⊎ (r.owner_id ≡ some "") ⊎ (ends_at l r < now))
      × (fence ≡ fence_of r + 1)

-- What stands under the key when a term begins or is renewed, and the fence and state that the term
-- then has.
abbrev pub Takes : ℕ → LeaderLease → Option Raw → ℕ → Option (Dict String) → Type 0
Takes now l none fence state = (fence ≡ 1) × (state ≡ none)
Takes now l (some (object r)) fence state = NextTerm now l r fence × (state ≡ r.state)
Takes now l (some (non_object text)) fence state = ⊥
Takes now l (some (undecodable text)) fence state = ⊥

abbrev pub PlanTakes : ℕ → LeaderLease → Option Raw → Plan → Type 0
PlanTakes now l o (failed e) = Unit {0}
PlanTakes now l o stand_by = Unit {0}
PlanTakes now l o (take fence state) = Takes now l o fence state

ownerless-cases :
    (r : LeaseRecord) → ownerless r ≡ true → (r.owner_id ≡ none) ⊎ (r.owner_id ≡ some "")
unfolding ownerless
ownerless-cases r h = elim (Option-cases r.owner_id) [
  | inl absent ↦ inl absent
  | inr (o, named) ↦ inr (named ∙ ap some ((str_eq_iff o "").0 (ground (arith, h, named))))
]

mine_lem :
    (now : ℕ) (l : LeaderLease) (r : LeaseRecord)
    → same_live_owner l r now ≡ true
    → (r.owner_id ≡ some l.owner_id) × (now ≤ ends_at l r)
unfolding same_live_owner expired
mine_lem now l r h = (owned_by-owner l.owner_id r (ground (arith, h)), ground (arith, h))

taken_lem :
    (now : ℕ) (l : LeaderLease) (r : LeaseRecord)
    → can_take l r now ≡ true
    → same_live_owner l r now ≡ false
    → (r.owner_id ≡ none) ⊎ (r.owner_id ≡ some "") ⊎ (ends_at l r < now)
unfolding can_take
taken_lem now l r h other = elim (Bool-cases (ownerless r)) [
  | inl free ↦ elim (ownerless-cases r free) [ inl e ↦ inl e | inr e ↦ inr (inl e) ]
  | inr held ↦
      let over : expired l.ttl_ms r now ≡ true = ground (arith, h, other, held) in
      inr (inr (unfold expired in ground (arith, over)))
]

plan_for-NextTerm :
    (now : ℕ) (l : LeaderLease) (r : LeaseRecord)
    → can_take l r now ≡ true
    → NextTerm now l r (if same_live_owner l r now then fence_of r else fence_of r + 1)
plan_for-NextTerm now l r h = elim (Bool-cases (same_live_owner l r now)) [
  | inl mine ↦ let (owner, live) = mine_lem now l r mine in rw mine (inl (owner, live, refl))
  | inr other ↦ rw other (inr (taken_lem now l r h other, refl))
]

pub decide-PlanTakes :
    (fault : Option String) (l : LeaderLease) (now : ℕ) (o : Option Raw)
    → PlanTakes now l o (decide fault l now o)
unfolding decide read_raw parse plan_for
decide-PlanTakes (some exc) l now o = tt
decide-PlanTakes none l now none = (refl, refl)
decide-PlanTakes none l now (some (undecodable text)) = tt
decide-PlanTakes none l now (some (non_object text)) = tt
decide-PlanTakes none l now (some (object r)) = elim (Bool-cases (can_take l r now)) [
  | inl free ↦ rw free (plan_for-NextTerm now l r free, refl)
  | inr other ↦ rw other tt
]
