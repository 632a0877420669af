-- ===== src/Lease/Fleet.antt =====
-- Several Managers over one store: every interleaving of their reads and swaps.
pub mod Exclusive
use fabric_shortcut_proxy.Prelude.{
  ℕ, ◌≤◌, ◌<◌, String, str_eq, str_eq_iff, ◌≡◌, ◌≢◌, ◌⊎◌, refl, true, false, Option, none, some,
  if◌then◌else◌, arith, Bool-cases, Option-cases, inl, inr, ap, ◌∙◌, subst,
}
use fabric_shortcut_proxy.Dict.{Dict}
use fabric_shortcut_proxy.Artifacts.Register.{Register}
use fabric_shortcut_proxy.Lease.Record.{
  LeaseRecord, Raw, object, non_object, undecodable, fence_of, owned_by, fence_is, new_record,
}
use fabric_shortcut_proxy.Lease.Leader.{
  LeaderLease, ok, lose, is_current, plan_for, Plan, failed, stand_by, take, decide, claim, hold,
  can_take, same_live_owner, Attempt, done, again, commit, carry_out,
}
use fabric_shortcut_proxy.Lease.Durable.{with_state}

-- The fence and the owner that the durable record shows.
abbrev pub cell_fence : Option Raw → ℕ
cell_fence (some (object r)) = fence_of r
cell_fence _ = 0

abbrev pub cell_owner : Option Raw → Option String
cell_owner (some (object r)) = r.owner_id
cell_owner _ = none

-- What `take` may write: a fence above the record's, or this owner's own record again.
abbrev pub Advances : String → Option Raw → ℕ → Type 0
Advances owner seen fence =
    (cell_fence seen < fence) ⊎ ((cell_fence seen ≡ fence) × (cell_owner seen ≡ some owner))

abbrev pub PlanAdvances : String → Option Raw → Plan → Type 0
PlanAdvances owner seen (take fence state) = Advances owner seen fence
PlanAdvances owner seen _ = Unit {0}

pub owned_by-owner :
    (owner : String) (r : LeaseRecord) → owned_by owner r ≡ true → r.owner_id ≡ some owner
unfolding owned_by
owned_by-owner owner r h = elim (Option-cases r.owner_id) [
  | inl absent ↦ ground arith
  | inr (o, named) ↦ ground (arith, str_eq_iff o owner)
]

plan-Advances :
    (l : LeaderLease) (now : ℕ) (r : LeaseRecord)
    → PlanAdvances l.owner_id (some (object r)) (plan_for l now (ok (some r)))
unfolding plan_for same_live_owner
plan-Advances l now r = elim (Bool-cases (can_take l r now)) [
  | inl free ↦ rw free (elim (Bool-cases (same_live_owner l r now)) [
    | inl mine ↦ rw mine (inr (refl, owned_by-owner l.owner_id r (ground arith)))
    | inr new ↦ rw new (inl (omega arith))
  ])
  | inr other ↦ rw other tt
]

pub decide-Advances :
    (fault : Option String) (l : LeaderLease) (now : ℕ) (seen : Option Raw)
    → PlanAdvances l.owner_id seen (decide fault l now seen)
unfolding decide
decide-Advances (some exc) l now seen = tt
decide-Advances none l now none = inl (omega arith)
decide-Advances none l now (some (object r)) = plan-Advances l now r
decide-Advances none l now (some (non_object _)) = tt
decide-Advances none l now (some (undecodable _)) = tt

abbrev pub update : String → LeaderLease → (String → LeaderLease) → String → LeaderLease
update o l m p = if str_eq o p then l else m p

module _ (reg : Register Raw) where
  pub record Fleet : Type 0 where
    pub store : reg.Store
    pub lease : String → LeaderLease

  unfoldable pub after : Fleet → String → Attempt reg.Store → Fleet
  after f o (done (l, s, true)) = record { store = s; lease = update o l f.lease }
  after f o (done (l, s, false)) = record f { lease = update o l f.lease }
  after f o (again s) = record f { store = s }

  -- One pass of a Manager. What it read (`seen`) is any earlier state of the store, or any other;
  -- what it writes goes through the swap at the store as it is now.
  pub data Step (f : Fleet) : Fleet → Type 0 where
    acquire :
        (o : String) (now : ℕ) (read_fault swap_fault : Option String) (seen : reg.Store)
        → Step f (
            after f o (
              carry_out reg swap_fault
                (λ _. f.store)
                now
                (f.lease o)
                seen
                (decide read_fault (f.lease o) now (reg.read seen))))
    mutate :
        (o name value : String) (now : ℕ) (r : LeaseRecord)
        → is_current (f.lease o).owner_id (f.lease o).fence (f.lease o).ttl_ms now r ≡ true
        → Step f (record f {
          store = (reg.swap (some (object r)) (object (with_state name value r)) f.store).0;
        })
    release :
        (o : String) (r : LeaseRecord)
        → owned_by (f.lease o).owner_id r ≡ true
        → fence_is (f.lease o).fence r ≡ true
        → Step f (record {
          store =
              (reg.swap
                (some (object r))
                (object (new_record "" 0 (f.lease o).ttl_ms (fence_of r) r.state))
                f.store).0;
          lease = update o (lose (f.lease o)) f.lease;
        })
    lapse : (o : String) → Step f (record f { lease = update o (lose (f.lease o)) f.lease })

  pub data Reach (f : Fleet) : Fleet → Type 0 where
    start : Reach f f
    next : {g h : Fleet} → Reach f g → Step g h → Reach f h

  abbrev pub fence_now : Fleet → ℕ
  fence_now f = cell_fence (reg.read f.store)

  -- Each Manager's own fence is at most the durable one, and only the durable owner has that one.
  pub record IsFenced (f : Fleet) : Type 0 where
    pub named : (o : String) → (f.lease o).owner_id ≡ o
    pub below : (o : String) → (f.lease o).fence ≤ fence_now f
    pub unique :
        (o : String)
        → 0 < (f.lease o).fence
        → (f.lease o).fence ≡ fence_now f
        → cell_owner (reg.read f.store) ≡ some o
    pub apart :
        (o p : String) → o ≢ p → 0 < (f.lease o).fence → (f.lease o).fence ≢ (f.lease p).fence

  pub swap-cases :
      (seen : Option Raw) (new : Raw) (s : reg.Store)
      → ((reg.read s ≡ seen)
          × (reg.read (reg.swap seen new s).0 ≡ some new)
          × ((reg.swap seen new s).1 ≡ true))
        ⊎ (((reg.swap seen new s).0 ≡ s) × ((reg.swap seen new s).1 ≡ false))
  swap-cases seen new s = elim (Bool-cases (reg.swap seen new s).1) [
    | inl won ↦ inl ((reg.swap_won seen new s won).0, (reg.swap_won seen new s won).1, won)
    | inr lost ↦ inr ((reg.swap_lost seen new s lost).1, lost)
  ]
