-- ===== src/Registry/Invariant.antt =====
-- The invariant of the registry, and how a call ends that changes its agents.
use fabric_shortcut_proxy.Prelude.{
  ℕ, ◌≤◌, String, str_eq, str_eq_iff, str_eq_refl, true, false, Option, none, some, List, [], ◌∷◌,
  ◌≡◌, refl, sym, ap, ◌∙◌, arith, All, All-imp, Bool-cases, inl, inr, ◌⊎◌, some_inj, subst,
}
use fabric_shortcut_proxy.Dict.{Dict, lookup, IsDistinct, IsDistinct-insert, All-lookup, has_key}
use fabric_shortcut_proxy.Placement.{
  PlacementConfig, pool_for_identity, VersionError, agent_version_unsupported, unknown_ring,
}
use fabric_shortcut_proxy.Registry.{AgentRecord, AgentSnapshot, Registry, Readers, Write}
use fabric_shortcut_proxy.Registry.Snapshot.{
  placed, snapshot, restored, restore_agents, restore, persist, add_restored, version_of,
  bind_agents, keep_or,
}
use fabric_shortcut_proxy.Registry.Calls.{commit_agents}
use fabric_shortcut_proxy.Registry.Undo.{IsSettled, shifted, placed_in-shifted, lookup-restored}
use mathlib.Core.Option

pub record IsWell (read : Readers) (now : ℕ) (r : Registry) : Type 0 where
  pub distinct : IsDistinct r.agents
  pub settled : All (IsSettled read r.placement now) r.agents

pub IsSettled-later :
    (read : Readers) (c : PlacementConfig) (now later : ℕ) (e : String × AgentRecord)
    → now ≤ later
    → IsSettled read c now e
    → IsSettled read c later e
IsSettled-later read c now later e le h = record {
  named = h.named;
  supported = h.supported;
  in_place = h.in_place;
  sorted = h.sorted;
  registered_before = omega (arith, le, h.registered_before);
  seen_before = omega (arith, le, h.seen_before);
}

pub shifted-IsSettled :
    (read : Readers) (c : PlacementConfig) (now later : ℕ) (id : String) (a : AgentRecord)
    → IsSettled read c now (id, a)
    → IsSettled read c later (id, shifted now later a)
unfolding shifted placed
shifted-IsSettled read c now later id a h = record {
  named = h.named;
  supported = h.supported;
  in_place =
      placed_in-shifted (pool_for_identity c a.agent_id) _ _ a
      ∙ ap
          (λ (b : AgentRecord). record b {
            registered_at = (shifted now later a).registered_at;
            last_seen = (shifted now later a).last_seen;
          })
          h.in_place;
  sorted = h.sorted;
  registered_before = omega arith;
  seen_before = omega arith;
}

other_key :
    (k id : String) (a : AgentRecord) (d : Dict AgentRecord)
    → has_key k d ≡ false
    → lookup id d ≡ some a
    → str_eq k id ≡ false
other_key k id a d absent there = elim (Bool-cases (str_eq k id)) [
  | inl same ↦ absurd (ground (arith, absent, there, (str_eq_iff k id).0 same))
  | inr other ↦ other
]

-- What holds of each agent that is found holds of all entries.
pub All-found :
    (P : String × AgentRecord → Type 0) (d : Dict AgentRecord)
    → IsDistinct d
    → ((id : String) (a : AgentRecord) → lookup id d ≡ some a → P (id, a))
    → All P d
unfolding lookup
All-found P [] u f = tt
All-found P ((k, v) ∷ d) u f = (
  f k v (rw (str_eq_refl k)),
  All-found P d u.1 (λ id a there. f id a (rw (other_key k id a d u.0 there) there)),
)

add_restored-IsDistinct :
    (v : Option VersionError) (r : AgentRecord) (d d' : Dict AgentRecord)
    (next : Dict AgentRecord → Option (Dict AgentRecord))
    → ((d1 : Dict AgentRecord) → next d1 ≡ some d' → IsDistinct d1 → IsDistinct d')
    → bind_agents (add_restored v r d) next ≡ some d'
    → IsDistinct d
    → IsDistinct d'
unfolding add_restored
add_restored-IsDistinct none r d d' next f e u = f _ e (IsDistinct-insert r.agent_id r d u)
add_restored-IsDistinct (some agent_version_unsupported) r d d' next f e u = f d e u
add_restored-IsDistinct (some unknown_ring) r d d' next f e u = cc

pub restore_agents-IsDistinct :
    (read : Readers) (c : PlacementConfig) (now : ℕ) (ss : List AgentSnapshot)
    (d d' : Dict AgentRecord)
    → restore_agents read c now ss d ≡ some d'
    → IsDistinct d
    → IsDistinct d'
unfolding restore_agents
restore_agents-IsDistinct read c now [] d d' e u = subst IsDistinct (some_inj e) u
restore_agents-IsDistinct read c now (s ∷ ss) d d' e u =
    add_restored-IsDistinct (version_of read c s) (restored c now s) d d' _
      (λ d1 e1 u1. restore_agents-IsDistinct read c now ss d1 d' e1 u1) e u

-- The agents after a failed write: those from before, with their times moved.
pub record IsUndone (read : Readers) (c : PlacementConfig) (now later : ℕ) (d d' : Dict AgentRecord)
    : Type 0 where
  pub looks : (id : String) → lookup id d' ≡ Option.map (shifted now later) (lookup id d)
  pub distinct : IsDistinct d'
  pub settled : All (IsSettled read c later) d'

shifted_found :
    (read : Readers) (c : PlacementConfig) (now later : ℕ) (id : String) (b : AgentRecord)
    (o : Option AgentRecord)
    → ((a : AgentRecord) → o ≡ some a → IsSettled read c now (id, a))
    → Option.map (shifted now later) o ≡ some b
    → IsSettled read c later (id, b)
shifted_found read c now later id b none h e = cc
shifted_found read c now later id b (some a) h e =
    subst (λ x. IsSettled read c later (id, x)) (some_inj e)
      (shifted-IsSettled read c now later id a (h a refl))

undone :
    (read : Readers) (c : PlacementConfig) (now later : ℕ) (d : Dict AgentRecord)
    → IsDistinct d
    → All (IsSettled read c now) d
    → (d' : Dict AgentRecord) × (restore_agents read c later (snapshot now d) [] ≡ some d')
      × IsUndone read c now later d d'
undone read c now later d u h =
    let (d', done, looks) = lookup-restored read c now later d u h in
    let distinct = restore_agents-IsDistinct read c later (snapshot now d) [] d' done tt in
    (
      d',
      done,
      record {
        looks = looks;
        distinct = distinct;
        settled = All-found (IsSettled read c later) d' distinct (λ id b there.
            shifted_found read c now later id b (lookup id d)
              (λ a was. All-lookup (IsSettled read c now) id a d h was) (sym (looks id) ∙ there));
      },
    )

module _ (read : Readers) (now : ℕ) (w : Write) (agents : Dict AgentRecord) (r : Registry)
    (well : IsWell read now r) where
  -- A change is made, or everything is as before.
  pub commit-cases :
      let o = commit_agents read now w agents r in
      ((o.1 ≡ true) × (o.0.agents ≡ agents))
      ⊎ ((o.1 ≡ false) × IsUndone read r.placement now w.ends_at r.agents o.0.agents)
  unfolding commit_agents persist restore keep_or
  commit-cases = elim (Bool-cases r.is_attached) [
    | inl attached ↦ elim (Bool-cases w.succeeds) [
      | inl succeeds ↦ inl (rw (attached, succeeds) (refl, refl))
      | inr fails ↦
          let (d', done, back) =
            undone read r.placement now w.ends_at r.agents well.distinct well.settled in
          inr (rw (attached, fails, done) (refl, back))
    ]
    | inr alone ↦ inl (rw alone (refl, refl))
  ]

  pub commit-placement : (commit_agents read now w agents r).0.placement ≡ r.placement
  unfolding commit_agents persist restore keep_or
  commit-placement = ground arith

pub IsWell-later :
    (read : Readers) (now later : ℕ) (r : Registry)
    → now ≤ later
    → IsWell read now r
    → IsWell read later r
IsWell-later read now later r le well = record {
  distinct = well.distinct;
  settled =
      All-imp _ _ r.agents (λ e s. IsSettled-later read r.placement now later e le s) well.settled;
}
