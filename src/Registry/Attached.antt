-- ===== src/Registry/Attached.antt =====
-- Every operation of enterprise/control/registry.py that changes its state: the calls of Agents and
-- operators, and the attaching and detaching of the durable state.
use fabric_shortcut_proxy.Prelude.{
  ℕ, ◌-◌, ◌*◌, ◌≤◌, Bool, Option, none, some, List, [], ◌∷◌, ◌≡◌, refl, subst, sym, arith, All,
  some_inj, true, sorted_set, either, sorted_set-sorted_set,
}
use fabric_shortcut_proxy.Dict.{Dict, All-insert}
use fabric_shortcut_proxy.Placement.{
  PlacementConfig, VersionError, agent_version_unsupported, unknown_ring,
}
use fabric_shortcut_proxy.Registry.{AgentRecord, AgentSnapshot, Registry, Readers, Write}
use fabric_shortcut_proxy.Registry.Snapshot.{
  restored, add_restored, version_of, restore_agents, restore, keep_or, bind_agents,
}
use fabric_shortcut_proxy.Registry.Calls.{attach_saved, attach_durable_state, detach_durable_state}
use fabric_shortcut_proxy.Registry.Undo.{IsSettled}
use fabric_shortcut_proxy.Registry.Invariant.{IsWell, IsWell-later, restore_agents-IsDistinct}
use fabric_shortcut_proxy.Registry.Settled.{placed-IsSettled}
use fabric_shortcut_proxy.Registry.History.{Call, run}
use fabric_shortcut_proxy.Registry.Preserved.{run-IsWell}

-- A call with its durable write; an attachment that restores what the lease holds of a registry,
-- with whether its write succeeds; a detachment.
pub data Operation : Type 0 where
  call : Write → Call → Operation
  attach : Bool → Option (List AgentSnapshot) → Operation
  detach : Operation

-- An operation starts at a time, and ends at one.
abbrev pub ends : ℕ → Operation → ℕ
ends now (call w c) = w.ends_at
ends now (attach succeeds durable) = now
ends now detach = now

-- Operations follow one another in time, the first not before `t`.
abbrev pub InTime : ℕ → List (ℕ × Operation) → Type 0
InTime t [] = Unit
InTime t ((now, o) ∷ os) = (t ≤ now) × (now ≤ ends now o) × InTime (ends now o) os

abbrev pub last_end : ℕ → List (ℕ × Operation) → ℕ
last_end t [] = t
last_end t ((now, o) ∷ os) = last_end (ends now o) os

module _ (read : Readers) where
  abbrev pub operate : ℕ → Operation → Registry → Registry
  operate now (call w c) r = run read (record { now = now; write = w; call = c }) r
  operate now (attach succeeds durable) r = (attach_durable_state read now succeeds durable r).0
  operate now detach r = detach_durable_state read r

  abbrev pub operate_all : List (ℕ × Operation) → Registry → Registry
  operate_all [] r = r
  operate_all ((now, o) ∷ os) r = operate_all os (operate now o r)

  -- What is restored of a snapshot is settled, if its version is supported.
  restored-IsSettled :
      (c : PlacementConfig) (now : ℕ) (s : AgentSnapshot)
      → version_of read c s ≡ none
      → IsSettled read c now ((restored c now s).agent_id, restored c now s)
  unfolding restored version_of
  restored-IsSettled c now s passed =
      let a : AgentRecord = record s.fields {
        registered_at = now - s.registered_age_ms * 1000;
        last_seen = now - s.last_seen_age_ms * 1000;
        capabilities = sorted_set s.fields.capabilities;
      } in
      let settled =
        placed-IsSettled read c now a passed (sorted_set-sorted_set s.fields.capabilities)
          (omega arith) (omega arith) in
      subst (λ id. IsSettled read c now (id, restored c now s)) (sym settled.named)
        (unfold restored in settled)

  add_restored-All :
      (c : PlacementConfig) (now : ℕ) (v : Option VersionError) (a : AgentRecord)
      (d d' : Dict AgentRecord) (next : Dict AgentRecord → Option (Dict AgentRecord))
      → (v ≡ none → IsSettled read c now (a.agent_id, a))
      → ((d1 : Dict AgentRecord)
          → next d1 ≡ some d'
          → All (IsSettled read c now) d1
          → All (IsSettled read c now) d')
      → bind_agents (add_restored v a d) next ≡ some d'
      → All (IsSettled read c now) d
      → All (IsSettled read c now) d'
  unfolding add_restored
  add_restored-All c now none a d d' next ok f e h =
      f _ e (All-insert (IsSettled read c now) a.agent_id a d (ok refl) h)
  add_restored-All c now (some agent_version_unsupported) a d d' next ok f e h = f d e h
  add_restored-All c now (some unknown_ring) a d d' next ok f e h = cc

  restore_agents-All :
      (c : PlacementConfig) (now : ℕ) (ss : List AgentSnapshot) (d d' : Dict AgentRecord)
      → restore_agents read c now ss d ≡ some d'
      → All (IsSettled read c now) d
      → All (IsSettled read c now) d'
  unfolding restore_agents
  restore_agents-All c now [] d d' e h = subst (All (IsSettled read c now)) (some_inj e) h
  restore_agents-All c now (s ∷ ss) d d' e h =
      add_restored-All c now (version_of read c s) (restored c now s) d d' _
        (restored-IsSettled c now s) (λ d1 e1 h1. restore_agents-All c now ss d1 d' e1 h1) e h

  keep_or-IsWell :
      (now : ℕ) (ss : List AgentSnapshot) (r : Registry) (o : Option (Dict AgentRecord))
      → restore_agents read r.placement now ss [] ≡ o
      → IsWell read now r
      → IsWell read now (keep_or read r o)
  unfolding keep_or
  keep_or-IsWell now ss r none e well = well
  keep_or-IsWell now ss r (some d) e well = record {
    distinct = restore_agents-IsDistinct read r.placement now ss [] d e tt;
    settled = restore_agents-All r.placement now ss [] d e tt;
  }

  attach_saved-IsWell :
      (now : ℕ) (o : Option (List AgentSnapshot)) (r : Registry)
      → IsWell read now r
      → IsWell read now (attach_saved read now o r)
  unfolding attach_saved restore
  attach_saved-IsWell now none r well = well
  attach_saved-IsWell now (some ss) r well =
      keep_or-IsWell now ss r (restore_agents read r.placement now ss []) refl well

  operate-IsWell :
      (now : ℕ) (o : Operation) (r : Registry)
      → now ≤ ends now o
      → IsWell read now r
      → IsWell read (ends now o) (operate now o r)
  unfolding attach_durable_state detach_durable_state
  operate-IsWell now (call w c) r le well = run-IsWell read now w c r le well
  operate-IsWell now detach r le well = record { distinct = well.distinct; settled = well.settled }
  operate-IsWell now (attach succeeds durable) r le well =
      let r1 : Registry = record r { is_attached = true; saved = durable } in
      let attached : IsWell read now (attach_saved read now durable r1) =
        attach_saved-IsWell now durable r1
          (record { distinct = well.distinct; settled = well.settled }) in
      either (λ (x : Registry × Bool). IsWell read now x.0) succeeds _ _
        (record { distinct = attached.distinct; settled = attached.settled }) attached

-- Any operations, the attaching of any durable snapshot and detaching included, whether their
-- durable writes fail or not, one after the other in time, keep a registry well-formed: no agent
-- stands twice, each stands under its own name, has a supported version, the pool fields that the
-- configuration gives it and sorted capabilities, and no time is later than the end of the last
-- operation.
pub operations-IsWell :
    (read : Readers) (t : ℕ) (os : List (ℕ × Operation)) (r : Registry)
    → InTime t os
    → IsWell read t r
    → IsWell read (last_end t os) (operate_all read os r)
operations-IsWell read t [] r timed well = well
operations-IsWell read t ((now, o) ∷ os) r timed well =
    operations-IsWell read (ends now o) os (operate read now o r) timed.2
      (operate-IsWell read now o r timed.1 (IsWell-later read t now r timed.0 well))
