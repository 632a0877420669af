-- ===== src/Registry/Rollback.antt =====
-- A call whose durable write fails leaves the agents as they were, but for their two times.
use fabric_shortcut_proxy.Prelude.{
  ℕ, ◌+◌, ◌-◌, ◌≤◌, ◌<◌, String, str_eq, true, false, Option, none, some, ◌≡◌, refl, arith,
  Bool-cases, inl, inr,
}
use fabric_shortcut_proxy.Dict.{Dict, lookup, All-lookup}
use fabric_shortcut_proxy.Registry.{
  AgentRecord, Registry, Readers, Write, RegisterRequest, HeartbeatRequest, ControlCommand,
}
use fabric_shortcut_proxy.Registry.Snapshot.{persist}
use fabric_shortcut_proxy.Registry.Calls.{
  RegisterError, refuse_registration, register_if, register, heartbeat_found, heartbeat,
  queue_found, queue_command, broadcast_to, broadcast, remove_found, remove_agent, commit_agents,
}
use fabric_shortcut_proxy.Registry.Undo.{IsSettled, shifted}
use fabric_shortcut_proxy.Registry.Invariant.{IsWell, commit-cases}
use fabric_shortcut_proxy.Registry.History.{Call, registers, beats, sends, sends_all, removes, run}
use mathlib.Core.Option

-- A time that the undoing moves on: by how long the write took, and less than a millisecond.
abbrev pub Moved : ℕ → ℕ → ℕ → ℕ → Type 0
Moved now later x y = (x ≤ y) × (y < x + (later - now) + 1000)

abbrev pub AsBefore : ℕ → ℕ → Option AgentRecord → Option AgentRecord → Type 0
AsBefore now later none none = Unit
AsBefore now later (some a) (some b) =
    (b ≡ record a { registered_at = b.registered_at; last_seen = b.last_seen })
    × Moved now later a.registered_at b.registered_at
    × Moved now later a.last_seen b.last_seen
AsBefore now later _ _ = ⊥

AsBefore-same : (now later : ℕ) (o : Option AgentRecord) → AsBefore now later o o
AsBefore-same now later none = tt
AsBefore-same now later (some a) = (refl, (omega arith, omega arith), (omega arith, omega arith))

AsBefore-shifted :
    (read : Readers) (r : Registry) (now later : ℕ) (id : String) (o : Option AgentRecord)
    → now ≤ later
    → ((a : AgentRecord) → o ≡ some a → IsSettled read r.placement now (id, a))
    → AsBefore now later o (Option.map (shifted now later) o)
unfolding shifted
AsBefore-shifted read r now later id none le h = tt
AsBefore-shifted read r now later id (some a) le h =
    let s = h a refl in
    (
      refl,
      (omega (arith, le, s.registered_before), omega (arith, le, s.registered_before)),
      (omega (arith, le, s.seen_before), omega (arith, le, s.seen_before)),
    )

module _ (read : Readers) (now : ℕ) (w : Write) (r : Registry) (id : String) (le : now ≤ w.ends_at)
    (well : IsWell read now r) (attached : r.is_attached ≡ true) (fails : w.succeeds ≡ false) where
  commit_raises : (agents : Dict AgentRecord) → (commit_agents read now w agents r).1 ≡ false
  unfolding commit_agents persist
  commit_raises agents = rw (attached, fails)

  commit-AsBefore :
      (agents : Dict AgentRecord)
      → AsBefore now w.ends_at
          (lookup id r.agents)
          (lookup id (commit_agents read now w agents r).0.agents)
  commit-AsBefore agents = elim (commit-cases read now w agents r well) [
    | inl (done, same) ↦ absurd (ground (arith, done, commit_raises agents))
    | inr (failed, back) ↦ rw (back.looks id) (
        AsBefore-shifted read r now w.ends_at id (lookup id r.agents) le
          (λ a there. All-lookup (IsSettled read r.placement now) id a r.agents well.settled there))
  ]

  unchanged : AsBefore now w.ends_at (lookup id r.agents) (lookup id r.agents)
  unchanged = AsBefore-same now w.ends_at (lookup id r.agents)

  register_if-AsBefore :
      (lease : String) (req : RegisterRequest) (e : Option RegisterError)
      → AsBefore now w.ends_at
          (lookup id r.agents)
          (lookup id (register_if read now w lease req e r).0.agents)
  unfolding register_if
  register_if-AsBefore lease req (some e) = unchanged
  register_if-AsBefore lease req none = commit-AsBefore _

  heartbeat_found-AsBefore :
      (req : HeartbeatRequest) (o : Option AgentRecord)
      → AsBefore now w.ends_at
          (lookup id r.agents)
          (lookup id (heartbeat_found read now w req o r).0.agents)
  unfolding heartbeat_found
  heartbeat_found-AsBefore req none = unchanged
  heartbeat_found-AsBefore req (some a) = elim (Bool-cases (str_eq a.lease_id req.lease_id)) [
    | inl same ↦ rw same (commit-AsBefore _)
    | inr other ↦ rw other unchanged
  ]

  queue_found-AsBefore :
      (to : String) (cmd : ControlCommand) (o : Option AgentRecord)
      → AsBefore now w.ends_at
          (lookup id r.agents)
          (lookup id (queue_found read now w to cmd o r).0.agents)
  unfolding queue_found
  queue_found-AsBefore to cmd none = unchanged
  queue_found-AsBefore to cmd (some a) = commit-AsBefore _

  remove_found-AsBefore :
      (from : String) (o : Option AgentRecord)
      → AsBefore now w.ends_at
          (lookup id r.agents)
          (lookup id (remove_found read now w from o r).0.agents)
  unfolding remove_found
  remove_found-AsBefore from none = unchanged
  remove_found-AsBefore from (some a) = commit-AsBefore _

-- With a durable state attached, a `register`, `heartbeat`, `queue_command`, `broadcast` or
-- `remove_agent` whose write fails changes no agent of a well-formed registry: each has the record
-- that it had, a new one is not there and a removed one is back. Only the times of registration and
-- of the last heartbeat move on, by the time that the write took and less than a millisecond more.
pub failed_write_undone :
    (read : Readers) (now : ℕ) (w : Write) (call : Call) (r : Registry) (id : String)
    → now ≤ w.ends_at
    → IsWell read now r
    → r.is_attached ≡ true
    → w.succeeds ≡ false
    → AsBefore now w.ends_at
        (lookup id r.agents)
        (lookup id (run read (record { now = now; write = w; call = call }) r).agents)
unfolding run register heartbeat queue_command broadcast remove_agent
failed_write_undone read now w (registers lease req) r id le well attached fails =
    register_if-AsBefore read now w r id le well attached fails lease req
      (refuse_registration read r req)
failed_write_undone read now w (beats req) r id le well attached fails =
    heartbeat_found-AsBefore read now w r id le well attached fails req
      (lookup req.agent_id r.agents)
failed_write_undone read now w (sends to cmd) r id le well attached fails =
    queue_found-AsBefore read now w r id le well attached fails to cmd (lookup to r.agents)
failed_write_undone read now w (sends_all cmd) r id le well attached fails =
    commit-AsBefore read now w r id le well attached fails (broadcast_to cmd r.agents)
failed_write_undone read now w (removes from) r id le well attached fails =
    remove_found-AsBefore read now w r id le well attached fails from (lookup from r.agents)
