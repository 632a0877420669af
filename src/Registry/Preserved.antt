-- ===== src/Registry/Preserved.antt =====
-- Every call of the registry keeps its invariant.
use fabric_shortcut_proxy.Prelude.{
  ℕ, ◌≤◌, String, str_eq, Option, none, some, ◌≡◌, refl, All, All-imp, Bool-cases, inl, inr,
}
use fabric_shortcut_proxy.Dict.{
  Dict, lookup, IsDistinct, IsDistinct-insert, IsDistinct-remove, All-insert, All-remove,
  All-lookup,
}
use fabric_shortcut_proxy.Registry.{
  AgentRecord, Registry, Readers, Write, RegisterRequest, HeartbeatRequest, ControlCommand,
}
use fabric_shortcut_proxy.Registry.Calls.{
  RegisterError, refuse_registration, register_if, register, heartbeat_found, heartbeat,
  queue_found, queue_command, broadcast, remove_found, remove_agent, commit_agents,
}
use fabric_shortcut_proxy.Registry.Undo.{IsSettled}
use fabric_shortcut_proxy.Registry.Invariant.{
  IsWell, IsSettled-later, IsWell-later, commit-cases, commit-placement,
}
use fabric_shortcut_proxy.Registry.History.{Call, registers, beats, sends, sends_all, removes, run}
use fabric_shortcut_proxy.Registry.Settled.{
  beaten-IsSettled, with_command-IsSettled, broadcast_to-All, broadcast_to-IsDistinct,
  registered-IsSettled,
}

module _ (read : Readers) (now : ℕ) (w : Write) (r : Registry) (ordered : now ≤ w.ends_at) where
  pub commit-IsWell :
      (agents : Dict AgentRecord)
      → IsWell read now r
      → IsDistinct agents
      → All (IsSettled read r.placement now) agents
      → IsWell read w.ends_at (commit_agents read now w agents r).0
  commit-IsWell agents well u h =
      let place = commit-placement read now w agents r well in
      elim (commit-cases read now w agents r well) [
        | inl (done, same) ↦ record {
          distinct = rw same u;
          settled =
              rw (same, place)
                (All-imp _ _ agents
                  (λ e s. IsSettled-later read r.placement now w.ends_at e ordered s) h);
        }
        | inr (failed, back) ↦ record { distinct = back.distinct; settled = rw place back.settled }
      ]

  register_if-IsWell :
      (lease : String) (req : RegisterRequest) (e : Option RegisterError)
      → refuse_registration read r req ≡ e
      → IsWell read now r
      → IsWell read w.ends_at (register_if read now w lease req e r).0
  unfolding register_if
  register_if-IsWell lease req (some e) h well = IsWell-later read now w.ends_at r ordered well
  register_if-IsWell lease req none h well =
      commit-IsWell _ well (IsDistinct-insert req.agent_id _ r.agents well.distinct) (
        All-insert (IsSettled read r.placement now) req.agent_id _ r.agents
          (registered-IsSettled read r now lease req h) well.settled)

  found-IsSettled :
      (id : String) (a : AgentRecord)
      → IsWell read now r
      → lookup id r.agents ≡ some a
      → IsSettled read r.placement now (id, a)
  found-IsSettled id a well there =
      All-lookup (IsSettled read r.placement now) id a r.agents well.settled there

  heartbeat_found-IsWell :
      (req : HeartbeatRequest) (o : Option AgentRecord)
      → lookup req.agent_id r.agents ≡ o
      → IsWell read now r
      → IsWell read w.ends_at (heartbeat_found read now w req o r).0
  unfolding heartbeat_found
  heartbeat_found-IsWell req none there well = IsWell-later read now w.ends_at r ordered well
  heartbeat_found-IsWell req (some a) there well =
      elim (Bool-cases (str_eq a.lease_id req.lease_id)) [
        | inl same ↦ rw same (
            commit-IsWell _ well (IsDistinct-insert req.agent_id _ r.agents well.distinct) (
              All-insert (IsSettled read r.placement now) req.agent_id _ r.agents
                (beaten-IsSettled read r.placement now req req.agent_id a
                  (found-IsSettled req.agent_id a well there))
                well.settled))
        | inr other ↦ rw other (IsWell-later read now w.ends_at r ordered well)
      ]

  queue_found-IsWell :
      (id : String) (cmd : ControlCommand) (o : Option AgentRecord)
      → lookup id r.agents ≡ o
      → IsWell read now r
      → IsWell read w.ends_at (queue_found read now w id cmd o r).0
  unfolding queue_found
  queue_found-IsWell id cmd none there well = IsWell-later read now w.ends_at r ordered well
  queue_found-IsWell id cmd (some a) there well =
      commit-IsWell _ well (IsDistinct-insert id _ r.agents well.distinct) (
        All-insert (IsSettled read r.placement now) id _ r.agents
          (with_command-IsSettled read r.placement now cmd (id, a)
            (found-IsSettled id a well there))
          well.settled)

  broadcast-IsWell :
      (cmd : ControlCommand)
      → IsWell read now r
      → IsWell read w.ends_at (broadcast read now w cmd r).0
  unfolding broadcast
  broadcast-IsWell cmd well =
      commit-IsWell _ well (broadcast_to-IsDistinct cmd r.agents well.distinct)
        (broadcast_to-All read r.placement now cmd r.agents well.settled)

  remove_found-IsWell :
      (id : String) (o : Option AgentRecord)
      → IsWell read now r
      → IsWell read w.ends_at (remove_found read now w id o r).0
  unfolding remove_found
  remove_found-IsWell id none well = IsWell-later read now w.ends_at r ordered well
  remove_found-IsWell id (some a) well =
      commit-IsWell _ well (IsDistinct-remove id r.agents well.distinct)
        (All-remove (IsSettled read r.placement now) id r.agents well.settled)

-- A call of the five, whether its durable write fails or not, leaves a well-formed registry.
pub run-IsWell :
    (read : Readers) (now : ℕ) (w : Write) (call : Call) (r : Registry)
    → now ≤ w.ends_at
    → IsWell read now r
    → IsWell read w.ends_at (run read (record { now = now; write = w; call = call }) r)
unfolding run register heartbeat queue_command broadcast remove_agent
run-IsWell read now w (registers lease req) r le well =
    register_if-IsWell read now w r le lease req (refuse_registration read r req) refl well
run-IsWell read now w (beats req) r le well =
    heartbeat_found-IsWell read now w r le req (lookup req.agent_id r.agents) refl well
run-IsWell read now w (sends id cmd) r le well =
    queue_found-IsWell read now w r le id cmd (lookup id r.agents) refl well
run-IsWell read now w (sends_all cmd) r le well = broadcast-IsWell read now w r le cmd well
run-IsWell read now w (removes id) r le well =
    remove_found-IsWell read now w r le id (lookup id r.agents) well
