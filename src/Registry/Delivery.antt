-- ===== src/Registry/Delivery.antt =====
-- The commands of an agent are delivered once and in their order, to its last lease only.
use fabric_shortcut_proxy.Prelude.{
  ℕ, String, str_eq, str_eq_iff, true, false, ◌&&◌, Option, none, some, List, [], ◌∷◌, ◌++◌, ◌≡◌,
  refl, sym, ap, ◌∙◌, subst, arith, if◌then◌else◌, Bool-cases, inl, inr, ◌⊎◌, some_inj,
}
use fabric_shortcut_proxy.Dict.{Dict, lookup, insert, remove, lookup-insert, lookup-remove, has_key}
use fabric_shortcut_proxy.Registry.{
  AgentRecord, Registry, Readers, Write, RegisterRequest, HeartbeatRequest, ControlCommand,
}
use fabric_shortcut_proxy.Registry.Calls.{
  RegisterError, refuse_registration, registered, registration, register_if, register, beaten,
  heartbeat_found, heartbeat, with_command, queue_found, queue_command, broadcast_to, broadcast,
  remove_found, remove_agent, commit_agents, delivered_if,
}
use fabric_shortcut_proxy.Registry.Invariant.{IsWell, commit-cases, IsWell-later}
use fabric_shortcut_proxy.Registry.History.{
  Call, registers, beats, sends, sends_all, removes, Event, Log, run, run_all, IsTimed, logged,
  log_after, when_registered, when_beaten, when_sent,
}
use fabric_shortcut_proxy.Registry.Preserved.{run-IsWell}
use fabric_shortcut_proxy.Registry.Settled.{lookup-broadcast_to}
use fabric_shortcut_proxy.Registry.Views.{
  view, OnLog, view-shifted, if_either, registered-view, beaten-OnLog, with_command-OnLog,
  sent_if_there,
}

module _ (read : Readers) (now : ℕ) (w : Write) (r : Registry) (well : IsWell read now r)
    (a : String) where
  commit-view :
      (agents : Dict AgentRecord)
      → let o = commit_agents read now w agents r in
        ((o.1 ≡ true) × (lookup a o.0.agents ≡ lookup a agents))
        ⊎ ((o.1 ≡ false) × (view (lookup a o.0.agents) ≡ view (lookup a r.agents)))
  commit-view agents = elim (commit-cases read now w agents r well) [
    | inl (done, same) ↦ inl (done, ap (lookup a) same)
    | inr (failed, back) ↦
        inr (failed, ap view (back.looks a) ∙ view-shifted now w.ends_at (lookup a r.agents))
  ]

  module _ (log : Log) (on : OnLog (view (lookup a r.agents)) log) where
    register_if-OnLog :
        (lease : String) (req : RegisterRequest) (e : Option RegisterError)
        → OnLog (view (lookup a (register_if read now w lease req e r).0.agents)) (
            if str_eq req.agent_id a
            then when_registered (register_if read now w lease req e r).1 log
            else log)
    unfolding register_if registration
    register_if-OnLog lease req (some e) = ground (arith, on)
    register_if-OnLog lease req none =
        let new = registered read now lease r.placement req in
        let agents = insert req.agent_id new r.agents in
        let fresh = registered-view read now lease r req in
        elim (commit-view agents) [
          | inl (done, looks) ↦ elim (Bool-cases (str_eq req.agent_id a)) [
            | inl here ↦ rw (done, looks, lookup-insert req.agent_id a new r.agents, here) fresh
            | inr other ↦ rw (done, looks, lookup-insert req.agent_id a new r.agents, other) on
          ]
          | inr (failed, same) ↦ rw (failed, same) (if_either _ log (str_eq req.agent_id a) on)
        ]

    heartbeat_found-OnLog :
        (req : HeartbeatRequest) (o : Option AgentRecord)
        → lookup req.agent_id r.agents ≡ o
        → OnLog (view (lookup a (heartbeat_found read now w req o r).0.agents)) (
            if str_eq req.agent_id a
            then when_beaten (heartbeat_found read now w req o r).1 log
            else log)
    unfolding heartbeat_found delivered_if
    heartbeat_found-OnLog req none there = if_either _ log (str_eq req.agent_id a) on
    heartbeat_found-OnLog req (some b) there =
        let agents = insert req.agent_id (beaten now req b) r.agents in
        elim (Bool-cases (str_eq b.lease_id req.lease_id)) [
          | inl lease ↦ elim (commit-view agents) [
            | inl (done, looks) ↦ elim (Bool-cases (str_eq req.agent_id a)) [
              | inl here ↦
                  rw
                    (
                      lease,
                      done,
                      looks,
                      lookup-insert req.agent_id a (beaten now req b) r.agents,
                      here,
                    )
                    (beaten-OnLog log now req b (
                      subst (λ o. OnLog (view o) log)
                        (ap (λ i. lookup i r.agents) (sym ((str_eq_iff req.agent_id a).0 here))
                          ∙ there)
                        on))
              | inr other ↦
                  rw
                    (
                      lease,
                      done,
                      looks,
                      lookup-insert req.agent_id a (beaten now req b) r.agents,
                      other,
                    )
                    on
            ]
            | inr (failed, same) ↦
                rw (lease, failed, same) (if_either _ log (str_eq req.agent_id a) on)
          ]
          | inr other ↦ rw other (if_either _ log (str_eq req.agent_id a) on)
        ]

    queue_found-OnLog :
        (id : String) (cmd : ControlCommand) (o : Option AgentRecord)
        → lookup id r.agents ≡ o
        → OnLog
            (view (lookup a (queue_found read now w id cmd o r).0.agents))
            (if str_eq id a then when_sent (queue_found read now w id cmd o r).1 cmd log else log)
    unfolding queue_found
    queue_found-OnLog id cmd none there = if_either _ log (str_eq id a) on
    queue_found-OnLog id cmd (some b) there =
        let agents = insert id (with_command cmd b) r.agents in
        elim (commit-view agents) [
          | inl (done, looks) ↦ elim (Bool-cases (str_eq id a)) [
            | inl here ↦
                rw (done, looks, lookup-insert id a (with_command cmd b) r.agents, here)
                  (with_command-OnLog log cmd b (
                    subst (λ o. OnLog (view o) log)
                      (ap (λ i. lookup i r.agents) (sym ((str_eq_iff id a).0 here)) ∙ there) on))
            | inr other ↦
                rw (done, looks, lookup-insert id a (with_command cmd b) r.agents, other) on
          ]
          | inr (failed, same) ↦ rw (failed, same) (if_either _ log (str_eq id a) on)
        ]

    broadcast-OnLog :
        (cmd : ControlCommand)
        → OnLog
            (view (lookup a (broadcast read now w cmd r).0.agents))
            (when_sent ((broadcast read now w cmd r).1 && has_key a r.agents) cmd log)
    unfolding broadcast
    broadcast-OnLog cmd = elim (commit-view (broadcast_to cmd r.agents)) [
      | inl (done, looks) ↦
          rw (done, looks, lookup-broadcast_to cmd a r.agents)
            (sent_if_there log cmd (lookup a r.agents) on)
      | inr (failed, same) ↦ rw (failed, same) on
    ]

    remove_found-OnLog :
        (id : String) (o : Option AgentRecord)
        → OnLog (view (lookup a (remove_found read now w id o r).0.agents)) log
    unfolding remove_found
    remove_found-OnLog id none = on
    remove_found-OnLog id (some b) = elim (commit-view (remove id r.agents)) [
      | inl (done, looks) ↦ elim (Bool-cases (str_eq id a)) [
        | inl here ↦ rw (looks, lookup-remove id a r.agents, here) tt
        | inr other ↦ rw (looks, lookup-remove id a r.agents, other) on
      ]
      | inr (failed, same) ↦ rw same on
    ]

run-OnLog :
    (read : Readers) (now : ℕ) (w : Write) (call : Call) (r : Registry) (a : String) (log : Log)
    → IsWell read now r
    → OnLog (view (lookup a r.agents)) log
    → let e : Event = record { now = now; write = w; call = call } in
      OnLog (view (lookup a (run read e r).agents)) (logged read a e r log)
unfolding run logged register heartbeat queue_command broadcast remove_agent
run-OnLog read now w (registers lease req) r a log well on =
    register_if-OnLog read now w r well a log on lease req (refuse_registration read r req)
run-OnLog read now w (beats req) r a log well on =
    heartbeat_found-OnLog read now w r well a log on req (lookup req.agent_id r.agents) refl
run-OnLog read now w (sends id cmd) r a log well on =
    queue_found-OnLog read now w r well a log on id cmd (lookup id r.agents) refl
run-OnLog read now w (sends_all cmd) r a log well on =
    broadcast-OnLog read now w r well a log on cmd
run-OnLog read now w (removes id) r a log well on =
    remove_found-OnLog read now w r well a log on id (lookup id r.agents)

history :
    (read : Readers) (t : ℕ) (es : List Event) (r : Registry) (a : String) (log : Log)
    → IsTimed t es
    → IsWell read t r
    → OnLog (view (lookup a r.agents)) log
    → OnLog (view (lookup a (run_all read es r).agents)) (log_after read a es r log)
unfolding run_all log_after
history read t [] r a log timed well on = on
history read t (e ∷ es) r a log timed well on =
    let well_now = IsWell-later read t e.now r timed.0 well in
    history read e.write.ends_at es (run read e r) a (logged read a e r log) timed.2
      (run-IsWell read e.now e.write e.call r timed.1 well_now)
      (run-OnLog read e.now e.write e.call r a log well_now on)

abbrev pub no_log : Log
no_log = record { lease = ""; sent = []; received = [] }

delivered_is_pending :
    (read : Readers) (now : ℕ) (w : Write) (req : HeartbeatRequest) (r : Registry)
    (o : Option AgentRecord) (cmds : List ControlCommand) (log : Log)
    → OnLog (view o) log
    → (heartbeat_found read now w req o r).1 ≡ some cmds
    → (req.lease_id ≡ log.lease) × (log.sent ≡ log.received ++ cmds)
unfolding heartbeat_found delivered_if
delivered_is_pending read now w req r none cmds log on h = cc
delivered_is_pending read now w req r (some b) cmds log on h =
    elim (Bool-cases (str_eq b.lease_id req.lease_id)) [
      | inl same ↦
          elim (Bool-cases
            (commit_agents read now w (insert req.agent_id (beaten now req b) r.agents) r).1) [
              | inl done ↦
                  let given : some b.commands ≡ some cmds = rw (same, done) at h in
                  (
                    sym ((str_eq_iff b.lease_id req.lease_id).0 same) ∙ on.0,
                    on.1 ∙ ap (λ c. log.received ++ c) (some_inj given),
                  )
              | inr failed ↦ absurd (ground (arith, h, same, failed))
            ]
      | inr other ↦ absurd (ground (arith, h, other))
    ]

-- In a registry that starts with no agents, after any calls of `register`, `heartbeat`,
-- `queue_command`, `broadcast` and `remove_agent`, with no attaching or detaching of the durable
-- state in between, and whichever of their durable writes fail and are undone: what a heartbeat
-- delivers to an agent is, in their order, all the commands that it was sent since its last
-- registration and has not received; and the heartbeat has the lease of that registration.
pub delivered_in_order :
    (read : Readers) (t : ℕ) (es : List Event) (r : Registry) (now : ℕ) (w : Write)
    (req : HeartbeatRequest) (cmds : List ControlCommand)
    → r.agents ≡ []
    → IsTimed t es
    → (heartbeat read now w req (run_all read es r)).1 ≡ some cmds
    → let log = log_after read req.agent_id es r no_log in
      (req.lease_id ≡ log.lease) × (log.sent ≡ log.received ++ cmds)
unfolding heartbeat lookup
delivered_in_order read t es r now w req cmds none_yet timed h =
    let start : IsWell read t r = record { distinct = rw none_yet tt; settled = rw none_yet tt } in
    let on : OnLog (view (lookup req.agent_id r.agents)) no_log = rw none_yet tt in
    delivered_is_pending read now w req (run_all read es r) _ cmds _
      (history read t es r req.agent_id no_log timed start on) h
