-- ===== src/Registry/History.antt =====
-- Sequences of calls of `Registry` in enterprise/control/registry.py, and the log of one agent.
use fabric_shortcut_proxy.Prelude.{
  ℕ, ◌≤◌, String, str_eq, Bool, true, false, ◌&&◌, Option, none, some, List, [], ◌∷◌, ◌++◌,
  if◌then◌else◌,
}
use fabric_shortcut_proxy.Dict.{has_key}
use fabric_shortcut_proxy.Registry.{
  Registry, Readers, Write, RegisterRequest, HeartbeatRequest, ControlCommand,
}
use fabric_shortcut_proxy.Registry.Calls.{
  RegisterResult, registered_as, refused, write_failed, register, heartbeat, queue_command,
  broadcast, remove_agent,
}

pub data Call : Type 0 where
  registers : String → RegisterRequest → Call
  beats : HeartbeatRequest → Call
  sends : String → ControlCommand → Call
  sends_all : ControlCommand → Call
  removes : String → Call

pub record Event : Type 0 where
  pub now : ℕ
  pub write : Write
  pub call : Call

-- The commands that one agent was sent and that it received under its present lease.
pub record Log : Type 0 where
  pub lease : String
  pub sent : List ControlCommand
  pub received : List ControlCommand

-- Events follow one another in time, the first not before `t`.
abbrev pub IsTimed : ℕ → List Event → Type 0
IsTimed t [] = Unit
IsTimed t (e ∷ es) = (t ≤ e.now) × (e.now ≤ e.write.ends_at) × IsTimed e.write.ends_at es

abbrev pub when_registered : RegisterResult → Log → Log
when_registered (registered_as lease cadence) log = record {
  lease = lease;
  sent = [];
  received = [];
}
when_registered (refused e) log = log
when_registered write_failed log = log

abbrev pub when_beaten : Option (List ControlCommand) → Log → Log
when_beaten none log = log
when_beaten (some cmds) log = record log { received = log.received ++ cmds }

abbrev pub when_sent : Bool → ControlCommand → Log → Log
when_sent false cmd log = log
when_sent true cmd log = record log { sent = log.sent ++ cmd ∷ [] }

module _ (read : Readers) where
  unfoldable pub run : Event → Registry → Registry
  unfolding register heartbeat queue_command broadcast remove_agent
  run e r = elim e.call [
    | registers lease req ↦ (register read e.now e.write lease req r).0
    | beats req ↦ (heartbeat read e.now e.write req r).0
    | sends id cmd ↦ (queue_command read e.now e.write id cmd r).0
    | sends_all cmd ↦ (broadcast read e.now e.write cmd r).0
    | removes id ↦ (remove_agent read e.now e.write id r).0
  ]

  -- What a call means for the agent `a`, by what it returns.
  unfoldable pub logged : String → Event → Registry → Log → Log
  unfolding register heartbeat queue_command broadcast
  logged a e r log = elim e.call [
    | registers lease req ↦
        if str_eq req.agent_id a
        then when_registered (register read e.now e.write lease req r).1 log
        else log
    | beats req ↦
        if str_eq req.agent_id a
        then when_beaten (heartbeat read e.now e.write req r).1 log
        else log
    | sends id cmd ↦
        if str_eq id a then when_sent (queue_command read e.now e.write id cmd r).1 cmd log else log
    | sends_all cmd ↦
        when_sent ((broadcast read e.now e.write cmd r).1 && has_key a r.agents) cmd log
    | removes id ↦ log
  ]

  unfoldable pub run_all : List Event → Registry → Registry
  unfolding run
  run_all [] r = r
  run_all (e ∷ es) r = run_all es (run e r)

  unfoldable pub log_after : String → List Event → Registry → Log → Log
  unfolding run logged
  log_after a [] r log = log
  log_after a (e ∷ es) r log = log_after a es (run e r) (logged a e r log)
