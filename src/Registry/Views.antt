-- ===== src/Registry/Views.antt =====
-- The log of one agent against its record, call by call, in enterprise/control/registry.py.
use fabric_shortcut_proxy.Prelude.{
  ℕ, String, Bool, true, false, ◌&&◌, Option, none, some, List, [], ◌∷◌, ◌++◌, ◌≡◌, refl, sym, ap,
  ◌∙◌, if◌then◌else◌, is_some,
}
use fabric_shortcut_proxy.Placement.{pool_for_identity}
use fabric_shortcut_proxy.Registry.{
  AgentRecord, Registry, Readers, RegisterRequest, HeartbeatRequest, ControlCommand,
}
use fabric_shortcut_proxy.Registry.Snapshot.{placed}
use fabric_shortcut_proxy.Registry.Calls.{registered, beaten, with_command}
use fabric_shortcut_proxy.Registry.Undo.{shifted}
use fabric_shortcut_proxy.Registry.History.{Log, when_sent}
use fabric_shortcut_proxy.Registry.Settled.{placed_in_keeps}
use mathlib.Core.Option
use mathlib.Core.List.{append-nil, append_assoc}

-- The lease and the pending commands of an agent.
abbrev pub view : Option AgentRecord → Option (String × List ControlCommand)
view o = Option.map (λ (a : AgentRecord). (a.lease_id, a.commands)) o

-- The agent has the lease of the log, and what it was sent is what it received, then the pending
-- commands.
abbrev pub OnLog : Option (String × List ControlCommand) → Log → Type 0
OnLog none log = Unit
OnLog (some (lease, pending)) log = (lease ≡ log.lease) × (log.sent ≡ log.received ++ pending)

pub view-shifted :
    (now later : ℕ) (o : Option AgentRecord) → view (Option.map (shifted now later) o) ≡ view o
unfolding shifted
view-shifted now later none = refl
view-shifted now later (some a) = refl

pub if_either :
    (v : Option (String × List ControlCommand)) (log : Log) (b : Bool)
    → OnLog v log
    → OnLog v (if b then log else log)
if_either v log true on = on
if_either v log false on = on

pub registered-view :
    (read : Readers) (now : ℕ) (lease : String) (r : Registry) (req : RegisterRequest)
    → OnLog
        (view (some (registered read now lease r.placement req)))
        (record { lease = lease; sent = []; received = [] })
unfolding registered placed
registered-view read now lease r req =
    let (version, capabilities, at, last, cmds, same_lease) =
      placed_in_keeps (pool_for_identity r.placement req.agent_id) _ in
    (same_lease, sym cmds)

pub beaten-OnLog :
    (log : Log) (now : ℕ) (req : HeartbeatRequest) (b : AgentRecord)
    → OnLog (view (some b)) log
    → OnLog (view (some (beaten now req b))) (record log { received = log.received ++ b.commands })
unfolding beaten
beaten-OnLog log now req b on = (on.0, on.1 ∙ sym (append-nil (log.received ++ b.commands)))

pub with_command-OnLog :
    (log : Log) (cmd : ControlCommand) (b : AgentRecord)
    → OnLog (view (some b)) log
    → OnLog (view (some (with_command cmd b))) (record log { sent = log.sent ++ cmd ∷ [] })
unfolding with_command
with_command-OnLog log cmd b on =
    (on.0, ap (λ s. s ++ cmd ∷ []) on.1 ∙ append_assoc log.received b.commands (cmd ∷ []))

pub sent_if_there :
    (log : Log) (cmd : ControlCommand) (o : Option AgentRecord)
    → OnLog (view o) log
    → OnLog (view (Option.map (with_command cmd) o)) (when_sent (true && is_some o) cmd log)
sent_if_there log cmd none on = tt
sent_if_there log cmd (some b) on = with_command-OnLog log cmd b on
