-- ===== src/Registry/Settled.antt =====
-- What the calls of enterprise/control/registry.py keep of a single agent.
use fabric_shortcut_proxy.Prelude.{
  ℕ, ◌≤◌, String, str_eq, Option, none, some, [], ◌∷◌, ◌≡◌, refl, ap, ◌∙◌, arith, All, Bool-cases,
  Option-cases, inl, inr, sorted_set, sorted_set-sorted_set,
}
use fabric_shortcut_proxy.Dict.{Dict, lookup, IsDistinct, has_key}
use fabric_shortcut_proxy.Placement.{
  PlacementConfig, MaterializerPool, pool_for_identity, validate_agent_version,
}
use fabric_shortcut_proxy.Registry.{
  AgentRecord, Registry, Readers, RegisterRequest, HeartbeatRequest, ControlCommand,
}
use fabric_shortcut_proxy.Registry.Snapshot.{placed_in, placed}
use fabric_shortcut_proxy.Registry.Calls.{
  refuse_registration, refused_version, registered, beaten, with_command, broadcast_to,
}
use fabric_shortcut_proxy.Registry.Undo.{IsSettled, placed_in_id}
use mathlib.Core.Option

placed_in-placed_in :
    (p : Option MaterializerPool) (a : AgentRecord) → placed_in p (placed_in p a) ≡ placed_in p a
unfolding placed_in
placed_in-placed_in none a = refl
placed_in-placed_in (some pool) a = refl

placed-placed : (c : PlacementConfig) (a : AgentRecord) → placed c (placed c a) ≡ placed c a
unfolding placed
placed-placed c a =
    let p = pool_for_identity c a.agent_id in
    ap (λ id. placed_in (pool_for_identity c id) (placed_in p a)) (placed_in_id p a)
    ∙ placed_in-placed_in p a

placed_in-beaten :
    (p : Option MaterializerPool) (now : ℕ) (req : HeartbeatRequest) (a : AgentRecord)
    → placed_in p (beaten now req a) ≡ beaten now req (placed_in p a)
unfolding placed_in beaten
placed_in-beaten none now req a = refl
placed_in-beaten (some pool) now req a = refl

placed_in-with_command :
    (p : Option MaterializerPool) (cmd : ControlCommand) (a : AgentRecord)
    → placed_in p (with_command cmd a) ≡ with_command cmd (placed_in p a)
unfolding placed_in with_command
placed_in-with_command none cmd a = refl
placed_in-with_command (some pool) cmd a = refl

module _ (read : Readers) (c : PlacementConfig) (now : ℕ) where
  pub beaten-IsSettled :
      (req : HeartbeatRequest) (id : String) (a : AgentRecord)
      → IsSettled read c now (id, a)
      → IsSettled read c now (id, beaten now req a)
  unfolding beaten placed
  beaten-IsSettled req id a h = record {
    named = h.named;
    supported = h.supported;
    in_place =
        placed_in-beaten (pool_for_identity c a.agent_id) now req a
        ∙ ap (beaten now req) h.in_place;
    sorted = h.sorted;
    registered_before = h.registered_before;
    seen_before = omega arith;
  }

  pub with_command-IsSettled :
      (cmd : ControlCommand) (e : String × AgentRecord)
      → IsSettled read c now e
      → IsSettled read c now (e.0, with_command cmd e.1)
  unfolding with_command placed
  with_command-IsSettled cmd (id, a) h = record {
    named = h.named;
    supported = h.supported;
    in_place =
        placed_in-with_command (pool_for_identity c a.agent_id) cmd a
        ∙ ap (with_command cmd) h.in_place;
    sorted = h.sorted;
    registered_before = h.registered_before;
    seen_before = h.seen_before;
  }

  pub broadcast_to-All :
      (cmd : ControlCommand) (d : Dict AgentRecord)
      → All (IsSettled read c now) d
      → All (IsSettled read c now) (broadcast_to cmd d)
  unfolding broadcast_to
  broadcast_to-All cmd [] h = tt
  broadcast_to-All cmd ((id, a) ∷ d) h =
      (with_command-IsSettled cmd (id, a) h.0, broadcast_to-All cmd d h.1)

pub lookup-broadcast_to :
    (cmd : ControlCommand) (id : String) (d : Dict AgentRecord)
    → lookup id (broadcast_to cmd d) ≡ Option.map (with_command cmd) (lookup id d)
unfolding broadcast_to lookup
lookup-broadcast_to cmd id [] = refl
lookup-broadcast_to cmd id ((k, a) ∷ d) = elim (Bool-cases (str_eq k id)) [
  | inl here ↦ rw here refl
  | inr other ↦ rw other (lookup-broadcast_to cmd id d)
]

has_key-broadcast_to :
    (cmd : ControlCommand) (id : String) (d : Dict AgentRecord)
    → has_key id (broadcast_to cmd d) ≡ has_key id d
has_key-broadcast_to cmd id d =
    rw (lookup-broadcast_to cmd id d) (elim (Option-cases (lookup id d)) [
      | inl gone ↦ rw gone refl
      | inr (a, there) ↦ rw there refl
    ])

pub broadcast_to-IsDistinct :
    (cmd : ControlCommand) (d : Dict AgentRecord) → IsDistinct d → IsDistinct (broadcast_to cmd d)
unfolding broadcast_to
broadcast_to-IsDistinct cmd [] u = tt
broadcast_to-IsDistinct cmd ((k, a) ∷ d) u =
    (has_key-broadcast_to cmd k d ∙ u.0, broadcast_to-IsDistinct cmd d u.1)

version_passed :
    (read : Readers) (r : Registry) (req : RegisterRequest)
    → refuse_registration read r req ≡ none
    → validate_agent_version read.release_of r.placement req.agent_id req.version ≡ none
unfolding refuse_registration refused_version
version_passed read r req h = ground (arith, h)

-- What does not depend on the pool.
pub placed_in_keeps :
    (p : Option MaterializerPool) (a : AgentRecord)
    → ((placed_in p a).version ≡ a.version)
      × ((placed_in p a).capabilities ≡ a.capabilities)
      × ((placed_in p a).registered_at ≡ a.registered_at)
      × ((placed_in p a).last_seen ≡ a.last_seen)
      × ((placed_in p a).commands ≡ a.commands)
      × ((placed_in p a).lease_id ≡ a.lease_id)
unfolding placed_in
placed_in_keeps none a = (refl, refl, refl, refl, refl, refl)
placed_in_keeps (some pool) a = (refl, refl, refl, refl, refl, refl)

pub placed-IsSettled :
    (read : Readers) (c : PlacementConfig) (now : ℕ) (a : AgentRecord)
    → validate_agent_version read.release_of c a.agent_id a.version ≡ none
    → sorted_set a.capabilities ≡ a.capabilities
    → a.registered_at ≤ now
    → a.last_seen ≤ now
    → IsSettled read c now (a.agent_id, placed c a)
placed-IsSettled read c now a passed sorted registered seen =
    let p = pool_for_identity c a.agent_id in
    let (version, capabilities, at, last, cmds, lease) = placed_in_keeps p a in
    let in_pool : placed c a ≡ placed_in p a = unfold placed in refl in
    let id : (placed c a).agent_id ≡ a.agent_id = rw in_pool (placed_in_id p a) in
    record {
      named = id;
      supported = rw in_pool (rw (placed_in_id p a, version) passed);
      in_place = placed-placed c a;
      sorted = rw in_pool (rw capabilities sorted);
      registered_before = rw in_pool (rw at registered);
      seen_before = rw in_pool (rw last seen);
    }

pub registered-IsSettled :
    (read : Readers) (r : Registry) (now : ℕ) (lease : String) (req : RegisterRequest)
    → refuse_registration read r req ≡ none
    → IsSettled read r.placement now (req.agent_id, registered read now lease r.placement req)
unfolding registered
registered-IsSettled read r now lease req passed =
    placed-IsSettled read r.placement now _ (version_passed read r req passed)
      (sorted_set-sorted_set req.capabilities) (omega arith) (omega arith)
