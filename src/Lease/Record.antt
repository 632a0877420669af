-- ===== src/Lease/Record.antt =====
-- The durable lease record, as `json.loads` gives it, and the tests on it. A field that the record
-- lacks is `none`; times and fences are natural numbers, as every writer of the record gives them.
use fabric_shortcut_proxy.Prelude.{
  ℕ, ◌-◌, String, str_eq, Bool, true, false, Option, none, some, [], ltb, ◌==◌, ℕ_discrete,
  String-discrete,
}
use fabric_shortcut_proxy.Dict.{Dict}
use mathlib.Core.Option

pub record LeaseRecord : Type 0 where
  pub owner_id : Option String
  pub renew_ms : Option ℕ
  pub ttl_ms : Option ℕ
  pub fence : Option ℕ
  -- `state`: each value as its JSON text
  pub state : Option (Dict String)

-- The bytes under the lease key: those that decode to an object, those that decode to another
-- value, and those that do not decode.
pub data Raw : Type 0 where
  object : LeaseRecord → Raw
  non_object undecodable : String → Raw

abbrev pub fence_of : LeaseRecord → ℕ
fence_of r = Option.get_or r.fence 0

-- `self._expired`; a negative age is never above the ttl, so truncated `-` is exact here.
unfoldable pub expired : ℕ → LeaseRecord → ℕ → Bool
expired own_ttl r now = ltb (Option.get_or r.ttl_ms own_ttl) (now - Option.get_or r.renew_ms 0)

-- `rec.get("owner_id") == owner`
unfoldable pub owned_by : String → LeaseRecord → Bool
owned_by owner r = elim r.owner_id [ none ↦ false | some o ↦ str_eq o owner ]

-- `not rec.get("owner_id")`: absent, or the empty text of a released lease.
unfoldable pub ownerless : LeaseRecord → Bool
ownerless r = elim r.owner_id [ none ↦ true | some o ↦ str_eq o "" ]

-- `int(rec.get("fence", -1)) == fence`
unfoldable pub fence_is : ℕ → LeaseRecord → Bool
fence_is fence r = elim r.fence [ none ↦ false | some f ↦ f == fence ]

-- `self._record`
unfoldable pub new_record : String → ℕ → ℕ → ℕ → Option (Dict String) → LeaseRecord
new_record owner now ttl fence state = record {
  owner_id = some owner;
  renew_ms = some now;
  ttl_ms = some ttl;
  fence = some fence;
  state = some (Option.get_or state []);
}

unfoldable pub Raw-discrete : Discrete Raw
unfolding String-discrete
Raw-discrete = hlevel (ℕ_discrete, String-discrete)
