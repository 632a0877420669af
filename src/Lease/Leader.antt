-- ===== src/Lease/Leader.antt =====
-- `LeaderLease`. Each loop that reads and then swaps is a decision on what was read and a commit
-- against the store at the time of the swap; `Env` says what happens in between.
use fabric_shortcut_proxy.Prelude.{
  ℕ, zero, suc, ◌+◌, String, str_eq, Bool, true, false, not, ◌&&◌, ◌||◌, Option, none, some,
  if◌then◌else◌, max,
}
use fabric_shortcut_proxy.Dict.{Dict}
use fabric_shortcut_proxy.Artifacts.Register.{Register}
use fabric_shortcut_proxy.Lease.Record.{
  LeaseRecord, Raw, object, non_object, undecodable, fence_of, expired, owned_by, ownerless,
  fence_is, new_record,
}
use mathlib.Core.Option
use Prim.Native.String.{◌++◌ as ◌+++◌}

pub record LeaderLease : Type 0 where
  pub owner_id : String
  pub ttl_ms : ℕ
  pub is_leader : Bool
  pub fence : ℕ
  pub last_error : String

pub data Error : Type 0 where
  store_error : String → Error
  stale_leader : Error

pub data Result (A : Type 0) : Type 0 where
  ok : A → Result A
  raise : Error → Result A

-- `__init__`
unfoldable pub init : String → ℕ → LeaderLease
init owner ttl = record {
  owner_id = owner;
  ttl_ms = max 1 ttl;
  is_leader = false;
  fence = 0;
  last_error = "";
}

-- `_lose`
unfoldable pub lose : LeaderLease → LeaderLease
lose l = record l { is_leader = false; fence = 0 }

-- `str(exc)`
abbrev pub message : Error → String
message (store_error text) = text
message stale_leader = "stale"

-- The part of `_read_raw` behind the read: the record that the bytes hold.
unfoldable pub parse : Option Raw → Result (Option LeaseRecord)
parse none = ok none
parse (some (undecodable _)) = raise (store_error "leader lease record is invalid")
parse (some (non_object _)) = raise (store_error "leader lease record must be an object")
parse (some (object r)) = ok (some r)

-- What one pass of the loop of `acquire_or_renew` decides on the bytes that it read.
pub data Plan : Type 0 where
  failed : Error → Plan
  stand_by : Plan
  take : ℕ → Option (Dict String) → Plan

unfoldable pub same_live_owner : LeaderLease → LeaseRecord → ℕ → Bool
unfolding owned_by expired
same_live_owner l r now = owned_by l.owner_id r && not (expired l.ttl_ms r now)

unfoldable pub can_take : LeaderLease → LeaseRecord → ℕ → Bool
unfolding ownerless expired same_live_owner
can_take l r now = ownerless r || expired l.ttl_ms r now || same_live_owner l r now

unfoldable pub plan_for : LeaderLease → ℕ → Result (Option LeaseRecord) → Plan
unfolding can_take same_live_owner
plan_for l now (raise e) = failed e
plan_for l now (ok none) = take 1 none
plan_for l now (ok (some r)) =
    if can_take l r now
    then take (if same_live_owner l r now then fence_of r else fence_of r + 1) r.state
    else stand_by

-- The record that the swap of a plan writes.
abbrev pub claim : LeaderLease → ℕ → ℕ → Option (Dict String) → Raw
claim l now fence state = object (new_record l.owner_id now l.ttl_ms fence state)

abbrev pub hold : LeaderLease → ℕ → LeaderLease
hold l fence = record l { is_leader = true; fence = fence; last_error = "" }

-- What is read and what is written at one pass of a loop: whether the read or the swap raises, and
-- what other processes do to the store between the two.
pub record Env (S : Type 0) : Type 0 where
  pub read_raises : ℕ → Option String
  pub swap_raises : ℕ → Option String
  pub gap : ℕ → S → S

abbrev pub quiet : (S : Type 0) → Env S
quiet S = record { read_raises = λ _. none; swap_raises = λ _. none; gap = λ _ s. s }

-- `_read_raw`
unfoldable pub read_raw : Option String → Option Raw → Result (Option LeaseRecord)
unfolding parse
read_raw none raw = parse raw
read_raw (some exc) raw = raise (store_error ("leader lease read failed: " +++ exc))

unfoldable pub decide : Option String → LeaderLease → ℕ → Option Raw → Plan
unfolding read_raw plan_for
decide fault l now seen = plan_for l now (read_raw fault seen)

abbrev pub contention : String
contention = "leader lease compare-and-swap contention"

-- `validate`, at one read.
unfoldable pub is_current : String → ℕ → ℕ → ℕ → LeaseRecord → Bool
unfolding owned_by fence_is expired
is_current owner fence own_ttl now r =
    owned_by owner r && fence_is fence r && not (expired own_ttl r now)

unfoldable pub check_term :
    String → ℕ → ℕ → LeaderLease → Result (Option LeaseRecord) → LeaderLease × Result LeaseRecord
unfolding is_current lose
check_term owner fence now l (raise e) = (lose l, raise e)
check_term owner fence now l (ok none) = (lose l, raise stale_leader)
check_term owner fence now l (ok (some r)) =
    if is_current owner fence l.ttl_ms now r then (l, ok r) else (lose l, raise stale_leader)

abbrev pub or_own : Option String → String → String
or_own none own = own
or_own (some o) own = if str_eq o "" then own else o

-- How a pass of a loop ends: the loop returns, or goes on with the store as it is now.
pub data Pass (R S : Type 0) : Type 0 where
  done : R → Pass R S
  again : S → Pass R S

abbrev pub finish : {R S : Type 0} → Pass R S → (S → R) → R
finish (done o) rest = o
finish (again s) rest = rest s

abbrev pub Attempt : Type 0 → Type 0
Attempt S = Pass (LeaderLease × S × Bool) S

module _ (reg : Register Raw) where
  open reg use {Store, read, swap}

  -- The swap of a claim, against the bytes that were read.
  unfoldable pub commit :
      LeaderLease → ℕ → ℕ → Option (Dict String) → Option Raw → Store → Attempt Store
  commit l now fence state seen s =
      let (s', won) = swap seen (claim l now fence state) s in
      if won then done (hold l fence, s', true) else again s'

  unfoldable pub carry_out :
      Option String → (Store → Store) → ℕ → LeaderLease → Store → Plan → Attempt Store
  unfolding lose commit
  carry_out fault gap now l s (failed e) =
      done (lose (record l { last_error = message e }), s, false)
  carry_out fault gap now l s stand_by = done (record (lose l) { last_error = "" }, s, false)
  carry_out (some exc) gap now l s (take fence state) =
      done (lose (record l { last_error = exc }), gap s, false)
  carry_out none gap now l s (take fence state) = commit l now fence state (read s) (gap s)

  -- One pass of the loop of `acquire_or_renew`.
  unfoldable pub attempt : ℕ → Env Store → ℕ → LeaderLease → Store → Attempt Store
  unfolding decide carry_out
  attempt k env now l s =
      carry_out (env.swap_raises k) (env.gap k) now l s (decide (env.read_raises k) l now (read s))

  -- `for _attempt in range(4)`: the passes left, and the number of this one.
  unfoldable pub acquire_from :
      ℕ → ℕ → Env Store → ℕ → LeaderLease → Store → LeaderLease × Store × Bool
  unfolding attempt lose
  acquire_from zero k env now l s = (lose (record l { last_error = contention }), s, false)
  acquire_from (suc n) k env now l s =
      finish (attempt k env now l s) (λ s'. acquire_from n (k + 1) env now l s')

  unfoldable pub acquire_or_renew : Env Store → ℕ → LeaderLease → Store → LeaderLease × Store × Bool
  unfolding acquire_from
  acquire_or_renew = acquire_from 4 0

  unfoldable pub validate :
      Option String
      → Option String
      → Option ℕ
      → ℕ
      → LeaderLease
      → Store
      → LeaderLease × Result LeaseRecord
  unfolding check_term read_raw
  validate fault owner fence now l s =
      check_term (or_own owner l.owner_id) (Option.get_or fence l.fence) now l
        (read_raw fault (read s))
