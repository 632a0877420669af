-- ===== src/Lease/Durable.antt =====
-- `LeaderLease`: release, and the Manager state that lives in the lease record.
use fabric_shortcut_proxy.Prelude.{
  ℕ, zero, suc, ◌+◌, String, false, ◌&&◌, Option, none, some, [], if◌then◌else◌,
}
use fabric_shortcut_proxy.Dict.{insert, lookup}
use fabric_shortcut_proxy.Artifacts.Register.{Register}
use fabric_shortcut_proxy.Lease.Record.{
  LeaseRecord, Raw, object, fence_of, owned_by, ownerless, fence_is, new_record,
}
use fabric_shortcut_proxy.Lease.Leader.{
  LeaderLease, store_error, stale_leader, Result, ok, raise, message, lose, Env, read_raw, Pass,
  done, again, finish, is_current,
}
use mathlib.Core.Option

owner_of : Result (Option LeaseRecord) → Option String
owner_of (raise _) = none
owner_of (ok none) = none
owner_of (ok (some r)) = if ownerless r then none else r.owner_id

state_of : String → Result (Option LeaseRecord) → Result (Option String)
state_of name (raise e) = raise e
state_of name (ok none) = ok none
state_of name (ok (some r)) = ok (lookup name (Option.get_or r.state []))

-- `updated`: the record with one value of its state replaced.
unfoldable pub with_state : String → String → LeaseRecord → LeaseRecord
unfolding insert
with_state name value r = record r { state = some (insert name value (Option.get_or r.state [])) }

module _ (reg : Register Raw) where
  open reg use {Store, read, swap}

  -- `release`: whatever happens, the local state is cleared.
  release_swap :
      Env Store → LeaderLease → Store → Result (Option LeaseRecord) → Store × Option String
  unfolding owned_by fence_is
  release_swap env l s (raise e) = (s, some (message e))
  release_swap env l s (ok none) = (s, none)
  release_swap env l s (ok (some r)) =
      if owned_by l.owner_id r && fence_is l.fence r
      then (elim (env.swap_raises 0) [
        | some exc ↦ (env.gap 0 s, some exc)
        | none ↦ (
          (swap (read s) (object (new_record "" 0 l.ttl_ms (Option.get_or r.fence l.fence) r.state))
              (env.gap 0 s)).0,
          none,
        )
      ])
      else (s, none)

  unfoldable pub release : Env Store → LeaderLease → Store → LeaderLease × Store
  unfolding release_swap read_raw
  release env l s =
      let (s', failure) = release_swap env l s (read_raw (env.read_raises 0) (read s)) in
      (
        record l { is_leader = false; fence = 0; last_error = Option.get_or failure l.last_error },
        s',
      )

  unfoldable pub current_owner : Option String → Store → Option String
  unfolding owner_of ownerless read_raw
  current_owner fault s = owner_of (read_raw fault (read s))

  unfoldable pub read_state : Option String → String → Store → Result (Option String)
  unfolding state_of read_raw lookup
  read_state fault name s = state_of name (read_raw fault (read s))

  -- One pass of the loop of `mutate_state`, on what it read.
  unfoldable pub mutate_on :
      Option String
      → (Store → Store)
      → String
      → String
      → ℕ
      → LeaderLease
      → Store
      → Result (Option LeaseRecord)
      → Pass (LeaderLease × Store × Result ℕ) Store
  unfolding is_current lose with_state
  mutate_on fault gap name value now l s (raise e) = done (l, s, raise e)
  mutate_on fault gap name value now l s (ok none) = done (lose l, s, raise stale_leader)
  mutate_on fault gap name value now l s (ok (some r)) =
      if is_current l.owner_id l.fence l.ttl_ms now r
      then (elim fault [
        | some exc ↦ done (l, gap s, raise (store_error exc))
        | none ↦
            (let (s', won) = swap (read s) (object (with_state name value r)) (gap s) in
              if won then done (record l { last_error = "" }, s', ok (fence_of r)) else again s')
      ])
      else done (lose l, s, raise stale_leader)

  -- `for _attempt in range(8)`.
  unfoldable pub mutate_from :
      ℕ → ℕ → Env Store → String → String → ℕ → LeaderLease → Store → LeaderLease × Store × Result ℕ
  unfolding mutate_on read_raw
  mutate_from zero k env name value now l s =
      (l, s, raise (store_error "Manager state compare-and-swap contention"))
  mutate_from (suc n) k env name value now l s =
      finish
        (mutate_on (env.swap_raises k) (env.gap k) name value now l s
          (read_raw (env.read_raises k) (read s)))
        (λ s'. mutate_from n (k + 1) env name value now l s')

  unfoldable pub mutate_state :
      Env Store → String → String → ℕ → LeaderLease → Store → LeaderLease × Store × Result ℕ
  unfolding mutate_from
  mutate_state = mutate_from 8 0
