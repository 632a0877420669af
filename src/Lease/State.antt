-- ===== src/Lease/State.antt =====
-- Manager state in the lease record: what `mutate_state` commits, and what a fenced Manager cannot.
use fabric_shortcut_proxy.Prelude.{
  ◌∙◌, ◌≤◌, ℕ, zero, suc, ◌+◌, String, str_eq, ◌≡◌, ◌≢◌, refl, Bool, true, false, Option, none,
  some, [], if◌then◌else◌, arith, Bool-cases, inl, inr, ap,
}
use fabric_shortcut_proxy.Dict.{lookup, lookup-insert}
use fabric_shortcut_proxy.Artifacts.Register.{Register}
use fabric_shortcut_proxy.Lease.Record.{
  LeaseRecord, Raw, object, non_object, undecodable, fence_of, expired, fence_is,
}
use fabric_shortcut_proxy.Lease.Takes.{ends_at}
use fabric_shortcut_proxy.Lease.Leader.{
  parse, LeaderLease, Result, ok, raise, Env, read_raw, is_current, Pass, done, again, finish,
}
use fabric_shortcut_proxy.Lease.Durable.{
  with_state, mutate_on, mutate_from, mutate_state, read_state,
}
use fabric_shortcut_proxy.Lease.Fleet.{owned_by-owner}
use mathlib.Core.Option

-- The record that a commit read, which stood there still at the swap, and what it wrote.
pub record Committed (reg : Register Raw) (env : Env reg.Store) (l : LeaderLease) (now : ℕ)
    (name value : String) (o : LeaderLease × reg.Store × Result ℕ) : Type 0 where
  pub found : LeaseRecord
  pub pass : ℕ
  pub seen : reg.Store
  pub was_read : reg.read seen ≡ some (object found)
  pub unchanged : reg.read (env.gap pass seen) ≡ some (object found)
  pub owned : found.owner_id ≡ some l.owner_id
  pub term : found.fence ≡ some l.fence
  pub live : now ≤ ends_at l found
  pub swapped :
      o.1
      ≡ (reg.swap
          (some (object found))
          (object (with_state name value found))
          (env.gap pass seen)).0
  pub written : reg.read o.1 ≡ some (object (with_state name value found))
  pub reported : o.2 ≡ ok l.fence

abbrev pub is_ok : Result ℕ → Bool
is_ok (ok _) = true
is_ok (raise _) = false

fence_is-fence : (fence : ℕ) (r : LeaseRecord) → fence_is fence r ≡ true → r.fence ≡ some fence
unfolding fence_is
fence_is-fence fence r h = ground arith

module _ (reg : Register Raw) (env : Env reg.Store) (l : LeaderLease) (now : ℕ)
    (name value : String) where
  abbrev Settled : Pass (LeaderLease × reg.Store × Result ℕ) reg.Store → Type 0
  Settled (done o) = is_ok o.2 ≡ true → Committed reg env l now name value o
  Settled (again s) = Unit {0}

  committed :
      (k : ℕ) (r : LeaseRecord) (s : reg.Store)
      → reg.read s ≡ some (object r)
      → is_current l.owner_id l.fence l.ttl_ms now r ≡ true
      → (reg.swap (reg.read s) (object (with_state name value r)) (env.gap k s)).1 ≡ true
      → Committed reg env l now name value (
        record l { last_error = "" },
        (reg.swap (reg.read s) (object (with_state name value r)) (env.gap k s)).0,
        ok (fence_of r),
      )
  unfolding is_current expired
  committed k r s there h won =
      let (was, is) =
        reg.swap_won (reg.read s) (object (with_state name value r)) (env.gap k s) won in
      record {
        found = r;
        pass = k;
        seen = s;
        was_read = there;
        unchanged = was ∙ there;
        owned = owned_by-owner l.owner_id r (ground arith);
        term = fence_is-fence l.fence r (ground arith);
        live = ground (arith, h);
        swapped = ap (λ x. (reg.swap x (object (with_state name value r)) (env.gap k s)).0) there;
        written = is;
        reported = ap (λ f. ok (Option.get_or f 0)) (fence_is-fence l.fence r (ground arith));
      }

  parsed_there :
      (fault : Option String) (raw : Option Raw) (r : LeaseRecord)
      → read_raw fault raw ≡ ok (some r)
      → raw ≡ some (object r)
  unfolding read_raw parse
  parsed_there (some exc) raw r h = cc
  parsed_there none none r h = cc
  parsed_there none (some (object u)) r h = cc
  parsed_there none (some (non_object text)) r h = cc
  parsed_there none (some (undecodable text)) r h = cc

  mutate_on-Settled :
      (fault : Option String) (k : ℕ) (s : reg.Store) (r : Result (Option LeaseRecord))
      → ((u : LeaseRecord) → r ≡ ok (some u) → reg.read s ≡ some (object u))
      → Settled (mutate_on reg fault (env.gap k) name value now l s r)
  unfolding mutate_on
  mutate_on-Settled fault k s (raise e) there = λ h. cc
  mutate_on-Settled fault k s (ok none) there = λ h. cc
  mutate_on-Settled (some exc) k s (ok (some r)) there =
      elim (Bool-cases (is_current l.owner_id l.fence l.ttl_ms now r)) [
        | inl current ↦ rw current (λ h. cc)
        | inr stale ↦ rw stale (λ h. cc)
      ]
  mutate_on-Settled none k s (ok (some r)) there =
      elim (Bool-cases (is_current l.owner_id l.fence l.ttl_ms now r)) [
        | inr stale ↦ rw stale (λ h. cc)
        | inl current ↦
            rw current
              (elim (Bool-cases
                (reg.swap (reg.read s) (object (with_state name value r)) (env.gap k s)).1) [
                  | inl won ↦ rw won (λ h. committed k r s (there r refl) current won)
                  | inr lost ↦ rw lost tt
                ])
      ]

  finish-Settled :
      (a : Pass (LeaderLease × reg.Store × Result ℕ) reg.Store)
      (rest : reg.Store → LeaderLease × reg.Store × Result ℕ)
      → Settled a
      → ((s : reg.Store) → Settled (done (rest s)))
      → Settled (done (finish a rest))
  finish-Settled (done o) rest w f = w
  finish-Settled (again s) rest w f = f s

  mutate_from-Settled :
      (n k : ℕ) (s : reg.Store) → Settled (done (mutate_from reg n k env name value now l s))
  unfolding mutate_from
  mutate_from-Settled zero k s = λ h. cc
  mutate_from-Settled (suc n) k s =
      finish-Settled _ _
        (mutate_on-Settled (env.swap_raises k) k s (read_raw (env.read_raises k) (reg.read s))
          (λ u e. parsed_there (env.read_raises k) (reg.read s) u e))
        (mutate_from-Settled n (k + 1))

-- Whatever other processes do: a `mutate_state` that returns has read a record that this owner held
-- under this Manager's fence and that had not expired, found that very record at its swap, replaced
-- it there by the record with the value under its name, and returned that fence.
pub mutate_commits :
    (reg : Register Raw) (env : Env reg.Store) (name value : String) (now fence : ℕ)
    (l : LeaderLease) (s : reg.Store)
    → (mutate_state reg env name value now l s).2 ≡ ok fence
    → Committed reg env l now name value (mutate_state reg env name value now l s)
unfolding mutate_state
mutate_commits reg env name value now fence l s h =
    mutate_from-Settled reg env l now name value 8 0 s (rw h refl)

-- After a `mutate_state` that returned, `read_state` gives the value under its name, and under
-- every other name what the record held before.
pub read-mutate :
    (reg : Register Raw) (env : Env reg.Store) (name value : String) (now fence : ℕ)
    (l : LeaderLease) (s : reg.Store)
    → (mutate_state reg env name value now l s).2 ≡ ok fence
    → (before : LeaseRecord) × (before.fence ≡ some l.fence)
      × ((other : String)
          → read_state reg none other (mutate_state reg env name value now l s).1
            ≡ ok (
                if str_eq name other
                then some value
                else lookup other (Option.get_or before.state [])))
unfolding read_state with_state
read-mutate reg env name value now fence l s h =
    let c = mutate_commits reg env name value now fence l s h in
    (
      c.found,
      c.term,
      λ other. rw c.written (rw (lookup-insert name other value (Option.get_or c.found.state []))),
    )

-- A Manager whose fence is not the durable one commits nothing: its first read ends the call, the
-- store is as it was, and the local leadership is gone unless the read itself failed.
pub stale_leader_commits_nothing :
    (reg : Register Raw) (env : Env reg.Store) (name value : String) (now : ℕ) (l : LeaderLease)
    (s : reg.Store) (r : LeaseRecord)
    → reg.read s ≡ some (object r)
    → r.fence ≢ some l.fence
    → let o = mutate_state reg env name value now l s in
      (o.1 ≡ s)
      × (is_ok o.2 ≡ false)
      × ((env.read_raises 0 ≡ none) → (o.0.is_leader ≡ false) × (o.0.fence ≡ 0))
unfolding mutate_state mutate_from mutate_on is_current
stale_leader_commits_nothing reg env name value now l s r there stale =
    rw there (ground (arith, fence_is-fence l.fence r))
