-- ===== src/Tests/LeaseTests.antt =====
-- enterprise/control/lease.py at concrete inputs: two Managers over a `MemoryStore`.
use fabric_shortcut_proxy.Prelude.{
  ◌-◌, ◌≤◌, ◌<◌, String, ◌≡◌, ◌≢◌, ◌⊎◌, refl, [], ◌∷◌, Option, some, none, arith, if◌then◌else◌,
  ltb, true, false, inr, str_eq_iff, ℕ_discrete,
}
use fabric_shortcut_proxy.Dict.{Dict, lookup}
use fabric_shortcut_proxy.Artifacts.Register.{Register}
use fabric_shortcut_proxy.Artifacts.Memory.{swap_at}
use fabric_shortcut_proxy.Artifacts.Memory.Laws.{register_at}
use fabric_shortcut_proxy.Lease.Record.{LeaseRecord, Raw, object, Raw-discrete}
use fabric_shortcut_proxy.Lease.Leader.{
  LeaderLease, ok, raise, stale_leader, quiet, acquire_or_renew, validate, decide, carry_out,
  commit,
}
use fabric_shortcut_proxy.Lease.Durable.{mutate_state}
use fabric_shortcut_proxy.Lease.Terms.{Settles, acquire-Settles, validate-acquire, free_lease_taken}
use fabric_shortcut_proxy.Lease.State.{Committed, mutate_commits}
use fabric_shortcut_proxy.Lease.Fleet.{Fleet, Reach, start, next, acquire, fence_now, after}
use fabric_shortcut_proxy.Lease.Fleet.Exclusive.{IsStart, terms_exclusive}

abbrev key : String
key = "_control/leader.json"

abbrev reg : Register Raw
reg = register_at Raw-discrete key

-- What the Manager `a` wrote at time 5.
abbrev held : LeaseRecord
held = record {
  owner_id = some "a";
  renew_ms = some 5;
  ttl_ms = some 10;
  fence = some 3;
  state = some [];
}

abbrev store : Dict Raw
store = (key, object held) ∷ []

abbrev lease_a : LeaderLease
lease_a = record { owner_id = "a"; ttl_ms = 10; is_leader = true; fence = 3; last_error = "" }

abbrev lease_b : LeaderLease
lease_b = record { owner_id = "b"; ttl_ms = 10; is_leader = true; fence = 2; last_error = "" }

there : reg.read store ≡ some (object held)
unfolding lookup
there = refl

a_not_b : ◌≢◌ {A = String} "a" "b"
a_not_b = ground (arith, str_eq_iff "a" "b")

acquire-Settles_example :
    Settles reg (quiet reg.Store) 8 lease_b (acquire_or_renew reg (quiet reg.Store) 8 lease_b store)
acquire-Settles_example = acquire-Settles reg (quiet reg.Store) 8 lease_b store

b_named : ◌≢◌ {A = String} "b" ""
b_named = ground (arith, str_eq_iff "b" "")

b_takes_over :
    let o = acquire_or_renew reg (quiet reg.Store) 20 lease_b store in
    (◌⊎◌ (◌≡◌ {A = Option String} (some "a") (some "")) (15 < 20)
      → lease_b.owner_id ≢ ""
      → (o.2 ≡ true) × (o.0.fence ≡ 4))
    × (◌≡◌ {A = Option String} (some "a") (some "b") → 20 ≤ 15 → (o.2 ≡ true) × (o.0.fence ≡ 3))
b_takes_over = free_lease_taken reg 20 lease_b store held 5 10 there refl refl

validate-acquire_example :
    let o = acquire_or_renew reg (quiet reg.Store) 20 lease_b store in
    (r : LeaseRecord) × (reg.read o.1 ≡ some (object r))
    × ((validate reg none none none 31 o.0 o.1).1
        ≡ (if ltb 10 (31 - 20) then raise stale_leader else ok r))
validate-acquire_example =
    validate-acquire reg (quiet reg.Store) 20 31 lease_b store
      (b_takes_over.0 (inr (omega arith)) b_named).0

commits : (mutate_state reg (quiet reg.Store) "registry" "{}" 8 lease_a store).2 ≡ ok 3
unfolding mutate_state Raw-discrete lookup swap_at ℕ_discrete
commits = refl

mutate_commits_example :
    Committed reg
      (quiet reg.Store)
      lease_a
      8
      "registry"
      "{}"
      (mutate_state reg (quiet reg.Store) "registry" "{}" 8 lease_a store)
mutate_commits_example =
    mutate_commits reg (quiet reg.Store) "registry" "{}" 8 3 lease_a store commits

abbrev fresh : Fleet reg
fresh = record {
  store = [];
  lease = λ o. record { owner_id = o; ttl_ms = 10; is_leader = false; fence = 0; last_error = "" };
}

fresh-IsStart : IsStart reg fresh
fresh-IsStart = record { named = λ o. refl; unled = λ o. refl }

-- `a` takes the lease, and `b` has not.
abbrev led : Fleet reg
led = after reg fresh "a" (
    carry_out reg none (λ _. fresh.store) 1 (fresh.lease "a") fresh.store
      (decide none (fresh.lease "a") 1 (reg.read fresh.store)))

led-Reach : Reach reg fresh led
led-Reach = next start (acquire "a" 1 none none fresh.store)

led_fence : (led.lease "a").fence ≡ 1
unfolding after carry_out decide lookup swap_at Raw-discrete ℕ_discrete commit
led_fence = refl

terms_exclusive_example :
    ((led.lease "a").fence ≢ (led.lease "b").fence) × ((led.lease "a").fence ≤ fence_now reg led)
terms_exclusive_example =
    terms_exclusive reg "a" "b" fresh-IsStart led-Reach a_not_b (omega (arith, led_fence))
