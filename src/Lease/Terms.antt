-- ===== src/Lease/Terms.antt =====
-- One term of leadership: what a Manager holds after `acquire_or_renew`, on every outcome.
use fabric_shortcut_proxy.Prelude.{
  ℕ, zero, suc, ◌+◌, ◌-◌, ◌≤◌, ◌<◌, String, str_eq_refl, ◌≡◌, refl, sym, subst, Bool, true, false,
  Option, none, some, if◌then◌else◌, arith, Bool-cases, ◌≢◌, ◌⊎◌, str_eq_iff, ltb, inl, inr,
}
use fabric_shortcut_proxy.Dict.{Dict}
use fabric_shortcut_proxy.Artifacts.Register.{Register}
use fabric_shortcut_proxy.Lease.Record.{LeaseRecord, Raw, object, fence_of, new_record}
use fabric_shortcut_proxy.Lease.Takes.{Takes, PlanTakes, decide-PlanTakes}
use fabric_shortcut_proxy.Lease.Leader.{
  LeaderLease, stale_leader, ok, raise, Env, quiet, Plan, failed, stand_by, take, decide, claim,
  hold, acquire_from, acquire_or_renew, validate, can_take, same_live_owner, Attempt, done, again,
  commit, carry_out, attempt, plan_for, finish,
}

abbrev pub Outcome : Type 0 → Type 0
Outcome S = LeaderLease × S × Bool

-- A won swap replaced what stood there, which could be taken, by the claim of this Manager.
pub record Won (reg : Register Raw) (env : Env reg.Store) (now : ℕ) (l : LeaderLease)
    (o : Outcome reg.Store) : Type 0 where
  pub fence : ℕ
  pub state : Option (Dict String)
  pub pass : ℕ
  pub seen : reg.Store
  pub unchanged : reg.read (env.gap pass seen) ≡ reg.read seen
  pub taken : Takes now l (reg.read (env.gap pass seen)) fence state
  pub swapped : o.1 ≡ (reg.swap (reg.read seen) (claim l now fence state) (env.gap pass seen)).0
  pub written : reg.read o.1 ≡ some (claim l now fence state)
  pub held : o.0 ≡ hold l fence

-- An outcome that claims leadership has won it, and one that does not has given it up.
pub record Settles (reg : Register Raw) (env : Env reg.Store) (now : ℕ) (l : LeaderLease)
    (o : Outcome reg.Store) : Type 0 where
  pub won : o.2 ≡ true → Won reg env now l o
  pub lost : o.2 ≡ false → (o.0.is_leader ≡ false) × (o.0.fence ≡ 0)

abbrev Achieved :
    (reg : Register Raw) → Env reg.Store → ℕ → LeaderLease → Attempt reg.Store → Type 0
Achieved reg env now l (done o) = Settles reg env now l o
Achieved reg env now l (again s) = Unit {0}

module _ (reg : Register Raw) (env : Env reg.Store) (now : ℕ) (l : LeaderLease) where
  gives_up :
      (o : Outcome reg.Store)
      → o.2 ≡ false
      → o.0.is_leader ≡ false
      → o.0.fence ≡ 0
      → Settles reg env now l o
  gives_up o e p q = record { won = λ h. cc; lost = λ _. (p, q) }

  commit-Achieved :
      (fence : ℕ) (state : Option (Dict String)) (k : ℕ) (s : reg.Store)
      → Takes now l (reg.read s) fence state
      → Achieved reg env now l (commit reg l now fence state (reg.read s) (env.gap k s))
  unfolding commit
  commit-Achieved fence state k s takes =
      let new = claim l now fence state in
      elim (Bool-cases (reg.swap (reg.read s) new (env.gap k s)).1) [
        | inl won ↦
            let (was, is) = reg.swap_won (reg.read s) new (env.gap k s) won in
            rw won (record {
              won = λ h. record {
                fence = fence;
                state = state;
                pass = k;
                seen = s;
                unchanged = was;
                taken = subst (λ x. Takes now l x fence state) (sym was) takes;
                swapped = refl;
                written = is;
                held = refl;
              };
              lost = λ h. cc;
            })
        | inr lost ↦ rw lost tt
      ]

  carry_out-Achieved :
      (fault : Option String) (k : ℕ) (s : reg.Store) (p : Plan)
      → PlanTakes now l (reg.read s) p
      → Achieved reg env now l (carry_out reg fault (env.gap k) now l s p)
  unfolding carry_out
  carry_out-Achieved fault k s (failed e) takes = gives_up _ refl refl refl
  carry_out-Achieved fault k s stand_by takes = gives_up _ refl refl refl
  carry_out-Achieved (some exc) k s (take fence state) takes = gives_up _ refl refl refl
  carry_out-Achieved none k s (take fence state) takes = commit-Achieved fence state k s takes

  finish-Settles :
      (a : Attempt reg.Store) (rest : reg.Store → Outcome reg.Store)
      → Achieved reg env now l a
      → ((s : reg.Store) → Settles reg env now l (rest s))
      → Settles reg env now l (finish a rest)
  finish-Settles (done o) rest w f = w
  finish-Settles (again s) rest w f = f s

  acquire_from-Settles :
      (n k : ℕ) (s : reg.Store) → Settles reg env now l (acquire_from reg n k env now l s)
  unfolding acquire_from attempt
  acquire_from-Settles zero k s = gives_up _ refl refl refl
  acquire_from-Settles (suc n) k s =
      finish-Settles (attempt reg k env now l s) _
        (carry_out-Achieved (env.swap_raises k) k s (decide (env.read_raises k) l now (reg.read s))
          (decide-PlanTakes (env.read_raises k) l now (reg.read s)))
        (acquire_from-Settles n (k + 1))

-- Whatever other processes and the store do, `acquire_or_renew` ends in one of two ways. Either it
-- returns true and leads, its swap replaced what it had read by this owner's record of this time
-- under the fence that the Manager remembers, and what it replaced was: nothing, under fence 1; or
-- this owner's live record, under its fence; or a record that was released or past its ttl, under
-- the next fence. Or it returns false, does not lead, and has dropped its fence.
pub acquire-Settles :
    (reg : Register Raw) (env : Env reg.Store) (now : ℕ) (l : LeaderLease) (s : reg.Store)
    → Settles reg env now l (acquire_or_renew reg env now l s)
unfolding acquire_or_renew
acquire-Settles reg env now l s = acquire_from-Settles reg env now l 4 0 s

validate-claim :
    (reg : Register Raw) (later now fence : ℕ) (l : LeaderLease) (state : Option (Dict String))
    (s : reg.Store)
    → reg.read s ≡ some (claim l now fence state)
    → (validate reg none none none later (hold l fence) s).1 ≡ (
        if ltb l.ttl_ms (later - now)
        then raise stale_leader
        else ok (new_record l.owner_id now l.ttl_ms fence state))
unfolding validate new_record
validate-claim reg later now fence l state s h = rw h (ground (arith, str_eq_refl l.owner_id))

-- After `acquire_or_renew` returned true, `validate` accepts the term exactly as long as no more
-- than `ttl_ms` has passed since the renewal, if no one has written in between.
pub validate-acquire :
    (reg : Register Raw) (env : Env reg.Store) (now later : ℕ) (l : LeaderLease) (s : reg.Store)
    → (acquire_or_renew reg env now l s).2 ≡ true
    → let o = acquire_or_renew reg env now l s in
      (r : LeaseRecord) × (reg.read o.1 ≡ some (object r))
      × ((validate reg none none none later o.0 o.1).1
          ≡ (if ltb l.ttl_ms (later - now) then raise stale_leader else ok r))
validate-acquire reg env now later l s h =
    let w = (acquire-Settles reg env now l s).won h in
    (
      new_record l.owner_id now l.ttl_ms w.fence w.state,
      w.written,
      rw w.held (validate-claim reg later now w.fence l w.state _ w.written),
    )

module _ (reg : Register Raw) (now : ℕ) (l : LeaderLease) (s : reg.Store) (r : LeaseRecord) where
  refuse-standing_by :
      (env : Env reg.Store)
      → reg.read s ≡ some (object r)
      → can_take l r now ≡ false
      → ((acquire_or_renew reg env now l s).1 ≡ s) × ((acquire_or_renew reg env now l s).2 ≡ false)
  unfolding acquire_or_renew acquire_from attempt decide plan_for carry_out
  refuse-standing_by env there other = rw there (ground arith)

  quiet-taken :
      reg.read s ≡ some (object r)
      → can_take l r now ≡ true
      → ((acquire_or_renew reg (quiet reg.Store) now l s).0
          ≡ hold l (if same_live_owner l r now then fence_of r else fence_of r + 1))
        × ((acquire_or_renew reg (quiet reg.Store) now l s).2 ≡ true)
  unfolding acquire_or_renew acquire_from attempt decide plan_for carry_out commit
  quiet-taken there free =
      let fence : ℕ = if same_live_owner l r now then fence_of r else fence_of r + 1 in
      elim (Bool-cases (reg.swap (some (object r)) (claim l now fence r.state) s).1) [
        | inl won ↦ rw (there, free) (ground arith)
        | inr lost ↦ absurd ((reg.swap_lost _ _ s lost).0 there)
      ]

-- A live lease of another owner is never taken: `acquire_or_renew` returns false and writes
-- nothing, whatever the store raises.
pub live_lease_respected :
    (reg : Register Raw) (env : Env reg.Store) (now : ℕ) (l : LeaderLease) (s : reg.Store)
    (r : LeaseRecord) (holder : String) (renewed ttl : ℕ)
    → reg.read s ≡ some (object r)
    → r.owner_id ≡ some holder
    → r.renew_ms ≡ some renewed
    → r.ttl_ms ≡ some ttl
    → holder ≢ ""
    → holder ≢ l.owner_id
    → now ≤ renewed + ttl
    → ((acquire_or_renew reg env now l s).1 ≡ s) × ((acquire_or_renew reg env now l s).2 ≡ false)
unfolding can_take
live_lease_respected reg env now l s r holder renewed ttl there owner age span named other live =
    refuse-standing_by reg now l s r env there
      (ground (arith, str_eq_iff holder "", str_eq_iff holder l.owner_id))

-- With no one else writing and no fault, a lease that was released, or whose ttl has passed, is
-- taken at once under the next fence, and a live lease of this owner is renewed under its fence.
pub free_lease_taken :
    (reg : Register Raw) (now : ℕ) (l : LeaderLease) (s : reg.Store) (r : LeaseRecord)
    (renewed ttl : ℕ)
    → reg.read s ≡ some (object r)
    → r.renew_ms ≡ some renewed
    → r.ttl_ms ≡ some ttl
    → let o = acquire_or_renew reg (quiet reg.Store) now l s in
      ((r.owner_id ≡ some "") ⊎ (renewed + ttl < now)
        → l.owner_id ≢ ""
        → (o.2 ≡ true) × (o.0.fence ≡ fence_of r + 1))
      × (r.owner_id ≡ some l.owner_id
          → now ≤ renewed + ttl
          → (o.2 ≡ true) × (o.0.fence ≡ fence_of r))
unfolding can_take
free_lease_taken reg now l s r renewed ttl there age span = (
  λ free named. ground (arith, quiet-taken reg now l s r there, str_eq_iff "" l.owner_id),
  λ mine live. ground (arith, quiet-taken reg now l s r there, str_eq_refl l.owner_id),
)
