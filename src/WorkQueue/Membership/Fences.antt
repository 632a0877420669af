-- ===== src/WorkQueue/Membership/Fences.antt =====
-- The fences of the workers in a membership of enterprise/control/work_queue.py.
use fabric_shortcut_proxy.Prelude.{
  ℕ, ◌≤◌, String, str_eq, str_eq_iff, str_eq_refl, Bool, true, false, Option, none, some, List, [],
  ◌∷◌, ◌==◌, ◌≡◌, refl, ◌∙◌, sym, ap, subst, arith, Bool-cases, inl, inr, some_inj,
}
use fabric_shortcut_proxy.Dict.{Dict, lookup, lookup-insert}
use fabric_shortcut_proxy.WorkQueue.Queue.{Queue, Worker, Membership}
use fabric_shortcut_proxy.WorkQueue.Membership.{
  Observed, departed, rejoins, observed_again, reconcile_worker, put_worker, reconcile_workers,
  allowed, next_membership, write_membership, same_policy, reconcile_known, reconcile_found,
  reconcile_membership,
}

-- The fence does not fall, and while it stays, an active worker stays active under its lease.
abbrev pub Advances : Worker → Worker → Type 0
Advances w w' =
    (w.worker_fence ≤ w'.worker_fence)
    × (w.worker_fence ≡ w'.worker_fence
        → w.is_active ≡ true
        → (w'.is_active ≡ true) × (w'.lease_hash ≡ w.lease_hash))

Advances-refl : (w : Worker) → Advances w w
Advances-refl w = (omega arith, λ same on. (on, refl))

Advances-trans : (u v w : Worker) → Advances u v → Advances v w → Advances u w
Advances-trans u v w f g = (
  omega (arith, f.0, g.0),
  λ same on.
      (let (on', lease) = f.1 (omega (arith, f.0, g.0, same)) on in
        let (on'', lease') = g.1 (omega (arith, f.0, g.0, same)) on' in (on'', lease' ∙ lease)),
)

observed-Advances : (now : ℕ) (w : Worker) (o : Observed) → Advances w (observed_again now w o)
unfolding observed_again
observed-Advances now w o = elim (Bool-cases (rejoins w o)) [
  | inl again ↦ rw again (omega arith, λ same on. (ground (arith, same)))
  | inr stays ↦
      let same_lease : str_eq w.lease_hash o.lease_hash ≡ true = ground (arith, stays) in
      rw stays
        (omega arith, λ same on. (refl, sym ((str_eq_iff w.lease_hash o.lease_hash).0 same_lease)))
]

reconcile_worker-Advances :
    (now : ℕ) (w : Worker) (o : Option Observed)
    → (w' : Worker) × ((reconcile_worker now (some w) o).0 ≡ some w') × Advances w w'
unfolding reconcile_worker departed
reconcile_worker-Advances now w (some o) = (observed_again now w o, refl, observed-Advances now w o)
reconcile_worker-Advances now w none = elim (Bool-cases w.is_active) [
  | inl on ↦ (departed now w, rw on refl, (omega arith, λ same on'. (ground (arith, same))))
  | inr off ↦ (w, rw off refl, Advances-refl w)
]

put_other :
    (i id : String) (o : Option Worker) (ws : Dict Worker)
    → str_eq i id ≡ false
    → lookup id (put_worker i o ws) ≡ lookup id ws
unfolding put_worker
put_other i id none ws other = refl
put_other i id (some w) ws other = rw (lookup-insert i id w ws, other) refl

put_same :
    (i id : String) (w : Worker) (ws : Dict Worker)
    → str_eq i id ≡ true
    → lookup id (put_worker i (some w) ws) ≡ some w
unfolding put_worker
put_same i id w ws same = rw (lookup-insert i id w ws, same) refl

put-Advances :
    (now : ℕ) (current : Dict Observed) (i id : String) (ws : Dict Worker) (w : Worker)
    → lookup id ws ≡ some w
    → (w' : Worker) × (lookup id
          (put_worker i (reconcile_worker now (lookup i ws) (lookup i current)).0 ws)
        ≡ some w')
      × Advances w w'
put-Advances now current i id ws w there = elim (Bool-cases (str_eq i id)) [
  | inr other ↦ (w, put_other i id _ ws other ∙ there, Advances-refl w)
  | inl same ↦
      let here : lookup i ws ≡ some w =
        subst (λ k. lookup k ws ≡ some w) (sym ((str_eq_iff i id).0 same)) there in
      let (w', e, step) = reconcile_worker-Advances now w (lookup i current) in
      (
        w',
        ap (λ o. lookup id (put_worker i (reconcile_worker now o (lookup i current)).0 ws)) here
            ∙ ap (λ o. lookup id (put_worker i o ws)) e
            ∙ put_same i id w' ws same,
        step,
      )
]

reconcile_workers-Advances :
    (now : ℕ) (current : Dict Observed) (ids : List String) (ws : Dict Worker) (id : String)
    (w : Worker)
    → lookup id ws ≡ some w
    → (w' : Worker) × (lookup id (reconcile_workers now current ids ws).0 ≡ some w') × Advances w w'
unfolding reconcile_workers
reconcile_workers-Advances now current [] ws id w there = (w, there, Advances-refl w)
reconcile_workers-Advances now current (i ∷ ids) ws id w there =
    let ws1 = put_worker i (reconcile_worker now (lookup i ws) (lookup i current)).0 ws in
    let (w1, there1, step1) = put-Advances now current i id ws w there in
    let (w2, there2, step2) = reconcile_workers-Advances now current ids ws1 id w1 there1 in
    (w2, there2, Advances-trans w w1 w2 step1 step2)

same_id :
    (id : String) (m : Membership) (q : Queue)
    → lookup id (write_membership id m q).memberships ≡ some m
unfolding write_membership
same_id id m q = rw (lookup-insert id id m q.memberships, str_eq_refl id) refl

reconcile_known-Advances :
    (now : ℕ) (id : String) (fence : ℕ) (current : Dict Observed) (elastic : Bool) (q : Queue)
    (m : Membership) (agent : String) (w : Worker)
    → lookup id q.memberships ≡ some m
    → lookup agent m.workers ≡ some w
    → (m' : Membership) × (w' : Worker) × (lookup id
          (reconcile_known now id fence current elastic m q).0.memberships
        ≡ some m')
      × (lookup agent m'.workers ≡ some w')
      × Advances w w'
unfolding reconcile_known next_membership
reconcile_known-Advances now id fence current elastic q m agent w known there =
    let new = next_membership now current m in
    let (w', there', step) =
      reconcile_workers-Advances now current (allowed m.is_elastic current m.workers) m.workers
        agent w there in
    elim (Bool-cases (m.generation_fence == fence)) [
      | inr other ↦ rw other (m, w, known, there, Advances-refl w)
      | inl mine ↦ elim (Bool-cases (same_policy m.is_elastic elastic)) [
        | inr changed ↦ rw (mine, changed) (m, w, known, there, Advances-refl w)
        | inl kept ↦ rw (mine, kept) (new, w', same_id id new q, there', step)
      ]
    ]

reconcile_found-Advances :
    (now : ℕ) (id : String) (fence : ℕ) (current : Dict Observed) (elastic : Bool) (q : Queue)
    (m : Membership) (o : Option Membership) (agent : String) (w : Worker)
    → lookup id q.memberships ≡ some m
    → o ≡ some m
    → lookup agent m.workers ≡ some w
    → (m' : Membership) × (w' : Worker) × (lookup id
          (reconcile_found now id fence current elastic o q).0.memberships
        ≡ some m')
      × (lookup agent m'.workers ≡ some w')
      × Advances w w'
unfolding reconcile_found
reconcile_found-Advances now id fence current elastic q m none agent w known e there = cc
reconcile_found-Advances now id fence current elastic q m (some m2) agent w known e there =
    let same : m2 ≡ m = some_inj e in
    reconcile_known-Advances now id fence current elastic q m2 agent w (known ∙ ap some (sym same))
      (subst (λ x. lookup agent x.workers ≡ some w) (sym same) there)

-- Reconciling a membership with any set of live agents keeps every worker, never lowers a worker's
-- fence, and leaves a fence in place only for a worker that is still active under the same lease,
-- if it was active: so a fence names one lease.
pub fence_names_lease :
    (now : ℕ) (id : String) (fence : ℕ) (current : Dict Observed) (elastic : Bool) (q : Queue)
    (m : Membership) (agent : String) (w : Worker)
    → lookup id q.memberships ≡ some m
    → lookup agent m.workers ≡ some w
    → (m' : Membership) × (w' : Worker) × (lookup id
          (reconcile_membership now id fence current elastic q).0.memberships
        ≡ some m')
      × (lookup agent m'.workers ≡ some w')
      × Advances w w'
unfolding reconcile_membership
fence_names_lease now id fence current elastic q m agent w known there =
    reconcile_found-Advances now id fence current elastic q m (lookup id q.memberships) agent w
      known known there
