-- ===== src/WorkQueue/Recover/Kept.antt =====
-- Exactly the ready requests stay when `recover` of enterprise/control/work_queue.py returns.
use fabric_shortcut_proxy.Prelude.{
  ℕ, String, str_eq, str_eq_iff, true, none, some, List, [], ◌∷◌, ◌||◌, ◌≡◌, refl, ◌∙◌, ap, arith,
  Bool-cases, Option, inl, inr, is_some, either, if◌then◌else◌, All, All-imp, contains,
}
use fabric_shortcut_proxy.Dict.{Dict, lookup, has_key, lookup-insert, IsStored, insert}
use fabric_shortcut_proxy.WorkQueue.Task.{Task, Request, is_in, is_terminal, failed}
use fabric_shortcut_proxy.WorkQueue.Steps.{
  Texts, cancel_versions, expire_versions, recover_versions,
}
use fabric_shortcut_proxy.WorkQueue.Queue.{
  Queue, write_request, on_found, on_task, on_tasks, tasks_of, task_ids, request_state,
}
use fabric_shortcut_proxy.WorkQueue.Changes.{
  refreshed, refresh_request, refresh_each, refresh_requests, expire_claims,
}
use fabric_shortcut_proxy.WorkQueue.Runnable.{is_ready}
use fabric_shortcut_proxy.WorkQueue.Recover.{
  recover_request, recover_requests, ready_ids, recover_task, recover_tasks, recover_records,
  recover,
}
use fabric_shortcut_proxy.WorkQueue.Recover.Requests.{
  id_of_request, requests-write_versions, recover_request-IsStored, recover_requests-other,
  recover_requests-ready,
}

recover_requests-IsStored :
    (now : ℕ) (rs : Dict Request) (q : Queue)
    → IsStored id_of_request q.requests
    → IsStored id_of_request (recover_requests now rs q).requests
unfolding recover_requests
recover_requests-IsStored now [] q h = h
recover_requests-IsStored now ((k, r) ∷ rs) q h =
    recover_requests-IsStored now rs (recover_request now r q) (recover_request-IsStored now r q h)

requests-recover_task :
    (now : ℕ) (ids : List String) (t : Task) (q : Queue)
    → (recover_task now ids t q).requests ≡ q.requests
unfolding recover_task
requests-recover_task now ids t q = elim (Bool-cases (contains ids t.request_id)) [
  | inl kept ↦ rw kept (requests-write_versions (recover_versions now t) q)
  | inr orphan ↦ rw orphan refl
]

requests-recover_tasks :
    (now : ℕ) (ids : List String) (ts : Dict Task) (q : Queue)
    → (recover_tasks now ids ts q).requests ≡ q.requests
unfolding recover_tasks
requests-recover_tasks now ids [] q = refl
requests-recover_tasks now ids ((k, t) ∷ ts) q =
    requests-recover_tasks now ids ts (recover_task now ids t q) ∙ requests-recover_task now ids t q

requests-on_found :
    (versions : Task → List Task) (o : Option Task) (q : Queue)
    → (on_found versions o q).requests ≡ q.requests
unfolding on_found
requests-on_found versions none q = refl
requests-on_found versions (some t) q = requests-write_versions (versions t) q

requests-on_tasks :
    (versions : Task → List Task) (ids : List String) (q : Queue)
    → (on_tasks versions ids q).requests ≡ q.requests
unfolding on_tasks on_task
requests-on_tasks versions [] q = refl
requests-on_tasks versions (id ∷ ids) q =
    requests-on_tasks versions ids (on_task versions id q)
    ∙ requests-on_found versions (lookup id q.tasks) q

-- Both have the same requests, by their ids.
abbrev SameIds : Dict Request → Dict Request → Type 0
SameIds d e = (id : String) → has_key id d ≡ has_key id e

SameIds-insert :
    (id : String) (r : Request) (d : Dict Request) → has_key id d ≡ true → SameIds (insert id r d) d
SameIds-insert id r d there k = ground (arith, there, lookup-insert id k r d, str_eq_iff id k)

module _ (texts : Texts) where
  SameIds-refreshed :
      (now : ℕ) (r : Request) (ts : List Task) (q : Queue)
      → has_key r.request_id q.requests ≡ true
      → SameIds (write_request (refreshed texts now r ts) q).requests q.requests
  unfolding write_request refreshed
  SameIds-refreshed now r ts q there =
      SameIds-insert r.request_id (refreshed texts now r ts) q.requests there

  SameIds-refresh_request :
      (now : ℕ) (r : Request) (q : Queue)
      → has_key r.request_id q.requests ≡ true
      → SameIds (refresh_request texts now r q).requests q.requests
  unfolding refresh_request
  SameIds-refresh_request now r q there k =
      let ts = tasks_of r.task_ids q.tasks in
      let fails = is_in (request_state ts) failed in
      let q' =
        if fails then on_tasks (cancel_versions texts now "request_failed") r.task_ids q else q in
      let same : q'.requests ≡ q.requests =
        either (λ (x : Queue). x.requests ≡ q.requests) fails _ _
          (requests-on_tasks (cancel_versions texts now "request_failed") r.task_ids q) refl in
      either (λ (x : Queue). has_key k x.requests ≡ has_key k q.requests)
        (r.published || is_terminal r.state) _ _ refl
        (SameIds-refreshed now r ts q' (ap (λ d. has_key r.request_id d) same ∙ there) k
          ∙ ap (λ d. has_key k d) same)

  SameIds-refresh_each :
      (now : ℕ) (rs : Dict Request) (q : Queue)
      → All (λ e. has_key e.1.request_id q.requests ≡ true) rs
      → SameIds (refresh_each texts now rs q).requests q.requests
  unfolding refresh_each
  SameIds-refresh_each now [] q there k = refl
  SameIds-refresh_each now ((i, r) ∷ rs) q there k =
      let first = SameIds-refresh_request now r q there.0 in
      SameIds-refresh_each now rs (refresh_request texts now r q)
        (All-imp _ _ rs (λ e h. first e.1.request_id ∙ h) there.1) k
      ∙ first k

own_keys :
    (rs d : Dict Request)
    → All (λ e. str_eq e.0 e.1.request_id ≡ true) rs
    → ((id : String) → has_key id rs ≡ true → has_key id d ≡ true)
    → All (λ e. has_key e.1.request_id d ≡ true) rs
own_keys [] d own there = tt
own_keys ((k, r) ∷ rs) d own there = (
  there r.request_id (unfold lookup in ground (arith, own.0)),
  own_keys rs d own.1 (λ id h. there id (unfold lookup in ground (arith, h))),
)

recover_requests-left :
    (now : ℕ) (id : String) (q : Queue) (o : Option Request)
    → lookup id q.requests ≡ o
    → IsStored id_of_request q.requests
    → has_key id (recover_requests now q.requests q).requests ≡ is_ready o
recover_requests-left now id q none absent h =
    ap (λ o. is_some o) (recover_requests-other now q.requests id q h absent ∙ absent)
recover_requests-left now id q (some r) found h =
    let there : has_key id q.requests ≡ true = ap (λ o. is_some o) found in
    recover_requests-ready now q.requests id q h there there ∙ ap (λ o. is_ready o) found

-- The requests at the end of the loops.
has_key-recover_records :
    (now : ℕ) (id : String) (q : Queue)
    → IsStored id_of_request q.requests
    → has_key id (recover_records now q).requests ≡ is_ready (lookup id q.requests)
unfolding recover_records
has_key-recover_records now id q h =
    let q1 = recover_requests now q.requests q in
    let loop = recover_requests-left now id q (lookup id q.requests) refl h in
    ap (λ d. has_key id d) (requests-recover_tasks now (ready_ids q.requests) q1.tasks q1) ∙ loop

recover_records-IsStored :
    (now : ℕ) (q : Queue)
    → IsStored id_of_request q.requests
    → IsStored id_of_request (recover_records now q).requests
unfolding recover_records
recover_records-IsStored now q h =
    let q1 = recover_requests now q.requests q in
    rw (requests-recover_tasks now (ready_ids q.requests) q1.tasks q1)
      (recover_requests-IsStored now q.requests q h)

-- `recover` leaves exactly the requests that are ready.
pub has_key-recover :
    (texts : Texts) (now : ℕ) (id : String) (q : Queue)
    → IsStored id_of_request q.requests
    → has_key id (recover texts now q).requests ≡ is_ready (lookup id q.requests)
unfolding recover expire_claims refresh_requests
has_key-recover texts now id q h =
    let q2 = recover_records now q in
    let q3 = on_tasks (expire_versions now) (task_ids q2.tasks) q2 in
    let same = requests-on_tasks (expire_versions now) (task_ids q2.tasks) q2 in
    let stored = recover_records-IsStored now q h in
    let all_there : All (λ e. has_key e.1.request_id q3.requests ≡ true) q3.requests =
      rw same (own_keys q2.requests q2.requests stored.1 (λ i there. there)) in
    SameIds-refresh_each texts now q3.requests q3 all_there id
    ∙ ap (λ d. has_key id d) same
    ∙ has_key-recover_records now id q h
