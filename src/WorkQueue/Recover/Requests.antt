-- ===== src/WorkQueue/Recover/Requests.antt =====
-- The requests that `recover` of enterprise/control/work_queue.py leaves.
use fabric_shortcut_proxy.Prelude.{
  ℕ, String, str_eq, str_eq_iff, true, false, none, List, [], ◌∷◌, if◌then◌else◌, ◌≡◌, refl, ◌∙◌,
  ap, arith, either, Bool-cases, inl, inr, is_some,
}
use fabric_shortcut_proxy.Dict.{
  Dict, lookup, insert, remove, has_key, lookup-insert, lookup-remove, IsStored, IsStored-insert,
  IsStored-remove,
}
use fabric_shortcut_proxy.WorkQueue.Task.{Task, Request}
use fabric_shortcut_proxy.WorkQueue.Queue.{Queue, write_task, write_request, write_versions}
use fabric_shortcut_proxy.WorkQueue.Runnable.{is_ready}
use fabric_shortcut_proxy.WorkQueue.Create.{write_idempotency}
use fabric_shortcut_proxy.WorkQueue.Recover.{
  delete_tasks, has_missing, missing_request, recover_ready, remove_unready, recover_request,
  recover_requests,
}

abbrev pub id_of_request : Request → String
id_of_request r = r.request_id

requests-delete_tasks : (ids : List String) (q : Queue) → (delete_tasks ids q).requests ≡ q.requests
unfolding delete_tasks
requests-delete_tasks [] q = refl
requests-delete_tasks (id ∷ ids) q =
    requests-delete_tasks ids (record q { tasks = remove id q.tasks })

pub requests-write_versions :
    (us : List Task) (q : Queue) → (write_versions us q).requests ≡ q.requests
unfolding write_versions write_task
requests-write_versions [] q = refl
requests-write_versions (u ∷ us) q = requests-write_versions us (write_task u q)

-- What one request does to the requests.
requests-recover_request :
    (now : ℕ) (r : Request) (q : Queue)
    → (recover_request now r q).requests ≡ (
        if r.ready
        then if has_missing r.task_ids q.tasks
          then insert r.request_id (missing_request now r) q.requests
          else q.requests
        else remove r.request_id q.requests)
unfolding recover_request recover_ready remove_unready write_request write_idempotency
    missing_request
requests-recover_request now r q = elim (Bool-cases r.ready) [
  | inr unready ↦ rw (unready) (ap (remove r.request_id) (requests-delete_tasks r.task_ids q))
  | inl ready ↦ elim (Bool-cases (has_missing r.task_ids q.tasks)) [
    | inl missing ↦ rw (ready, missing) refl
    | inr whole ↦ rw (ready, whole) refl
  ]
]

IsStored-missing :
    (now : ℕ) (r : Request) (d : Dict Request)
    → IsStored id_of_request d
    → IsStored id_of_request (insert r.request_id (missing_request now r) d)
unfolding missing_request
IsStored-missing now r d h = IsStored-insert id_of_request (missing_request now r) d h

pub recover_request-IsStored :
    (now : ℕ) (r : Request) (q : Queue)
    → IsStored id_of_request q.requests
    → IsStored id_of_request (recover_request now r q).requests
recover_request-IsStored now r q h = rw (requests-recover_request now r q) (
    either (IsStored id_of_request) r.ready _ _
      (either (IsStored id_of_request) (has_missing r.task_ids q.tasks) _ _
        (IsStored-missing now r q.requests h) h)
      (IsStored-remove id_of_request r.request_id q.requests h))

recover_request-other :
    (now : ℕ) (r : Request) (id : String) (q : Queue)
    → str_eq r.request_id id ≡ false
    → lookup id (recover_request now r q).requests ≡ lookup id q.requests
recover_request-other now r id q other = rw (requests-recover_request now r q) (
    ground (
      arith,
      lookup-insert r.request_id id (missing_request now r) q.requests,
      lookup-remove r.request_id id q.requests,
      other,
    ))

recover_request-same :
    (now : ℕ) (r : Request) (id : String) (q : Queue)
    → str_eq r.request_id id ≡ true
    → has_key id q.requests ≡ true
    → has_key id (recover_request now r q).requests ≡ r.ready
recover_request-same now r id q same there = rw (requests-recover_request now r q) (
    ground (
      arith,
      lookup-insert r.request_id id (missing_request now r) q.requests,
      lookup-remove r.request_id id q.requests,
      same,
      there,
    ))

-- The loop leaves the requests that are not on its list, and of those on it the ready ones.
pub recover_requests-other :
    (now : ℕ) (rs : Dict Request) (id : String) (q : Queue)
    → IsStored id_of_request rs
    → lookup id rs ≡ none
    → lookup id (recover_requests now rs q).requests ≡ lookup id q.requests
unfolding recover_requests lookup
recover_requests-other now [] id q own absent = refl
recover_requests-other now ((k, r) ∷ rs) id q own absent =
    recover_requests-other now rs id (recover_request now r q) (own.0.1, own.1.1)
      (ground (arith, absent))
    ∙ recover_request-other now r id q (
        ground (
          arith,
          absent,
          own.1.0,
          str_eq_iff k id,
          str_eq_iff k r.request_id,
          str_eq_iff r.request_id id,
        ))

pub recover_requests-ready :
    (now : ℕ) (rs : Dict Request) (id : String) (q : Queue)
    → IsStored id_of_request rs
    → has_key id rs ≡ true
    → has_key id q.requests ≡ true
    → has_key id (recover_requests now rs q).requests ≡ is_ready (lookup id rs)
unfolding recover_requests lookup
recover_requests-ready now [] id q own listed there = cc
recover_requests-ready now ((k, r) ∷ rs) id q own listed there = elim (Bool-cases (str_eq k id)) [
  | inl same ↦
      let absent : lookup id rs ≡ none = ground (arith, own.0.0, (str_eq_iff k id).0 same) in
      let mine : str_eq r.request_id id ≡ true = ground (
        arith,
        own.1.0,
        same,
        str_eq_iff k id,
        str_eq_iff k r.request_id,
        str_eq_iff r.request_id id,
      ) in
      rw same (
        ap (λ o. is_some o)
          (recover_requests-other now rs id (recover_request now r q) (own.0.1, own.1.1) absent)
        ∙ recover_request-same now r id q mine there)
  | inr other ↦
      let theirs : str_eq r.request_id id ≡ false = ground (
        arith,
        own.1.0,
        other,
        str_eq_iff k id,
        str_eq_iff k r.request_id,
        str_eq_iff r.request_id id,
      ) in
      rw other (
        recover_requests-ready now rs id (recover_request now r q) (own.0.1, own.1.1)
          (ground (arith, listed, other))
          (ap (λ o. is_some o) (recover_request-other now r id q theirs) ∙ there))
]
