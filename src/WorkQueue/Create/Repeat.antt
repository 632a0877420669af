-- ===== src/WorkQueue/Create/Repeat.antt =====
-- `create_request` of enterprise/control/work_queue.py, called again.
use fabric_shortcut_proxy.Prelude.{
  ℕ, String, false, str_eq_refl, Option, none, some, List, [], ◌∷◌, ◌++◌, map, ◌≡◌, refl, ◌∙◌, sym,
  ap, subst, arith, Bool-cases, inl, inr, if◌then◌else◌, some_inj,
}
use fabric_shortcut_proxy.Dict.{lookup, lookup-insert}
use fabric_shortcut_proxy.WorkQueue.Task.{Request}
use fabric_shortcut_proxy.WorkQueue.Steps.{Texts}
use fabric_shortcut_proxy.WorkQueue.Queue.{Queue, write_request}
use fabric_shortcut_proxy.WorkQueue.Identity.{Creation, several_tenants, several_datasets}
use fabric_shortcut_proxy.WorkQueue.Create.{
  created, refused, QueueWrite, put_request, put_task, put_idempotency, apply_writes, request_id_of,
  new_tasks, new_request, ready_request, creation_writes, found_request, create_at, create_request,
  spans_several_tenants,
}

apply_writes-append :
    (us vs : List QueueWrite) (q : Queue)
    → apply_writes (us ++ vs) q ≡ apply_writes vs (apply_writes us q)
unfolding apply_writes
apply_writes-append [] vs q = refl
apply_writes-append (u ∷ us) vs q = apply_writes-append us vs (apply_writes (u ∷ []) q)

module _ (texts : Texts) (max_attempts : ℕ) where
  -- After the writes of a new request it stands under its id, and its id under the idempotency key.
  written_request :
      (now : ℕ) (c : Creation) (q : Queue)
      → let id = request_id_of texts c in
        let q' = apply_writes (creation_writes texts max_attempts now c) q in
        (lookup id q'.idempotency ≡ some id)
        × (lookup id q'.requests ≡ some (ready_request texts max_attempts now c))
  unfolding creation_writes apply_writes ready_request new_request
  written_request now c q =
      let id = request_id_of texts c in
      let q1 = write_request (new_request texts max_attempts now c) q in
      let rest =
        put_request (ready_request texts max_attempts now c) ∷ put_idempotency id id ∷ [] in
      rw (apply_writes-append (map put_task (new_tasks texts max_attempts now c)) rest q1) (
        rw (lookup-insert id id id _, str_eq_refl id) refl,
        rw (lookup-insert id id (ready_request texts max_attempts now c) _, str_eq_refl id) refl,
      )

  if-several :
      (now : ℕ) (c : Creation) (q : Queue)
      → several_tenants c.tasks ≡ false
      → create_request texts max_attempts now c q
        ≡ create_at texts max_attempts now c (lookup (request_id_of texts c) q.idempotency) q
  unfolding create_request
  if-several now c q one = rw one refl

  -- A creation that returns leaves its id and its request in the queue, and gives the request.
  create_at-Stored :
      (now : ℕ) (c : Creation) (o : Option String) (q : Queue) (r : Request)
      → lookup (request_id_of texts c) q.idempotency ≡ o
      → (create_at texts max_attempts now c o q).1 ≡ created r
      → let q' = (create_at texts max_attempts now c o q).0 in
        (id : String) × (lookup (request_id_of texts c) q'.idempotency ≡ some id)
        × (found_request texts max_attempts (lookup id q'.requests) ≡ created r)
  unfolding create_at
  create_at-Stored now c (some id) q r here done = (id, here, done)
  create_at-Stored now c none q r here done = elim (Bool-cases (several_datasets c.tasks)) [
    | inl several ↦ ground (arith, several, done)
    | inr one ↦
        let stored = written_request now c q in
        rw one (
          request_id_of texts c,
          stored.0,
          ap (found_request texts max_attempts) stored.1 ∙ ground (arith, one, done, found_request),
        )
  ]

  -- Found again under the same key: the queue stays and the request is the old one.
  create_at-found :
      (now : ℕ) (c : Creation) (o : Option String) (id : String) (q : Queue) (r : Request)
      → o ≡ some id
      → found_request texts max_attempts (lookup id q.requests) ≡ created r
      → create_at texts max_attempts now c o q ≡ (q, created r)
  unfolding create_at
  create_at-found now c none id q r here found = cc
  create_at-found now c (some j) id q r here found =
      ap (λ x. (q, x))
        (subst (λ i. found_request texts max_attempts (lookup i q.requests) ≡ created r)
          (sym (some_inj here)) found)

  found_again :
      (now later : ℕ) (c again : Creation) (q q' : Queue) (r : Request)
      → request_id_of texts again ≡ request_id_of texts c
      → create_at texts max_attempts now c (lookup (request_id_of texts c) q.idempotency) q
        ≡ (q', created r)
      → create_at texts max_attempts later again
          (lookup (request_id_of texts again) q'.idempotency)
          q'
        ≡ (q', created r)
  found_again now later c again q q' r same call =
      let stored =
        create_at-Stored now c (lookup (request_id_of texts c) q.idempotency) q r refl
          (ap (λ x. x.1) call) in
      let at_end : (id : String) × (lookup (request_id_of texts c) q'.idempotency ≡ some id)
          × (found_request texts max_attempts (lookup id q'.requests) ≡ created r) =
        subst
          (λ x.
            (id : String) × (lookup (request_id_of texts c) x.idempotency ≡ some id)
            × (found_request texts max_attempts (lookup id x.requests) ≡ created r))
          (ap (λ x. x.0) call) stored in
      create_at-found later again (lookup (request_id_of texts again) q'.idempotency) at_end.0 q' r
        (ap (λ i. lookup i q'.idempotency) same ∙ at_end.1) at_end.2

  -- Once a creation has returned a request, creating again at any time under the same identity,
  -- whatever the other arguments, changes nothing, makes no new task, and returns the same
  -- request; if the new tasks are of several tenants it is refused.
  pub create_request-repeated :
      (now later : ℕ) (c again : Creation) (q q' : Queue) (r : Request)
      → request_id_of texts again ≡ request_id_of texts c
      → create_request texts max_attempts now c q ≡ (q', created r)
      → create_request texts max_attempts later again q'
        ≡ (q', if several_tenants again.tasks then refused spans_several_tenants else created r)
  unfolding create_request
  create_request-repeated now later c again q q' r same done =
      elim (Bool-cases (several_tenants c.tasks)) [
        | inl several ↦ ground (arith, several, done)
        | inr one ↦
            let found =
              found_again now later c again q q' r same (sym (if-several now c q one) ∙ done) in
            elim (Bool-cases (several_tenants again.tasks)) [
              | inl several ↦ rw several refl
              | inr one' ↦ rw one' found
            ]
      ]
