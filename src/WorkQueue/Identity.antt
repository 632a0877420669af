-- ===== src/WorkQueue/Identity.antt =====
-- The identity of a materialization request and of its tasks, and the one tenant and the one
-- dataset that its tasks share: the first part of `create_request` in
-- enterprise/control/work_queue.py.
use Prim.Native.String.{◌++◌ as ◌+++◌, slice}
use fabric_shortcut_proxy.Prelude.{
  ℕ, zero, suc, ◌+◌, ◌/◌, ◌%◌, String, str_eq, Bool, false, not, ◌&&◌, ◌||◌, List, [], ◌∷◌,
  if◌then◌else◌, ltb, any, is_nil,
}
use fabric_shortcut_proxy.WorkQueue.Task.{MaterializeTask}

-- The arguments of `create_request`.
pub record Creation : Type 0 where
  pub requested_key : String
  pub table : String
  pub epoch : ℕ
  pub table_format : String
  pub generation_id : String
  pub generation_fence : ℕ
  pub plan_sha256 : String
  pub tasks : List MaterializeTask
  pub deadline_ms : ℕ

digit : ℕ → String
digit n = slice "0123456789" n (n + 1)

-- `str(n)`; the number is fuel enough, since every step divides it by ten.
decimal_within : ℕ → ℕ → String
unfolding digit
decimal_within zero n = digit (n % 10)
decimal_within (suc fuel) n =
    let front = decimal_within fuel (n / 10) in
    if ltb n 10 then digit n else front +++ digit (n % 10)

unfoldable pub decimal : ℕ → String
unfolding decimal_within
decimal n = decimal_within n n

-- `"|".join`
unfoldable pub join_bar : List String → String
join_bar [] = ""
join_bar (x ∷ []) = x
join_bar (x ∷ y ∷ xs) = x +++ "|" +++ join_bar (y ∷ xs)

-- The set of the tenants of the tasks, the empty one left out, as a list.
tenants_of : List MaterializeTask → List String
tenants_of [] = []
tenants_of (t ∷ ts) =
    let rest = tenants_of ts in if str_eq t.tenant_id "" then rest else t.tenant_id ∷ rest

-- The set of the datasets of the tasks that name a connection and a table, as a list.
datasets_of : List MaterializeTask → List String
datasets_of [] = []
datasets_of (t ∷ ts) =
    let rest = datasets_of ts in
    if str_eq t.connection_id "" || str_eq t.source_table ""
    then rest
    else (t.connection_id +++ "::" +++ t.source_table) ∷ rest

-- `len(xs) > 1`, for a set
has_several : List String → Bool
has_several [] = false
has_several (x ∷ xs) = any (λ y. not (str_eq y x)) xs

-- `next(iter(xs), "")`, for a set of at most one text
first_or_empty : List String → String
first_or_empty [] = ""
first_or_empty (x ∷ xs) = x

unfoldable pub several_tenants : List MaterializeTask → Bool
unfolding tenants_of has_several
several_tenants ts =
    let tenants = tenants_of ts in
    has_several tenants || (not (is_nil tenants) && any (λ t. str_eq t.tenant_id "") ts)

unfoldable pub tenant_of : List MaterializeTask → String
unfolding tenants_of first_or_empty
tenant_of ts = first_or_empty (tenants_of ts)

unfoldable pub several_datasets : List MaterializeTask → Bool
unfolding datasets_of has_several
several_datasets ts = has_several (datasets_of ts)

unfoldable pub dataset_of : List MaterializeTask → String
unfolding datasets_of first_or_empty
dataset_of ts = first_or_empty (datasets_of ts)

unfoldable pub identity_of : Creation → String
unfolding decimal tenant_of join_bar
identity_of c =
    let tenant = tenant_of c.tasks in
    join_bar (
      c.table
      ∷ decimal c.epoch
      ∷ c.generation_id
      ∷ decimal c.generation_fence
      ∷ c.plan_sha256
      ∷ (if str_eq tenant "" then [] else tenant ∷ []))

-- The text whose hash is the id of a task.
unfoldable pub task_identity : String → MaterializeTask → String
unfolding decimal join_bar
task_identity request_id t = join_bar (request_id ∷ decimal t.split_index ∷ t.output_key ∷ [])
