-- ===== src/Scheduler/Best.antt =====
-- The least loaded of the candidates, and the agent that `dispatch_once` of
-- enterprise/control/task_scheduler.py takes for a task. The load of an agent is a fraction, which
-- is compared by its two numbers.
use fabric_shortcut_proxy.Prelude.{
  ℕ, ◌*◌, String, Bool, ◌&&◌, ◌||◌, Option, none, some, List, [], ◌∷◌, if◌then◌else◌, ltb, ◌==◌,
  text_before,
}
use fabric_shortcut_proxy.Prelude.Int.{ℤ}
use fabric_shortcut_proxy.Placement.{MaterializerPolicy}
use fabric_shortcut_proxy.Registry.{Registry}
use fabric_shortcut_proxy.WorkQueue.Task.{MaterializeTask}
use fabric_shortcut_proxy.Scheduler.{Counts, Candidate, eligible_agents, placement_eligible}

-- `load / capacity` of the one is below that of the other, or equal and its text is before.
unfoldable pub is_better : (String → String) → Candidate → Candidate → Bool
is_better tie x y =
    ltb (x.load * y.capacity) (y.load * x.capacity)
    || ((x.load * y.capacity == y.load * x.capacity)
        && text_before (tie x.agent_id) (tie y.agent_id))

unfoldable pub best_of : (String → String) → Candidate → List Candidate → Candidate
unfolding is_better
best_of tie x [] = x
best_of tie x (y ∷ ys) = best_of tie (if is_better tie y x then y else x) ys

-- The first least candidate; `tie` is the digest of the task and an agent.
unfoldable pub best : (String → String) → List Candidate → Option Candidate
unfolding best_of
best tie [] = none
best tie (x ∷ xs) = some (best_of tie x xs)

-- The agent that `dispatch_once` takes for a task.
unfoldable pub choose :
    (String → String → Bool)
    → (String → Option (ℕ × ℕ))
    → (String → String → String)
    → ℕ
    → Registry
    → ℕ
    → Option ℤ
    → Option (List String)
    → MaterializerPolicy
    → String
    → MaterializeTask
    → Counts
    → Option Candidate
unfolding best placement_eligible eligible_agents
choose fnmatchcase version_tuple tie_break now r inflight shard allowed policy task_id t counts =
    best (tie_break task_id) (
      placement_eligible fnmatchcase version_tuple r policy t counts
        (eligible_agents now r inflight counts.agents shard allowed))
