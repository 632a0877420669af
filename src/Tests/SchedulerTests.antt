-- ===== src/Tests/SchedulerTests.antt =====
-- enterprise/control/task_scheduler.py at concrete inputs: one agent, and a queue with a task that
-- is queued.
use fabric_shortcut_proxy.Prelude.{true, false, none, some, ◌≡◌, refl, sorted_set}
use fabric_shortcut_proxy.Dict.{lookup, insert}
use fabric_shortcut_proxy.Placement.{
  no_policy, pool_for_identity, validate_agent_version, is_enabled,
}
use fabric_shortcut_proxy.Placement.Rules.{validate_task_tenant, validate_dispatch}
use fabric_shortcut_proxy.Registry.{AgentRecord}
use fabric_shortcut_proxy.Registry.Snapshot.{snapshot}
use fabric_shortcut_proxy.Registry.Calls.{is_alive}
use fabric_shortcut_proxy.Registry.History.{run}
use fabric_shortcut_proxy.Scheduler.{Candidate, is_eligible, placement_eligible}
use fabric_shortcut_proxy.Scheduler.Best.{choose}
use fabric_shortcut_proxy.Scheduler.Choice.{IsChoice, choose-IsChoice}
use fabric_shortcut_proxy.Scheduler.Dispatch.{Setting, no_counts}
use fabric_shortcut_proxy.Tests.RegistryTests.{readers, works, one_agent, one_agent-IsWell}
use fabric_shortcut_proxy.Tests.QueueTests.{texts, work}

abbrev setting : Setting
setting = record {
  manager_owner = "m";
  manager_fence = 1;
  max_inflight_per_agent = 2;
  is_elastic = false;
  claim_lease_seconds = 120;
  fnmatchcase = λ name pattern. true;
  readers = readers;
  texts = texts;
  tie_break = λ task agent. agent;
  token = λ task. task;
  generation = λ task. none;
  write = λ task. works 1002000;
  is_removed = λ task. false;
}

abbrev only_one : Candidate
only_one = record { agent_id = "agent-1"; load = 0; capacity = 2 }

one_is_chosen :
    choose setting.fnmatchcase readers.version_tuple setting.tie_break 1002000 one_agent 2 none none
      no_policy "t1" work no_counts
    ≡ some only_one
unfolding choose run lookup insert validate_agent_version pool_for_identity snapshot
    placement_eligible is_eligible is_alive validate_task_tenant validate_dispatch is_enabled
    sorted_set
one_is_chosen = refl

choose-IsChoice_example :
    (a : AgentRecord) × (lookup "agent-1" one_agent.agents ≡ some a)
    × IsChoice setting.fnmatchcase readers.version_tuple 1002000 one_agent 2 none none no_policy
        work no_counts a
choose-IsChoice_example =
    choose-IsChoice setting.fnmatchcase readers.version_tuple setting.tie_break readers 1002000
      one_agent 2 none none no_policy "t1" work no_counts only_one one_agent-IsWell one_is_chosen
