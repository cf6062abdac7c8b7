-- ===== src/Scenarios/Tables.antt =====
-- Examples of the registry's theorems.

use hermes_pi_manager.Registry.Events.{prune_events}
use hermes_pi_manager.Registry.Rows.{Event, Execution, Registry, agent_end, message_update}
use hermes_pi_manager.Registry.Tasks.{enter_state, get_task, transition_task_state}
use hermes_pi_manager.Registry.Tasks.Cas.{transition_task_state_cas}
use hermes_pi_manager.Scenarios.{reg1, t1, task1, with_task-TasksDistinct, with_task-row}
use hermes_pi_manager.Base.{
  arith, All, [], if◌then◌else◌, keep, length, none, refl, some, text, text_eq, true, ◌+◌, ◌∷◌, ◌≡◌,
}
use hermes_pi_manager.Registry.Events.Retention.{
  is_young, IsRecent, is_structural, IdsAscend, prune_events_lem,
}

transition_task_state_cas_example :
    let (r', applied) = transition_task_state t1 Execution.settled (some 5000) 5000 reg1 in
    (applied ≡ true)
    × (get_task t1 r' ≡ (
        if text_eq t1 t1
        then some (enter_state Execution.settled (some 5000) 5000 task1)
        else get_task t1 reg1))
transition_task_state_cas_example =
    transition_task_state_cas t1 t1 Execution.settled (some 5000) 5000 reg1 task1
      (with_task-TasksDistinct task1) (with_task-row task1)

abbrev event1 : Event
event1 = record {
  id = 1;
  task_id = t1;
  ts = 1000;
  source = text "rpc";
  event_type = message_update;
  state_before = none;
  state_after = none;
  summary = none;
}

abbrev logged : Registry
logged = record reg1 {
  events = event1 ∷ record event1 { id = 2; event_type = agent_end } ∷ [];
  last_event_id = 2;
}

prune_events_lem_example :
    let (r', dropped) = prune_events 5000 (some 9000) 9000 logged in
    (keep is_structural r'.events ≡ keep is_structural logged.events)
    × (keep (is_young 5000 9000) r'.events ≡ keep (is_young 5000 9000) logged.events)
    × All (IsRecent 5000 9000) r'.events
    × (length r'.events + dropped ≡ length logged.events)
    × ((prune_events 5000 (some 9000) 9000 r').1 ≡ 0)
    × (r'.tasks ≡ logged.tasks)
prune_events_lem_example = prune_events_lem 5000 9000 9000 logged refl

logged-IdsAscend : IdsAscend logged
logged-IdsAscend = (omega arith, (omega arith, omega arith))
