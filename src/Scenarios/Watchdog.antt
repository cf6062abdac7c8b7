-- ===== src/Scenarios/Watchdog.antt =====
-- Examples of the theorems on the watchdog.
use hermes_pi_manager.Base.Json.{Members}
use hermes_pi_manager.Registry.Tasks.{get_task}
use hermes_pi_manager.Base.Int.{pos}
use hermes_pi_manager.Manager.Watchdog.Stalls.{AbortAnswer}
use hermes_pi_manager.Manager.State.{rt_of, state_of, Manager, Runtime, default_thresholds}
use hermes_pi_manager.Manager.Watchdog.Moves.{beat_of, grace_over, states}
use hermes_pi_manager.Manager.Watchdog.{
  Observed, active_tool_of, is_capped, quiet_threshold, watchdog_tick,
}
use hermes_pi_manager.Manager.Watchdog.Moves.Policy.{watchdog_tick-moves}
use hermes_pi_manager.Registry.Rows.{Registry, Execution, Task}
use hermes_pi_manager.Manager.Aborts.{polled}
use hermes_pi_manager.Manager.Watchdog.Evidence.{
  heartbeat_heals_back, is_unchanged, tick_aborts_by_cap, tick_stalls_on_evidence,
}
use hermes_pi_manager.Manager.Watchdog.Heartbeats.{
  apply_changed_heartbeat, mark_unresponsive, compute_state_hash, state_error, state_read,
}
use hermes_pi_manager.Scenarios.{
  with_task, blank, hash, m1, manager_of, manager_of-runtime, runtime1, t1, task1, with_task-row,
}
use hermes_pi_manager.Base.{
  ap, get_or, [], none, or_time, refl, select, some, text, text_eq, true, ◌+◌, ◌↔◌, ◌≡◌, ◌≢◌, ◌≤◌,
}

-- A process that answers `get_state`, and whose state has the hash that is stored.
abbrev quiet_process : Observed
quiet_process = record {
  poll = none;
  stderr = [];
  heartbeat = state_read Members.end;
  activity = none;
  abort_answer = AbortAnswer.returned true;
  descendants = [];
  exit_after_abort = none;
}

abbrev hanging : Task
hanging = record task1 { execution_state = Execution.waiting; last_state_hash = some (text "h") }

abbrev in_grace : Runtime
in_grace = record runtime1 { stall_grace_started_at = some 460000 }

abbrev m2 : Manager
m2 = manager_of hanging in_grace

stalls-at-last :
    states t1 (watchdog_tick blank hash quiet_process 600000 600000 t1 m2) ≡ some Execution.stalled
unfolding compute_state_hash text_eq get_task select
stalls-at-last =
    watchdog_tick-moves blank hash quiet_process 600000 600000 t1 t1 in_grace hanging m2
      (manager_of-runtime hanging in_grace) (with_task-row hanging)

tick_stalls_on_evidence_example :
    (or_time hanging.last_progress_at 600000
        + quiet_threshold blank hash quiet_process 600000 600000 in_grace Execution.waiting
      ≤ 600000)
    × (grace_over in_grace 600000 ≡ true)
    × (polled (some in_grace) quiet_process.poll ≡ none)
    × (is_unchanged (beat_of hash in_grace quiet_process.heartbeat (some hanging)) ≡ true)
    × (active_tool_of blank hash quiet_process 600000 600000 Execution.waiting ≡ none)
tick_stalls_on_evidence_example =
    tick_stalls_on_evidence blank hash quiet_process 600000 600000 t1 in_grace hanging m2
      (manager_of-runtime hanging in_grace) (with_task-row hanging) refl refl refl stalls-at-last

abbrev gone : Observed
gone = record quiet_process { poll = some (pos 1) }

tick_aborts_by_cap_example :
    let after = states t1 (watchdog_tick blank hash gone 5000 5000 t1 m1) in
    ((after ≡ some Execution.aborted)
      ↔ (is_capped blank hash gone 5000 5000 default_thresholds.emergency_cap task1 ≡ true))
    × (after ≢ some Execution.settled)
tick_aborts_by_cap_example =
    tick_aborts_by_cap blank hash gone 5000 5000 t1 runtime1 task1 m1
      (manager_of-runtime task1 runtime1) (with_task-row task1) refl refl

abbrev mute : Observed
mute = record quiet_process { heartbeat = state_error (text "timeout") }

mute-unresponsive :
    states t1 (watchdog_tick blank hash mute 600000 600000 t1 m2) ≡ some Execution.unresponsive
unfolding compute_state_hash text_eq get_task select
mute-unresponsive =
    watchdog_tick-moves blank hash mute 600000 600000 t1 t1 in_grace hanging m2
      (manager_of-runtime hanging in_grace) (with_task-row hanging)

abbrev stalled1 : Task
stalled1 = record task1 { execution_state = Execution.stalled }

heartbeat_heals_back_example :
    let m = manager_of stalled1 runtime1 in
    let m' = mark_unresponsive t1 Execution.stalled 5000 5000 m in
    let rt' = get_or (rt_of t1 m') runtime1 in
    (states t1 m' ≡ some Execution.unresponsive)
    × (states t1 (apply_changed_heartbeat t1 rt' Execution.unresponsive 9000 5000 m')
        ≡ some Execution.stalled)
heartbeat_heals_back_example =
    heartbeat_heals_back t1 runtime1 Execution.stalled 5000 9000 5000 (manager_of stalled1 runtime1)
      (manager_of-runtime stalled1 runtime1) refl (ap state_of (with_task-row stalled1))

abbrev over1 : Registry
over1 = with_task (record task1 { execution_state = Execution.settled })
