-- ===== src/Scenarios/Recovery.antt =====
-- Examples of the theorems on the start and the recovery of tasks.
use hermes_pi_manager.Manager.Recovery.Lost.{recover_all_wakes}
use hermes_pi_manager.Manager.Recovery.Sweep.{decided}
use hermes_pi_manager.Manager.Recovery.Decided.{is_resumable, recover_all_lem}
use hermes_pi_manager.Manager.Finish.Announced.{run_verifier_announces}
use hermes_pi_manager.Manager.Settlement.Late.{opened_wake, wake_of}
use hermes_pi_manager.Manager.Finish.{run_verifier}
use hermes_pi_manager.Manager.Verifier.{exited}
use hermes_pi_manager.Registry.Tasks.{get_task}
use hermes_pi_manager.Base.Int.{pos}
use hermes_pi_manager.Manager.Watchdog.Heartbeats.{state_read}
use hermes_pi_manager.Manager.Recovery.{Probe}
use hermes_pi_manager.Base.Json.{Members, member, str}
use hermes_pi_manager.Manager.Recovery.Identity.{
  is_proven, is_reattached, recover_task_proves_identity,
}
use hermes_pi_manager.Manager.State.{state_of}
use hermes_pi_manager.Registry.Rows.{Verification, Wake, disabled, Execution, Task}
use hermes_pi_manager.Base.{[], get_or, if◌then◌else◌, none, refl, some, text, text_eq, true, ◌≡◌}
use hermes_pi_manager.Manager.Recovery.Reattach.{recover_all, Tools, recover_task}
use hermes_pi_manager.Scenarios.{
  blank, dumped, hash, m1, manager_of, runtime1, t1, task1, terse, with_task-TasksDistinct,
  with_task-row,
}
use mathlib.Core.Option

abbrev tools : Tools
tools = record {
  digest = hash;
  canonical = λ p. p;
  seconds = λ s. 120000;
  mismatch = λ row state. text "recovery_identity_mismatch";
  argv_text = λ spec. [];
  attached_text = λ state. [];
  describe = terse;
  dump = dumped;
  run = λ spec. exited (pos 0) [] [];
}

-- A process that reports another session than the expected one.
abbrev stranger : Probe
stranger = record {
  file_ok = true;
  spawn_error = none;
  pid = some 7;
  answer = state_read (member (text "sessionId") (str (text "other")) Members.end);
  entries_error = none;
  entries = [];
  leaf = none;
}

abbrev expecting : Task
expecting = record task1 {
  session_file = some (text "f");
  expected_session_id = some (text "mine");
}

recover_task_proves_identity_example :
    let m = manager_of expecting runtime1 in
    let result = recover_task blank tools 9000 9000 t1 stranger m in
    let proven = is_proven blank tools 9000 9000 expecting stranger in
    (Option.map (λ x. is_reattached x.1) result ≡ some proven)
    × (state_of (get_task t1 (get_or (Option.map (λ x. x.0) result) m).registry) ≡ (
        if text_eq t1 t1
        then some (if proven then Execution.waiting else Execution.aborted)
        else state_of (get_task t1 m.registry)))
recover_task_proves_identity_example =
    recover_task_proves_identity blank tools 9000 9000 t1 t1 stranger
      (manager_of expecting runtime1) expecting (with_task-row expecting) refl

run_verifier_announces_example :
    let r' = (run_verifier blank terse dumped t1 none tools.run 5000 5000 m1).registry in
    (wake_of (get_task t1 r') ≡ some (opened_wake task1))
    × (state_of (get_task t1 r') ≡ some task1.execution_state)
run_verifier_announces_example =
    run_verifier_announces blank terse dumped t1 none tools.run 5000 5000 m1 task1
      (with_task-TasksDistinct task1) (with_task-row task1)

recover_all_lem_example :
    let m = manager_of expecting runtime1 in
    let after = recover_all blank tools 9000 9000 (λ i. stranger) m in
    state_of (get_task t1 after.registry) ≡ (
      if is_resumable expecting.execution_state
      then some (decided (is_proven blank tools 9000 9000 expecting stranger))
      else some expecting.execution_state)
recover_all_lem_example =
    recover_all_lem blank tools 9000 9000 (λ i. stranger) t1 (manager_of expecting runtime1)
      expecting (with_task-TasksDistinct expecting) refl (with_task-row expecting)

-- A task whose gate was resolved, and whose wake a crash lost.
abbrev orphaned : Task
orphaned = record task1 {
  execution_state = Execution.settled;
  verification_state = Verification.pass;
  wake_state = none;
}

recover_all_wakes_example :
    let m = manager_of orphaned runtime1 in
    let after = recover_all blank tools 9000 9000 (λ i. stranger) m in
    wake_of (get_task t1 after.registry)
    ≡ some (some (if orphaned.continuation_enabled then Wake.pending else disabled))
recover_all_wakes_example =
    recover_all_wakes blank tools 9000 9000 (λ i. stranger) (manager_of orphaned runtime1) orphaned
      (with_task-TasksDistinct orphaned) refl (with_task-row orphaned) refl refl refl
