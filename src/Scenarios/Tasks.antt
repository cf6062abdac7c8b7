-- ===== src/Scenarios/Tasks.antt =====
-- Examples of the theorems on the events, the verifier, aborts and notices.
use hermes_pi_manager.Base.Int.{pos}
use hermes_pi_manager.Manager.Settlement.Pace.{progress_paced}
use hermes_pi_manager.Manager.Settlement.Late.{late_settlement_wakes, wake_of}
use hermes_pi_manager.Registry.Tasks.{get_task, same_exec}
use hermes_pi_manager.Manager.Verifier.Outcome.{run_verifier_now_lem, verified_row}
use hermes_pi_manager.Base.Json.{cons, nil, Members, get_member, member, str}
use hermes_pi_manager.Manager.Events.{on_event, type_of}
use hermes_pi_manager.Manager.State.{VerifierSpec, prune, rt_of, state_of, verify}
use hermes_pi_manager.Manager.Notices.{notify_done, notify_progress, progress_noted}
use hermes_pi_manager.Manager.Aborts.{abort_task, polled}
use hermes_pi_manager.Registry.Rows.{Execution, Task, Wake, agent_settled, is_final}
use hermes_pi_manager.Manager.Settlement.{abort_task_lem, aborted_row}
use hermes_pi_manager.Manager.Verifier.{exited, outcome_of, run_verifier_now}
use hermes_pi_manager.Base.{
  Text, [], ap, arith, false, get_or, if◌then◌else◌, inl, is_none, none, not, or_time, refl, some,
  text, text_eq, ◌&&◌, ◌++◌, ◌+◌, ◌↔◌, ◌∷◌, ◌≡◌, ◌≤◌,
}
use hermes_pi_manager.Scenarios.{
  blank, dumped, m1, manager_of, manager_of-runtime, reg1, runtime1, t1, task1, terse, with_task,
  with_task-TasksDistinct, with_task-row,
}
use hermes_pi_manager.Manager.Events.Settling.{
  Handled, events_keep_final, handle_all, only_agent_settled_settles,
}
use mathlib.Core.Option

abbrev typed : Text → Members
typed name = member (text "type") (str name) Members.end

abbrev settling : Members
settling = typed (text "agent_settled")

abbrev silent : Members → Text
silent ev = []

settling-type : type_of settling ≡ agent_settled
unfolding type_of get_member text_eq
settling-type = refl

abbrev aborted1 : Task
aborted1 = record task1 { execution_state = Execution.aborted }

-- A late `agent_settled` that was handled on the row from before the abort.
abbrev late : Handled
late = record {
  task_id = t1;
  source = text "rpc";
  event = settling;
  seen = some task1;
  disposed = none;
  now = 5000;
  wall = 5000;
}

events_keep_final_example :
    state_of (get_task t1 (handle_all silent (late ∷ []) (manager_of aborted1 runtime1)).registry)
    ≡ some Execution.aborted
events_keep_final_example =
    events_keep_final silent (late ∷ []) t1 Execution.aborted (manager_of aborted1 runtime1) refl
      (ap state_of (with_task-row aborted1))

only_agent_settled_settles_example :
    let after = on_event silent none t1 (text "rpc") settling 5000 5000 m1 in
    (state_of (get_task t1 after.registry) ≡ some Execution.settled)
    ↔ (type_of settling ≡ agent_settled)
only_agent_settled_settles_example =
    only_agent_settled_settles silent none t1 (text "rpc") settling 5000 5000 task1 m1
      (with_task-row task1) refl refl

abbrev spec : VerifierSpec
spec = record { argv = cons (str (text "true")) nil; timeout = 120000; cwd = none }

abbrev settled1 : Task
settled1 = record task1 { execution_state = Execution.settled; settled_at = some 4000 }

run_verifier_now_lem_example :
    let run = exited (pos 0) [] [] in
    let r = with_task settled1 in
    let result = run_verifier_now blank terse dumped t1 spec run 5000 r in
    let settles = same_exec settled1.execution_state Execution.settled in
    (Option.map (λ x. x.1) result ≡ (if settles then some (outcome_of run) else none))
    × (get_task t1 (get_or (Option.map (λ x. x.0) result) r) ≡ (
        if settles && text_eq t1 t1
        then some (verified_row blank run 5000 settled1)
        else get_task t1 r))
run_verifier_now_lem_example =
    run_verifier_now_lem blank terse dumped t1 t1 spec (exited (pos 0) [] []) 5000
      (with_task settled1) settled1 (with_task-row settled1)

abort_task_lem_example :
    let result = abort_task blank t1 (text "manual_abort") none 5000 5000 m1 in
    let over = is_final Execution.running in
    let after = get_or result m1 in
    (is_none result ≡ false)
    × ((if over then after else m1) ≡ m1)
    × (get_task t1 after.registry ≡ (
        if text_eq t1 t1 && not over
        then some (aborted_row (text "manual_abort") (polled (rt_of t1 m1) none) 5000 5000 task1)
        else get_task t1 m1.registry))
abort_task_lem_example =
    abort_task_lem blank t1 t1 (text "manual_abort") none 5000 5000 m1 task1 (with_task-row task1)

late_settlement_wakes_example :
    let m = manager_of aborted1 runtime1 in
    let m' = on_event silent none t1 (text "rpc") settling 5000 5000 m in
    let announced = notify_done blank t1 5000 5000 m'.registry in
    (m'.threads ≡ (m.threads ++ prune ∷ []) ++ verify t1 ∷ [])
    × (wake_of (get_task t1 announced) ≡ some (some Wake.pending))
    × (state_of (get_task t1 announced) ≡ some Execution.aborted)
late_settlement_wakes_example =
    late_settlement_wakes blank silent none t1 (text "rpc") settling 5000 5000
      (manager_of aborted1 runtime1) aborted1 (with_task-TasksDistinct aborted1)
      (with_task-row aborted1) refl refl refl settling-type

progress_paced_example :
    let m' = notify_progress blank t1 runtime1 200000 200000 m1 in
    let rt' = progress_noted 200000 task1 runtime1 in
    (rt_of t1 m' ≡ some rt')
    × (is_final task1.execution_state ≡ false)
    × (or_time task1.started_at 200000 + 90000 ≤ 200000)
    × (notify_progress blank t1 rt' 300000 300000 (record m' { registry = reg1 })
        ≡ record m' { registry = reg1 })
progress_paced_example =
    progress_paced blank t1 runtime1 200000 200000 300000 300000 m1 reg1 task1 task1
      (with_task-row task1) (manager_of-runtime task1 runtime1) refl (with_task-row task1)
      (inl (omega arith))
