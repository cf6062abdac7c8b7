-- ===== src/Manager/Aborts/Kill.antt =====
-- What `abort_task` does to the execution states.
use hermes_pi_manager.Registry.Events.{append_event}
use hermes_pi_manager.Manager.Notices.Passive.{get_task-enqueue_notification}
use hermes_pi_manager.Base.Int.{ℤ}
use hermes_pi_manager.Messages.{state_text}
use hermes_pi_manager.Manager.State.Reads.{
  get_task-append_event, set_execution_state-state, update_task-state,
}
use hermes_pi_manager.Manager.Aborts.{abort_row, abort_summary, polled, put_failure, put_requested}
use hermes_pi_manager.Manager.State.{Manager, rt_of, set_execution_state, state_of}
use hermes_pi_manager.Registry.Tasks.{get_task, update_task}
use hermes_pi_manager.Base.{
  Option, Text, [], arith, if◌then◌else◌, none, refl, some, text, text_eq, ℕ, ◌++◌, ◌∷◌, ◌≡◌,
}
use hermes_pi_manager.Registry.Rows.{EventType, Execution, Kind, Task, is_final}
use hermes_pi_manager.Base.Json.{Python}
use mathlib.Core.Option

pub abort_row-moves :
    (py : Python) (j tid reason : Text) (code : Option ℤ) (now wall : ℕ) (row : Task) (m : Manager)
    → state_of (get_task j (abort_row py tid reason code now wall row m).registry) ≡ (
        if is_final row.execution_state
        then state_of (get_task j m.registry)
        else if text_eq j tid
        then Option.map (λ _. Execution.aborted) (state_of (get_task j m.registry))
        else state_of (get_task j m.registry))
abort_row-moves py j tid reason code now wall row m =
    let r = m.registry in
    let exit = polled (rt_of tid m) code in
    let before = row.execution_state in
    let marked = update_task tid (put_requested ∷ []) wall r in
    let summary = some (abort_summary py reason) in
    let asked =
      append_event tid (text "manager") (EventType.other (text "abort_requested"))
        (some (state_text before)) none summary none wall marked in
    let failure = put_failure exit (text "aborted: " ++ reason) ∷ [] in
    let put = set_execution_state tid Execution.aborted failure now wall asked in
    ground (
      arith,
      get_task-enqueue_notification py j tid Kind.failed now wall put,
      set_execution_state-state j tid Execution.aborted failure now wall asked (λ _. refl)
          (λ _. refl),
      get_task-append_event j tid (text "manager") (EventType.other (text "abort_requested"))
          (some (state_text before)) none summary none wall marked,
      update_task-state j tid put_requested [] wall r (λ _. refl) (λ _. refl),
    )
