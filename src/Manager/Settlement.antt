-- ===== src/Manager/Settlement.antt =====
-- Aborts, late settlements and the wakes that they open or not, and the pace of the progress notices.
pub mod Late
pub mod Pace
use hermes_pi_manager.Messages.{state_text}
use hermes_pi_manager.Manager.Notices.Passive.{get_task-enqueue_notification}
use hermes_pi_manager.Registry.Tasks.Cas.{get_task-update_task, updated}
use hermes_pi_manager.Manager.State.{
  Manager, name_of, put_changed, put_state, rt_of, set_execution_state, state_transition,
}
use hermes_pi_manager.Registry.Tasks.{
  bound_text, get_task, max_summary_chars, same_exec, task_key, update_task,
}
use hermes_pi_manager.Base.Json.{Python}
use hermes_pi_manager.Base.Int.{ℤ}
use hermes_pi_manager.Manager.State.Reads.{get_task-append_event}
use hermes_pi_manager.Manager.Aborts.{abort_summary, abort_task, polled, put_failure, put_requested}
use hermes_pi_manager.Registry.Events.{append_event}
use hermes_pi_manager.Base.{
  get_or, not, ◌&&◌, KeepsKey, Option, Text, [], arith, false, if◌then◌else◌, is_none, none, refl,
  some, text, text_eq, text_eq_iff, true, ℕ, ◌++◌, ◌∷◌, ◌≡◌,
}
use hermes_pi_manager.Registry.Rows.{EventType, Execution, Kind, Registry, Task, is_final}
use mathlib.Core.Option

-- A row after an abort that found it in no final state.
abbrev pub aborted_row : Text → Option ℤ → ℕ → ℕ → Task → Task
aborted_row reason code now wall t = record t {
  abort_requested = true;
  execution_state = Execution.aborted;
  last_state_changed_at = some now;
  exit_code = code;
  last_error = some (bound_text (text "aborted: " ++ reason) max_summary_chars);
  updated_at = some wall;
}

get_task-set_execution_state :
    (j tid : Text) (s : Execution) (f : Task → Task) (now wall : ℕ) (r : Registry) (t : Task)
    → KeepsKey task_key f
    → get_task tid r ≡ some t
    → same_exec t.execution_state s ≡ false
    → get_task j (set_execution_state tid s (f ∷ []) now wall r) ≡ (
        if text_eq j tid
        then Option.map (updated (put_state s ∷ put_changed now ∷ f ∷ []) wall) (get_task j r)
        else get_task j r)
unfolding set_execution_state
get_task-set_execution_state j tid s f now wall r t h e n = ground (
  arith,
  get_task-append_event j tid (text "manager") state_transition (name_of (get_task tid r))
      (some (state_text s)) none none wall
      (update_task tid (put_state s ∷ put_changed now ∷ f ∷ []) wall r),
  get_task-update_task j tid (put_state s) (put_changed now ∷ f ∷ []) wall r
      (λ x. h (put_changed now (put_state s x))),
)

-- `abort_task` on a task that the registry has does not fail, and changes nothing if the task is in
-- a final state. Any other task becomes ABORTED with the reason as its error and the exit code of its
-- process; its wake is left as it was, and so is every other task.
pub abort_task_lem :
    (py : Python) (j tid reason : Text) (code : Option ℤ) (now wall : ℕ) (m : Manager) (row : Task)
    → get_task tid m.registry ≡ some row
    → let result = abort_task py tid reason code now wall m in
      let over = is_final row.execution_state in
      let after = get_or result m in
      (is_none result ≡ false)
      × ((if over then after else m) ≡ m)
      × (get_task j after.registry ≡ (
          if text_eq j tid && not over
          then some (aborted_row reason (polled (rt_of tid m) code) now wall row)
          else get_task j m.registry))
unfolding abort_task
abort_task_lem py j tid reason code now wall m row e = (
  ground arith,
  ground arith,
  let before = row.execution_state in
      let marked = update_task tid (put_requested ∷ []) wall m.registry in
      let summary = some (abort_summary py reason) in
      let asked =
        append_event tid (text "manager") (EventType.other (text "abort_requested"))
          (some (state_text before)) none summary none wall marked in
      let failure = put_failure (polled (rt_of tid m) code) (text "aborted: " ++ reason) in
      let put = set_execution_state tid Execution.aborted (failure ∷ []) now wall asked in
      ground (
        arith,
        text_eq_iff j tid,
        text_eq_iff tid tid,
        get_task-enqueue_notification py j tid Kind.failed now wall put,
        get_task-set_execution_state j tid Execution.aborted failure now wall asked
            (record row { abort_requested = true; updated_at = some wall }) (λ _. refl),
        get_task-append_event j tid (text "manager") (EventType.other (text "abort_requested"))
            (some (state_text before)) none summary none wall marked,
        get_task-append_event tid tid (text "manager") (EventType.other (text "abort_requested"))
            (some (state_text before)) none summary none wall marked,
        get_task-update_task j tid put_requested [] wall m.registry (λ _. refl),
        get_task-update_task tid tid put_requested [] wall m.registry (λ _. refl),
      ),
)
