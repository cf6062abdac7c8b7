-- ===== src/Manager/Notices/Passive.antt =====
-- Announcing a task leaves the execution states of all tasks as they are.
use hermes_pi_manager.Base.Json.{Python}
use hermes_pi_manager.Registry.Notifications.{insert_notification}
use hermes_pi_manager.Registry.Tasks.{Fields, assign, get_task, task_key}
use hermes_pi_manager.Registry.Rows.{Execution, Kind, Registry, Task, Wake}
use hermes_pi_manager.Manager.State.Reads.{set_execution_state-state}
use hermes_pi_manager.Registry.Events.{append_event}
use hermes_pi_manager.Manager.State.{set_execution_state, state_of}
use hermes_pi_manager.Manager.Notices.{note_opened, enqueue_notification, request_terminal_wake}
use hermes_pi_manager.Outbox.Queue.{enqueue}
use hermes_pi_manager.Base.{
  KeepsKey, Option, Option-cases, Text, ap, arith, if◌then◌else◌, inl, inr, refl, select,
  select-update_where, text_eq, ℕ, ◌∙◌, ◌≡◌,
}
use hermes_pi_manager.Registry.Wakes.{
  begin_terminal_wake, disable_wake, is_eligible, is_unopened, open_wake,
}
use mathlib.Core.Option

pub get_task-enqueue_notification :
    (py : Python) (j tid : Text) (kind : Kind) (now wall : ℕ) (r : Registry)
    → get_task j (enqueue_notification py tid kind now wall r) ≡ get_task j r
unfolding enqueue_notification enqueue insert_notification append_event get_task
get_task-enqueue_notification py j tid kind now wall r = ground arith

begin_terminal_wake-state :
    (j tid : Text) (now wall : ℕ) (r : Registry)
    → state_of (get_task j (begin_terminal_wake tid now wall r).0) ≡ state_of (get_task j r)
unfolding begin_terminal_wake get_task
begin_terminal_wake-state j tid now wall r = elim (Option-cases (select task_key j r.tasks)) [
  | inl e ↦ ground (
    arith,
    select-update_where task_key j tid is_eligible (open_wake now wall) r.tasks (λ _. refl),
    select-update_where task_key j tid is_unopened (disable_wake wall) r.tasks (λ _. refl),
  )
  | inr (t, e) ↦ ground (
    arith,
    select-update_where task_key j tid is_eligible (open_wake now wall) r.tasks (λ _. refl),
    select-update_where task_key j tid is_unopened (disable_wake wall) r.tasks (λ _. refl),
  )
]

pub note_opened-state :
    (py : Python) (j tid : Text) (t : Task) (w : Option Wake) (wall : ℕ) (r : Registry)
    → get_task j (note_opened py tid t w wall r) ≡ get_task j r
unfolding append_event get_task
note_opened-state py j tid t w wall r = ground arith

pub request_terminal_wake-state :
    (py : Python) (j tid : Text) (now wall : ℕ) (r : Registry)
    → state_of (get_task j (request_terminal_wake py tid now wall r)) ≡ state_of (get_task j r)
unfolding request_terminal_wake
request_terminal_wake-state py j tid now wall r = elim (Option-cases (get_task tid r)) [
  | inl e ↦ ground arith
  | inr (t, e) ↦
      let (r', w) = begin_terminal_wake tid now wall r in
      ground
        (arith, begin_terminal_wake-state j tid now wall r, note_opened-state py j tid t w wall r')
]

-- A change of the state, a notice and a wake.
pub finish-state :
    (py : Python) (j tid : Text) (kind : Kind) (s : Execution) (extra : Fields) (now wall : ℕ)
    (r : Registry)
    → KeepsKey task_key (assign extra)
    → ((t : Task) → (assign extra t).execution_state ≡ t.execution_state)
    → state_of (
        get_task j (
          request_terminal_wake py tid now wall (
            enqueue_notification py tid kind now wall
              (set_execution_state tid s extra now wall r))))
      ≡ (if text_eq j tid
          then Option.map (λ _. s) (state_of (get_task j r))
          else state_of (get_task j r))
finish-state py j tid kind s extra now wall r h k =
    let put = set_execution_state tid s extra now wall r in
    request_terminal_wake-state py j tid now wall (enqueue_notification py tid kind now wall put)
    ∙ ap state_of (get_task-enqueue_notification py j tid kind now wall put)
    ∙ set_execution_state-state j tid s extra now wall r h k
