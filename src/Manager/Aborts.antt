-- ===== src/Manager/Aborts.antt =====
-- core.py: `abort_task`, `_handle_early_failure` and `steer_task`. The signals to the process leave
-- nothing in the manager's state but the exit code that is read after them.

use hermes_pi_manager.Transport.Stderr.{stderr_tail}
pub mod Kill
use hermes_pi_manager.Registry.Events.{append_event}
use hermes_pi_manager.Messages.{state_text}
use hermes_pi_manager.Base.Int.{ℤ}
use hermes_pi_manager.Manager.Notices.{enqueue_notification, request_terminal_wake}
use hermes_pi_manager.Base.{
  Option, Text, [], if◌then◌else◌, length, none, show, some, text, true, ℕ, ◌++◌, ◌∷◌,
}
use hermes_pi_manager.Base.Json.{Members, Python, member, number, obj, str}
use hermes_pi_manager.Registry.Tasks.{bound_text, get_task, max_summary_chars, update_task}
use hermes_pi_manager.Registry.Rows.{EventType, Execution, Kind, Registry, Task, is_final}
use hermes_pi_manager.Manager.State.{
  Manager, Runtime, rt_of, set_execution_state, set_rt, with_registry,
}

abbrev pub put_requested : Task → Task
put_requested t = record t { abort_requested = true }

abbrev pub put_failure : Option ℤ → Text → Task → Task
put_failure code error t = record t {
  exit_code = code;
  last_error = some (bound_text error max_summary_chars);
}

abbrev pub stop : Runtime → Runtime
stop rt = record rt { stop_watchdog = true }

-- `rt.transport.poll() if (rt and rt.transport) else None`.
abbrev pub polled : Option Runtime → Option ℤ → Option ℤ
polled none code = none
polled (some rt) code = if rt.attached then code else none

module _ (py : Python) where
  abbrev pub abort_summary : Text → Text
  abort_summary reason = py.dumps (obj (member (text "reason") (str reason) Members.end))

  abbrev pub abort_writes : Text → Text → Option ℤ → Execution → ℕ → ℕ → Registry → Registry
  abort_writes tid reason code before now wall r =
      let asked =
        append_event tid (text "manager") (EventType.other (text "abort_requested"))
          (some (state_text before)) none (some (abort_summary reason)) none wall
          (update_task tid (put_requested ∷ []) wall r) in
      enqueue_notification py tid Kind.failed now wall (
        set_execution_state tid Execution.aborted
          (put_failure code (text "aborted: " ++ reason) ∷ []) now wall asked)

  abbrev pub abort_row : Text → Text → Option ℤ → ℕ → ℕ → Task → Manager → Manager
  abort_row tid reason code now wall row m =
      if is_final row.execution_state
      then m
      else with_registry
          (abort_writes tid reason (polled (rt_of tid m) code) row.execution_state now wall)
          (set_rt tid stop m)

  -- `none` is the KeyError. `code` is the process's exit code after the signals.
  unfoldable pub abort_task : Text → Text → Option ℤ → ℕ → ℕ → Manager → Option Manager
  abort_task tid reason code now wall m = elim (get_task tid m.registry) [
    | none ↦ none
    | some row ↦ some (abort_row tid reason code now wall row m)
  ]

  abbrev pub put_error : Text → Text → Task → Task
  put_error error stderr t = record t {
    last_error = some (bound_text error max_summary_chars);
    stderr_tail = some (bound_text stderr max_summary_chars);
  }

  unfoldable pub handle_early_failure : Text → Text → Text → ℕ → ℕ → Registry → Registry
  handle_early_failure tid message stderr now wall r = request_terminal_wake py tid now wall (
      enqueue_notification py tid Kind.failed now wall
        (set_execution_state tid Execution.crashed (put_error message stderr ∷ []) now wall r))

  abbrev steer_summary : Text → Text
  steer_summary message =
      py.dumps (obj (member (text "message_len") (number (show (length message))) Members.end))

  abbrev steer_row : Text → Text → ℕ → Option Task → Option Runtime → Registry → Option Registry
  steer_row tid message wall none rt r = none
  steer_row tid message wall (some row) none r = none
  steer_row tid message wall (some row) (some rt) r =
      if is_final row.execution_state
      then none
      else if rt.attached
      then some (
          append_event tid (text "manager") (EventType.other (text "steer_sent")) none none
            (some (steer_summary message)) none wall r)
      else none

  -- `none` is the KeyError or a RuntimeError.
  unfoldable pub steer_task : Text → Text → ℕ → Manager → Option Registry
  steer_task tid message wall m =
      steer_row tid message wall (get_task tid m.registry) (rt_of tid m) m.registry
