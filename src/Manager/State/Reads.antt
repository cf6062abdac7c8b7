-- ===== src/Manager/State/Reads.antt =====
-- The execution states that the registry shows after a write.
use hermes_pi_manager.Registry.Tasks.Cas.{get_task-transition_task_state, get_task-update_task}
use hermes_pi_manager.Messages.{state_text}
use hermes_pi_manager.Registry.Tasks.{
  Fields, assign, get_task, task_key, transition_task_state, update_task,
}
use hermes_pi_manager.Registry.Rows.{EventType, Execution, Registry, Task, is_final}
use hermes_pi_manager.Registry.Events.{append_event}
use hermes_pi_manager.Base.{
  KeepsKey, Option, Option-cases, Text, arith, if◌then◌else◌, inl, inr, none, some, text, text_eq,
  ℕ, ◌∷◌, ◌≡◌,
}
use hermes_pi_manager.Manager.State.{
  Manager, start_watchdog, name_of, put_changed, put_state, set_execution_state, state_of,
  state_transition,
}
use mathlib.Core.Option

pub get_task-append_event :
    (j tid source : Text) (etype : EventType) (before after : Option Text) (summary : Option Text)
    (ts : Option ℕ) (wall : ℕ) (r : Registry)
    → get_task j (append_event tid source etype before after summary ts wall r) ≡ get_task j r
unfolding get_task append_event
get_task-append_event j tid source etype before after summary ts wall r = ground arith

-- An update that leaves the execution state alone, on every row.
pub update_task-state :
    (j tid : Text) (f : Task → Task) (fs : Fields) (wall : ℕ) (r : Registry)
    → KeepsKey task_key (assign (f ∷ fs))
    → ((t : Task) → (assign (f ∷ fs) t).execution_state ≡ t.execution_state)
    → state_of (get_task j (update_task tid (f ∷ fs) wall r)) ≡ state_of (get_task j r)
update_task-state j tid f fs wall r h k = elim (Option-cases (get_task j r)) [
  | inl e ↦ ground (arith, get_task-update_task j tid f fs wall r h)
  | inr (t, e) ↦ ground (arith, k t, get_task-update_task j tid f fs wall r h)
]

pub transition_task_state-state :
    (j tid : Text) (s : Execution) (at : Option ℕ) (wall : ℕ) (r : Registry)
    → state_of (get_task j (transition_task_state tid s at wall r).0) ≡ (
        if text_eq j tid
        then Option.map (λ x. if is_final x then x else s) (state_of (get_task j r))
        else state_of (get_task j r))
transition_task_state-state j tid s none wall r = elim (Option-cases (get_task j r)) [
  | inl e ↦ ground (arith, get_task-transition_task_state j tid s none wall r)
  | inr (t, e) ↦ ground (arith, get_task-transition_task_state j tid s none wall r)
]
transition_task_state-state j tid s (some at) wall r = elim (Option-cases (get_task j r)) [
  | inl e ↦ ground (arith, get_task-transition_task_state j tid s (some at) wall r)
  | inr (t, e) ↦ ground (arith, get_task-transition_task_state j tid s (some at) wall r)
]

-- `_set_execution_state` with further fields that are neither the key nor the state writes the state
-- of the one task, whatever it was, a final one too, and leaves the state of every other task.
pub set_execution_state-state :
    (j tid : Text) (s : Execution) (extra : Fields) (now wall : ℕ) (r : Registry)
    → KeepsKey task_key (assign extra)
    → ((t : Task) → (assign extra t).execution_state ≡ t.execution_state)
    → state_of (get_task j (set_execution_state tid s extra now wall r)) ≡ (
        if text_eq j tid
        then Option.map (λ _. s) (state_of (get_task j r))
        else state_of (get_task j r))
unfolding set_execution_state
set_execution_state-state j tid s extra now wall r h k =
    let put = update_task tid (put_state s ∷ put_changed now ∷ extra) wall r in
    elim (Option-cases (get_task j r)) [
      | inl e ↦ ground (
        arith,
        get_task-append_event j tid (text "manager") state_transition (name_of (get_task tid r))
            (some (state_text s)) none none wall put,
        get_task-update_task j tid (put_state s) (put_changed now ∷ extra) wall r
            (λ t. h (put_changed now (put_state s t))),
        get_task-update_task j tid (put_state s) extra wall r (λ t. h (put_state s t)),
      )
      | inr (t, e) ↦ ground (
        arith,
        k (put_changed now (put_state s t)),
        k (put_state s t),
        get_task-append_event j tid (text "manager") state_transition (name_of (get_task tid r))
            (some (state_text s)) none none wall put,
        get_task-update_task j tid (put_state s) (put_changed now ∷ extra) wall r
            (λ t. h (put_changed now (put_state s t))),
        get_task-update_task j tid (put_state s) extra wall r (λ t. h (put_state s t)),
      )
    ]

pub start_watchdog-registry :
    (tid : Text) (m : Manager) → (start_watchdog tid m).registry ≡ m.registry
unfolding start_watchdog
start_watchdog-registry tid m = ground arith
