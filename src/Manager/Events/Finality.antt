-- ===== src/Manager/Events/Finality.antt =====
-- What RPC events do to the execution state of a task, over any sequence of events.
use hermes_pi_manager.Manager.State.Reads.{
  get_task-append_event, transition_task_state-state, update_task-state,
}
use hermes_pi_manager.Messages.{state_text}
use hermes_pi_manager.Base.Json.{Members}
use hermes_pi_manager.Registry.Rows.{is_final, EventType, Execution, Registry, Task}
use hermes_pi_manager.Registry.Tasks.{
  same_exec, transition_task_state, update_task, assign, get_task, task_key,
}
use hermes_pi_manager.Manager.State.{state_of, Runtime}
use hermes_pi_manager.Manager.Events.{
  put_entry, entry_id, next_state, put_by_type, put_metrics, recover_from, write_event,
  event_fields, put_seen,
}
use hermes_pi_manager.Base.{
  Option-cases, ap, inl, inr, ◌∙◌, if◌then◌else◌, not, text_eq, ◌&&◌, KeepsKey, Option, Text, [],
  arith, none, refl, some, ℕ, ◌∷◌, ◌≡◌,
}
use mathlib.Core.Option

put_entry-key : (e : Option Text) (t : Task) → (put_entry e t).task_id ≡ t.task_id
put_entry-key none t = refl
put_entry-key (some []) t = refl
put_entry-key (some (c ∷ s)) t = refl

event_fields-KeepsKey :
    (etype : EventType) (ev : Members) (rt : Option Runtime) (now : ℕ) (row : Task)
    → KeepsKey task_key (assign (event_fields etype ev rt now row))
event_fields-KeepsKey etype ev rt now row t = ground (arith, put_entry-key (entry_id ev) t)

put_entry-state : (e : Option Text) (t : Task) → (put_entry e t).execution_state ≡ t.execution_state
put_entry-state none t = refl
put_entry-state (some []) t = refl
put_entry-state (some (c ∷ s)) t = refl

event_fields-state :
    (etype : EventType) (ev : Members) (rt : Option Runtime) (now : ℕ) (row t : Task)
    → (assign (event_fields etype ev rt now row) t).execution_state ≡ t.execution_state
event_fields-state etype ev rt now row t =
    ground (arith, put_entry-state (entry_id ev) (put_seen etype now t))

-- The state that an event leaves, when the handler read a row in state `seen` and the stored row is
-- in state `stored`.
abbrev pub state_left : EventType → Execution → Option Runtime → Execution → Execution
state_left etype seen rt stored =
    let new_state = next_state etype (recover_from seen rt) in
    if is_final stored
    then stored
    else if not (is_final seen) && not (same_exec new_state seen)
    then new_state
    else stored

-- The move of the state, before the other columns are written.
abbrev moved : Text → EventType → Option Runtime → ℕ → ℕ → Execution → Registry → Registry
moved tid etype rt now wall before r =
    let new_state = next_state etype (recover_from before rt) in
    let moves = not (is_final before) && not (same_exec new_state before) in
    if moves then (transition_task_state tid new_state (some now) wall r).0 else r

moved-state :
    (j tid : Text) (etype : EventType) (rt : Option Runtime) (now wall : ℕ) (before : Execution)
    (r : Registry)
    → state_of (get_task j (moved tid etype rt now wall before r)) ≡ (
        if text_eq j tid
        then Option.map (state_left etype before rt) (state_of (get_task j r))
        else state_of (get_task j r))
moved-state j tid etype rt now wall before r =
    let new_state = next_state etype (recover_from before rt) in
    elim (Option-cases (state_of (get_task j r))) [
      | inl e ↦ ground (arith, transition_task_state-state j tid new_state (some now) wall r)
      | inr (x, e) ↦ ground (arith, transition_task_state-state j tid new_state (some now) wall r)
    ]

pub write_event-state :
    (j tid source : Text) (etype : EventType) (ev : Members) (summary : Text) (rt : Option Runtime)
    (now wall : ℕ) (row : Task) (r : Registry)
    → state_of (get_task j (write_event tid source etype ev summary rt now wall row r)) ≡ (
        if text_eq j tid
        then Option.map (state_left etype row.execution_state rt) (state_of (get_task j r))
        else state_of (get_task j r))
write_event-state j tid source etype ev summary rt now wall row r =
    let before = row.execution_state in
    let r' = moved tid etype rt now wall before r in
    let r'' = update_task tid (event_fields etype ev rt now row) wall r' in
    ap state_of (
      get_task-append_event j tid source etype (some (state_text before))
        (some (
          state_text
            (if is_final before then before else next_state etype (recover_from before rt))))
        (some summary) none wall r'')
    ∙ update_task-state j tid (put_seen etype now)
        (put_by_type etype ev rt now
          ∷ put_metrics etype (not (is_final row.execution_state)) row.message_count
          ∷ [])
        wall r' (event_fields-KeepsKey etype ev rt now row) (event_fields-state etype ev rt now row)
    ∙ moved-state j tid etype rt now wall before r
