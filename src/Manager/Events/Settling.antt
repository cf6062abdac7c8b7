-- ===== src/Manager/Events/Settling.antt =====
-- Which events settle a task, and that no event moves a task out of a final state.
use hermes_pi_manager.Manager.Events.Finality.{state_left, write_event-state}
use hermes_pi_manager.Manager.State.Reads.{update_task-state}
use hermes_pi_manager.Base.Json.{Members}
use hermes_pi_manager.Base.Int.{ℤ}
use hermes_pi_manager.Manager.State.{Manager, rt_of, set_rt, state_of, with_registry}
use hermes_pi_manager.Base.{
  List, Option-cases, false, inl, inr, text_eq_iff, ◌==◌, ◌↔◌, ◌∷◌, Option, Text, [], ap, arith,
  if◌then◌else◌, none, refl, some, sym, text_eq, true, ℕ, ◌∙◌, ◌≡◌,
}
use hermes_pi_manager.Manager.Events.{
  next_state, on_event, recover_from, rebaseline, put_exit, clear_grace, event_for, on_settled,
  type_of, write_event,
}
use hermes_pi_manager.Registry.Rows.{EventType, agent_settled, is_final, Execution, Task}
use hermes_pi_manager.Registry.Tasks.{exec_code, get_task, same_exec}
use mathlib.Core.Option

abbrev exec_of : ℕ → Execution
exec_of n =
    if n == 0
    then Execution.starting
    else if n == 1
    then Execution.running
    else if n == 2
    then Execution.tool_running
    else if n == 3
    then Execution.waiting
    else if n == 4
    then Execution.stalled
    else if n == 5
    then Execution.unresponsive
    else if n == 6
    then Execution.settled
    else if n == 7
    then Execution.crashed
    else Execution.aborted

exec_of-exec_code : (s : Execution) → exec_of (exec_code s) ≡ s
exec_of-exec_code s = ground arith

pub same_exec_sound : (a b : Execution) → same_exec a b ≡ true → a ≡ b
same_exec_sound a b h =
    let e : exec_code a ≡ exec_code b = ground arith in
    sym (exec_of-exec_code a) ∙ ap exec_of e ∙ exec_of-exec_code b

on_settled-state :
    (j tid : Text) (disposed : Option ℤ) (wall : ℕ) (m : Manager)
    → state_of (get_task j (on_settled tid disposed wall m).registry)
      ≡ state_of (get_task j m.registry)
unfolding on_settled
on_settled-state j tid none wall m = refl
on_settled-state j tid (some code) wall m =
    update_task-state j tid (put_exit (some code)) [] wall m.registry (λ _. refl) (λ _. refl)

module _ (summarise : Members → Text) (disposed : Option ℤ) where
  pub event_for-state :
      (j tid source : Text) (ev : Members) (now wall : ℕ) (row : Task) (m : Manager)
      → state_of
          (get_task j (event_for summarise disposed tid source ev now wall (some row) m).registry)
        ≡ (if text_eq j tid
            then Option.map
                (state_left (type_of ev) row.execution_state (rt_of tid m))
                (state_of (get_task j m.registry))
            else state_of (get_task j m.registry))
  event_for-state j tid source ev now wall row m =
      let etype = type_of ev in
      let w =
        write_event-state j tid source etype ev (summarise ev) (rt_of tid m) now wall row
          m.registry in
      let written =
        with_registry (write_event tid source etype ev (summarise ev) (rt_of tid m) now wall row)
          m in
      let based =
        set_rt tid (rebaseline etype (get_task tid written.registry))
          (set_rt tid clear_grace written) in
      ground (arith, w, on_settled-state j tid disposed wall based)

-- One run of the event handler. `seen` is the row that it read, at an earlier time perhaps.
pub record Handled : Type 0 where
  pub task_id : Text
  pub source : Text
  pub event : Members
  pub seen : Option Task
  pub disposed : Option ℤ
  pub now : ℕ
  pub wall : ℕ

abbrev pub handle : (Members → Text) → Handled → Manager → Manager
handle summarise h m =
    event_for summarise h.disposed h.task_id h.source h.event h.now h.wall h.seen m

unfoldable pub handle_all : (Members → Text) → List Handled → Manager → Manager
handle_all summarise [] m = m
handle_all summarise (h ∷ hs) m = handle_all summarise hs (handle summarise h m)

handle-keeps_final :
    (summarise : Members → Text) (h : Handled) (j : Text) (s : Execution) (m : Manager)
    → is_final s ≡ true
    → state_of (get_task j m.registry) ≡ some s
    → state_of (get_task j (handle summarise h m).registry) ≡ some s
handle-keeps_final summarise h j s m f e = elim (Option-cases h.seen) [
  | inl n ↦ ground arith
  | inr (row, n) ↦
      ground (
        arith,
        event_for-state summarise h.disposed j h.task_id h.source h.event h.now h.wall row m,
      )
]

-- Any sequence of RPC events, of any tasks, each handled on a row that may have been read before
-- other writes, leaves a task that is SETTLED, CRASHED or ABORTED in that state.
pub events_keep_final :
    (summarise : Members → Text) (hs : List Handled) (j : Text) (s : Execution) (m : Manager)
    → is_final s ≡ true
    → state_of (get_task j m.registry) ≡ some s
    → state_of (get_task j (handle_all summarise hs m).registry) ≡ some s
unfolding handle_all
events_keep_final summarise [] j s m f e = e
events_keep_final summarise (h ∷ hs) j s m f e =
    events_keep_final summarise hs j s (handle summarise h m) f
      (handle-keeps_final summarise h j s m f e)

-- An RPC event moves a task that is not in a final state to the state that the event's type and the
-- state to recover from give, leaves a final state alone, and never moves another task.
pub on_event_moves :
    (summarise : Members → Text) (disposed : Option ℤ) (j tid source : Text) (ev : Members)
    (now wall : ℕ) (row : Task) (m : Manager)
    → get_task tid m.registry ≡ some row
    → let after = on_event summarise disposed tid source ev now wall m in
      let before = row.execution_state in
      let new_state = next_state (type_of ev) (recover_from before (rt_of tid m)) in
      state_of (get_task j after.registry) ≡ (
        if text_eq j tid
        then some (if is_final before then before else new_state)
        else state_of (get_task j m.registry))
unfolding on_event
on_event_moves summarise disposed j tid source ev now wall row m e =
    let before = row.execution_state in
    let new_state = next_state (type_of ev) (recover_from before (rt_of tid m)) in
    ground (
      arith,
      text_eq_iff j tid,
      same_exec_sound new_state before,
      event_for-state summarise disposed j tid source ev now wall row m,
    )

next_state-settled :
    (etype : EventType) (s : Execution)
    → is_final s ≡ false
    → (next_state etype s ≡ Execution.settled) ↔ (etype ≡ agent_settled)
next_state-settled etype s n = ground arith

-- An RPC event settles a task that is in no final state exactly when the event is `agent_settled`,
-- as long as the state that a healing returns to is not final.
pub only_agent_settled_settles :
    (summarise : Members → Text) (disposed : Option ℤ) (tid source : Text) (ev : Members)
    (now wall : ℕ) (row : Task) (m : Manager)
    → get_task tid m.registry ≡ some row
    → is_final row.execution_state ≡ false
    → is_final (recover_from row.execution_state (rt_of tid m)) ≡ false
    → let after = on_event summarise disposed tid source ev now wall m in
      (state_of (get_task tid after.registry) ≡ some Execution.settled)
      ↔ (type_of ev ≡ agent_settled)
only_agent_settled_settles summarise disposed tid source ev now wall row m e n n' = ground (
  arith,
  text_eq_iff tid tid,
  on_event_moves summarise disposed tid tid source ev now wall row m e,
  next_state-settled (type_of ev) (recover_from row.execution_state (rt_of tid m)) n',
)
