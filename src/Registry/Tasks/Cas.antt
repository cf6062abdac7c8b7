-- ===== src/Registry/Tasks/Cas.antt =====
-- What the reads of the tasks table return after a write, and the compare-and-swap of
-- `transition_task_state`.
use mathlib.Core.Option
use hermes_pi_manager.Base.{
  get_or, ◌&&◌, ℕ, ◌≡◌, refl, true, false, not, [], ◌∷◌, Option, none, some, Text, text_eq,
  text_eq_iff, if◌then◌else◌, arith, select, has_key, Distinct, KeepsKey, select-update_where,
  count_where-has_key, Distinct-update_where, select-append, Distinct-insert, is_none,
}
use hermes_pi_manager.Registry.Rows.{Execution, Task, Registry, is_final}
use hermes_pi_manager.Registry.Tasks.{
  task_key, Fields, assign, new_task, create_task, update_task, get_task, not_final, enter_state,
  transition_task_state,
}

-- The primary key of the tasks table.
abbrev pub TasksDistinct : Registry → Type 0
TasksDistinct r = Distinct task_key r.tasks

-- A row after `update_task`.
abbrev pub updated : Fields → ℕ → Task → Task
updated fields wall t = record (assign fields t) { updated_at = some wall }

-- `update_task` changes the row with the key, and no other.
pub get_task-update_task :
    (j tid : Text) (f : Task → Task) (fs : Fields) (wall : ℕ) (r : Registry)
    → KeepsKey task_key (assign (f ∷ fs))
    → get_task j (update_task tid (f ∷ fs) wall r)
      ≡ (if text_eq j tid then Option.map (updated (f ∷ fs) wall) (get_task j r) else get_task j r)
unfolding get_task update_task
get_task-update_task j tid f fs wall r h =
    ground (arith, select-update_where task_key j tid (λ _. true) (updated (f ∷ fs) wall) r.tasks h)

pub update_task-TasksDistinct :
    (tid : Text) (f : Task → Task) (fs : Fields) (wall : ℕ) (r : Registry)
    → KeepsKey task_key (assign (f ∷ fs))
    → TasksDistinct r
    → TasksDistinct (update_task tid (f ∷ fs) wall r)
unfolding update_task
update_task-TasksDistinct tid f fs wall r h d = ground (
  arith,
  Distinct-update_where task_key (has_key task_key tid (λ _. true)) (updated (f ∷ fs) wall) r.tasks
      h d,
)

-- `create_task` raises exactly when an open registry has the key. Otherwise the keys stay distinct,
-- the new row is read back under its key, and the other rows are as before.
pub create_task_lem :
    (j tid : Text) (fields : Fields) (wall : ℕ) (r : Registry)
    → KeepsKey task_key (assign fields)
    → TasksDistinct r
    → r.closed ≡ false
    → let fresh = is_none (get_task tid r) in
      let created = create_task tid fields wall r in
      let r' = get_or created r in
      ((is_none created) ≡ not fresh)
      × TasksDistinct r'
      × (get_task j r' ≡ (
          if text_eq j tid && fresh
          then some (assign fields (new_task tid wall))
          else get_task j r))
unfolding create_task get_task select
create_task_lem j tid fields wall r h d up = (
  ground (arith, h (new_task tid wall)),
  ground (
    arith,
    h (new_task tid wall),
    Distinct-insert task_key r.tasks (assign fields (new_task tid wall)) d,
  ),
  ground (
    arith,
    h (new_task tid wall),
    text_eq_iff j tid,
    text_eq_iff tid j,
    select-append task_key j r.tasks (assign fields (new_task tid wall) ∷ []),
  ),
)

enter_state-KeepsKey :
    (s : Execution) (at : Option ℕ) (wall : ℕ) → KeepsKey task_key (enter_state s at wall)
enter_state-KeepsKey s none wall t = refl
enter_state-KeepsKey s (some at) wall t = refl

pub get_task-transition_task_state :
    (j tid : Text) (s : Execution) (at : Option ℕ) (wall : ℕ) (r : Registry)
    → get_task j (transition_task_state tid s at wall r).0 ≡ (
        if text_eq j tid
        then Option.map (λ t. if not_final t then enter_state s at wall t else t) (get_task j r)
        else get_task j r)
unfolding get_task transition_task_state
get_task-transition_task_state j tid s at wall r = ground (
  arith,
  select-update_where task_key j tid not_final (enter_state s at wall) r.tasks
      (enter_state-KeepsKey s at wall),
)

pub transition_task_state-TasksDistinct :
    (tid : Text) (s : Execution) (at : Option ℕ) (wall : ℕ) (r : Registry)
    → TasksDistinct r
    → TasksDistinct (transition_task_state tid s at wall r).0
unfolding transition_task_state
transition_task_state-TasksDistinct tid s at wall r d = ground (
  arith,
  Distinct-update_where task_key (has_key task_key tid not_final) (enter_state s at wall) r.tasks
      (enter_state-KeepsKey s at wall) d,
)

-- On a task that the registry has, `transition_task_state` reports success exactly when the stored
-- state is not final. It writes the new state then, leaves the row as it is otherwise, and changes
-- no other task.
pub transition_task_state_cas :
    (j tid : Text) (s : Execution) (at : Option ℕ) (wall : ℕ) (r : Registry) (t : Task)
    → TasksDistinct r
    → get_task tid r ≡ some t
    → let (r', applied) = transition_task_state tid s at wall r in
      (applied ≡ not (is_final t.execution_state))
      × (get_task j r' ≡ (
          if text_eq j tid
          then some (if is_final t.execution_state then t else enter_state s at wall t)
          else get_task j r))
unfolding get_task transition_task_state
transition_task_state_cas j tid s at wall r t d e = (
  ground (arith, count_where-has_key task_key tid not_final r.tasks d),
  ground (
    arith,
    text_eq_iff j tid,
    select-update_where task_key j tid not_final (enter_state s at wall) r.tasks
        (enter_state-KeepsKey s at wall),
  ),
)
