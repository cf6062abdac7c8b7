-- ===== src/Registry/Tasks.antt =====
-- registry_db.py: `bound` and the methods on the tasks table. `wall` is `time.time()`.
pub mod Cas
use Prim.Native.Nat.{ℕ, ◌-◌}
use hermes_pi_manager.Base.{
  ◌++◌, Bool, true, false, not, List, [], ◌∷◌, Option, none, some, Text, text, show, ltb, leb, ◌==◌,
  if◌then◌else◌, length, take, keep, any, is_none, select, update_where, count_where, has_key,
}
use hermes_pi_manager.Registry.Rows.{
  Execution, Task, Registry, is_final, starting, running, tool_running, waiting, stalled,
  unresponsive, settled, crashed, aborted, not_run,
}

abbrev pub task_key : Task → Text
task_key t = t.task_id

abbrev pub exec_code : Execution → ℕ
exec_code starting = 0
exec_code running = 1
exec_code tool_running = 2
exec_code waiting = 3
exec_code stalled = 4
exec_code unresponsive = 5
exec_code settled = 6
exec_code crashed = 7
exec_code aborted = 8

-- `a == b` on execution states.
abbrev pub same_exec : Execution → Execution → Bool
same_exec a b = exec_code a == exec_code b

-- The row that `create_task` inserts when no further field is given.
abbrev pub new_task : Text → ℕ → Task
new_task tid now = record {
  task_id = tid;
  pid = none;
  session_id = none;
  session_file = none;
  expected_session_id = none;
  expected_session_file = none;
  cwd = none;
  started_at = some now;
  last_event_at = some now;
  last_state_at = some now;
  last_progress_at = some now;
  last_state_changed_at = some now;
  last_event_type = none;
  last_state_hash = none;
  last_entry_id = none;
  execution_state = starting;
  verification_state = not_run;
  active_tool = none;
  active_request_id = none;
  message_count = none;
  is_streaming = none;
  is_compacting = none;
  settled_at = none;
  exit_code = none;
  last_error = none;
  stderr_tail = none;
  verifier_spec = none;
  abort_requested = false;
  origin = none;
  continuation_enabled = false;
  wake_state = none;
  wake_attempts = 0;
  wake_requested_at = none;
  wake_accepted_at = none;
  wake_last_error = none;
  created_at = some now;
  updated_at = some now;
  verifier_summary = none;
  lsp_summary = none;
}

-- The keyword arguments `**fields`: assignments to columns, none of them to the key.
abbrev pub Fields : Type 0
Fields = List (Task → Task)

abbrev pub assign : Fields → Task → Task
assign [] t = t
assign (f ∷ fs) t = assign fs (f t)

abbrev pub get_rows : Text → Registry → Option Task
get_rows tid r = select task_key tid r.tasks

-- `none` is the IntegrityError of a key that is there already.
unfoldable pub create_task : Text → Fields → ℕ → Registry → Option Registry
create_task tid fields wall r =
    let row = assign fields (new_task tid wall) in
    if r.closed
    then some r
    else if is_none (get_rows (task_key row) r)
    then some (record r { tasks = r.tasks ++ row ∷ [] })
    else none

unfoldable pub update_task : Text → Fields → ℕ → Registry → Registry
update_task tid [] wall r = r
update_task tid (f ∷ fs) wall r = if r.closed then r else record r {
  tasks =
      update_where (has_key task_key tid (λ _. true))
        (λ t. record (assign (f ∷ fs) t) { updated_at = some wall }) r.tasks;
}

unfoldable pub get_task : Text → Registry → Option Task
get_task tid r = if r.closed then none else get_rows tid r

abbrev not_final : Task → Bool
not_final t = not (is_final t.execution_state)

-- `changed_at` is written only if it is given.
abbrev pub enter_state : Execution → Option ℕ → ℕ → Task → Task
enter_state s none wall t = record t { execution_state = s; updated_at = some wall }
enter_state s (some at) wall t = record t {
  execution_state = s;
  last_state_changed_at = some at;
  updated_at = some wall;
}

unfoldable pub transition_task_state : Text → Execution → Option ℕ → ℕ → Registry → Registry × Bool
transition_task_state tid new_state changed_at wall r = if r.closed then (r, false) else (
  record r {
    tasks =
        update_where (has_key task_key tid not_final) (enter_state new_state changed_at wall)
          r.tasks;
  },
  ltb 0 (count_where (has_key task_key tid not_final) r.tasks),
)

-- No states given, or none in the set, selects every row.
unfoldable pub list_tasks : Option (List Execution) → Registry → List Task
list_tasks none r = if r.closed then [] else r.tasks
list_tasks (some []) r = if r.closed then [] else r.tasks
list_tasks (some (s ∷ ss)) r =
    if r.closed then [] else keep (λ t. any (same_exec t.execution_state) (s ∷ ss)) r.tasks

-- The note that `bound` appends, with the count of the characters that are dropped.
abbrev pub truncation : ℕ → Text
truncation n = text "...(+" ++ (show n ++ text " chars truncated)")

abbrev pub bound_text : Text → ℕ → Text
bound_text s limit =
    if leb (length s) limit then s else take limit s ++ truncation (length s - limit)

unfoldable pub bound : Option Text → ℕ → Option Text
bound none limit = none
bound (some s) limit = some (bound_text s limit)

abbrev pub max_summary_chars : ℕ
max_summary_chars = 500

abbrev pub max_error_chars : ℕ
max_error_chars = 2000

unfoldable pub close : Registry → Registry
close r = if r.closed then r else record r { closed = true }
