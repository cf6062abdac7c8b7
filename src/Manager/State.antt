-- ===== src/Manager/State.antt =====
-- core.py: `Thresholds`, `_TaskRuntime`, the manager's state, and `_set_execution_state`.

use hermes_pi_manager.Base.Json.{Items}
pub mod Reads
use hermes_pi_manager.Messages.{state_text}
use hermes_pi_manager.Registry.Rows.{EventType, Execution, Registry, Task, Verification}
use hermes_pi_manager.Registry.Tasks.{Fields, get_task, same_exec, update_task}
use hermes_pi_manager.Registry.Events.{append_event}
use hermes_pi_manager.Base.{
  false, ◌||◌, Bool, List, Option, Text, [], has_key, if◌then◌else◌, none, not, select, some, text,
  true, update_where, ℕ, ◌++◌, ◌∷◌,
}

pub record Thresholds : Type 0 where
  pub heartbeat : ℕ
  pub waiting : ℕ
  pub soft_stall : ℕ
  pub tool_stall : ℕ
  pub stall_grace : ℕ
  pub emergency_cap : Option ℕ
  pub snapshot_repeat : ℕ
  pub progress_first : ℕ
  pub progress_interval : ℕ

-- The defaults, in milliseconds.
abbrev pub default_thresholds : Thresholds
default_thresholds = record {
  heartbeat = 20000;
  waiting = 10000;
  soft_stall = 450000;
  tool_stall = 1200000;
  stall_grace = 120000;
  emergency_cap = none;
  snapshot_repeat = 60000;
  progress_first = 90000;
  progress_interval = 180000;
}

-- `argv` is a list of JSON values: the code does not ask whether they are strings.
pub record VerifierSpec : Type 0 where
  pub argv : Items
  pub timeout : ℕ
  pub cwd : Option Text

-- `(last_state_hash, message_count, last_event_type)`.
pub record Signature : Type 0 where
  pub state_hash : Option Text
  pub count : Option ℕ
  pub event_type : Option EventType

-- `_TaskRuntime`, without its locks and its clock. `attached` is that there is a transport, `watched`
-- that there is a watchdog thread.
pub record Runtime : Type 0 where
  pub task_id : Text
  pub attached : Bool
  pub thresholds : Thresholds
  pub verifier : Option VerifierSpec
  pub stall_grace_started_at : Option ℕ
  pub pre_unresponsive_state : Option Execution
  pub stop_watchdog : Bool
  pub watched : Bool
  pub last_snapshot_sig : Option Text
  pub last_snapshot_at : Option ℕ
  pub last_progress_notified_at : Option ℕ
  pub last_progress_notified_sig : Option Signature

-- The daemon threads that an operation starts.
pub data Thread : Type 0 where
  prune : Thread
  verify : Text → Thread
  watch : Text → Thread

pub record Manager : Type 0 where
  pub registry : Registry
  pub runtimes : List Runtime
  pub threads : List Thread
  pub shutting_down : Bool

abbrev pub runtime_key : Runtime → Text
runtime_key rt = rt.task_id

-- `_rt`.
abbrev pub rt_of : Text → Manager → Option Runtime
rt_of tid m = select runtime_key tid m.runtimes

-- A write to the fields of the task's runtime object, if there is one.
abbrev pub set_rt : Text → (Runtime → Runtime) → Manager → Manager
set_rt tid f m = record m {
  runtimes = update_where (has_key runtime_key tid (λ _. true)) f m.runtimes;
}

abbrev pub with_registry : (Registry → Registry) → Manager → Manager
with_registry f m = record m { registry = f m.registry }

abbrev pub spawn : Thread → Manager → Manager
spawn t m = record m { threads = m.threads ++ t ∷ [] }

-- `_start_watchdog`.
abbrev start_watching : Runtime → Runtime
start_watching rt = record rt { stop_watchdog = false; watched = true }

abbrev is_watched : Option Runtime → Bool
is_watched none = true
is_watched (some rt) = rt.watched

unfoldable pub start_watchdog : Text → Manager → Manager
start_watchdog tid m =
    if m.shutting_down || is_watched (rt_of tid m)
    then m
    else spawn (watch tid) (set_rt tid start_watching m)

abbrev pub state_transition : EventType
state_transition = EventType.other (text "state_transition")

-- `before != new_state`, where a missing row has no state.
abbrev pub is_change : Option Task → Execution → Bool
is_change none s = true
is_change (some t) s = not (same_exec t.execution_state s)

abbrev pub state_of : Option Task → Option Execution
state_of none = none
state_of (some t) = some t.execution_state

abbrev pub name_of : Option Task → Option Text
name_of none = none
name_of (some t) = some (state_text t.execution_state)

abbrev pub put_state : Execution → Task → Task
put_state s t = record t { execution_state = s }

abbrev pub put_changed : ℕ → Task → Task
put_changed now t = record t { last_state_changed_at = some now }

-- `_set_execution_state`: a plain update of the row, and an audit event when the state differs.
unfoldable pub set_execution_state : Text → Execution → Fields → ℕ → ℕ → Registry → Registry
set_execution_state tid s extra now wall r =
    let row = get_task tid r in
    if is_change row s
    then append_event tid (text "manager") state_transition (name_of row) (some (state_text s)) none
        none wall (update_task tid (put_state s ∷ put_changed now ∷ extra) wall r)
    else update_task tid (put_state s ∷ extra) wall r

-- `derived_state`: the execution state, refined by the verifier's outcome once it is SETTLED.
pub data Derived : Type 0 where
  done failed_verification gate_unrunnable : Derived
  plain : Execution → Derived

abbrev settled_as : Verification → Derived
settled_as Verification.pass = done
settled_as Verification.fail = failed_verification
settled_as Verification.unrunnable = gate_unrunnable
settled_as _ = plain Execution.settled

unfoldable pub derived_state : Execution → Verification → Derived
derived_state Execution.settled v = settled_as v
derived_state s v = plain s
