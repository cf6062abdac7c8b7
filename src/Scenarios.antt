-- ===== src/Scenarios.antt =====
-- Concrete rows, registries and answers, for the examples of its child modules.
use hermes_pi_manager.Manager.State.{Manager, Runtime, default_thresholds, rt_of}
use hermes_pi_manager.Manager.Verifier.{Summary}
use hermes_pi_manager.Registry.Notifications.Claims.{NotesDistinct}
use hermes_pi_manager.Manager.Report.{status}
use hermes_pi_manager.Registry.Notifications.{get_notification}
use hermes_pi_manager.Base.Json.{Json, Python}
use hermes_pi_manager.Registry.Tasks.Cas.{TasksDistinct}
use hermes_pi_manager.Registry.Tasks.{get_task, new_task}
use hermes_pi_manager.Base.{
  List, Text, [], arith, false, none, refl, select, some, text, text_eq_iff, true, ◌∷◌, ◌≡◌,
}
use hermes_pi_manager.Registry.Rows.{
  verifier, Kind, Notification, Status, Execution, Registry, Task,
}
pub mod Tables
pub mod Wakes
pub mod Workers
pub mod Notes
pub mod Tasks
pub mod Watchdog
pub mod Recovery
pub mod Transport
pub mod Diagnosis
pub mod Dispatch
pub mod Processes

abbrev pub t1 : Text
t1 = text "t1"

abbrev pub t2 : Text
t2 = text "t2"

-- A library that parses nothing and prints nothing, for code that does not look at the result.
abbrev pub blank : Python
blank = record {
  lower = λ s. s;
  loads = λ s. none;
  dumps = λ j. [];
  repr = λ j. [];
  number_is_zero = λ s. false;
  splitlines = λ s. s ∷ [];
  same_json = λ a b. true;
}

-- A task that may be continued.
abbrev pub task1 : Task
task1 = record (new_task t1 1000) {
  continuation_enabled = true;
  execution_state = Execution.running;
}

abbrev pub empty_registry : Registry
empty_registry = record {
  closed = false;
  tasks = [];
  events = [];
  last_event_id = 0;
  notifications = [];
}

abbrev pub with_task : Task → Registry
with_task t = record empty_registry { tasks = t ∷ [] }

abbrev pub reg1 : Registry
reg1 = with_task task1

pub empty_registry-TasksDistinct : TasksDistinct empty_registry
empty_registry-TasksDistinct = tt

-- Any registry of one task.
pub with_task-TasksDistinct : (t : Task) → TasksDistinct (with_task t)
unfolding select
with_task-TasksDistinct t = (refl, tt)

pub with_task-row : (t : Task) → get_task t.task_id (with_task t) ≡ some t
unfolding get_task select
with_task-row t = ground (arith, text_eq_iff t.task_id t.task_id)

-- A notice of the task, pending and due at once.
abbrev pub note1 : Notification
note1 = record {
  notification_id = text "n1";
  task_id = t1;
  kind = Kind.settled;
  target = some (text "telegram:42");
  platform = some (text "telegram");
  chat_id = some (text "42");
  thread_id = none;
  session_key = none;
  scope_id = none;
  message = text "done";
  status = Status.pending;
  attempts = 0;
  next_retry_at = none;
  lease_until = none;
  worker_id = none;
  created_at = 1000;
  sent_at = none;
  last_error = none;
}

abbrev pub with_note : Notification → Registry
with_note n = record empty_registry { notifications = n ∷ [] }

pub with_note-NotesDistinct : (n : Notification) → NotesDistinct (with_note n)
unfolding select
with_note-NotesDistinct n = (refl, tt)

pub with_note-row : (n : Notification) → get_notification n.notification_id (with_note n) ≡ some n
unfolding get_notification select
with_note-row n = ground (arith, text_eq_iff n.notification_id n.notification_id)

abbrev pub runtime1 : Runtime
runtime1 = record {
  task_id = t1;
  attached = true;
  thresholds = default_thresholds;
  verifier = none;
  stall_grace_started_at = none;
  pre_unresponsive_state = none;
  stop_watchdog = false;
  watched = false;
  last_snapshot_sig = none;
  last_snapshot_at = none;
  last_progress_notified_at = none;
  last_progress_notified_sig = none;
}

abbrev pub manager_of : Task → Runtime → Manager
manager_of t rt = record {
  registry = with_task t;
  runtimes = rt ∷ [];
  threads = [];
  shutting_down = false;
}

pub manager_of-runtime : (t : Task) (rt : Runtime) → rt_of rt.task_id (manager_of t rt) ≡ some rt
unfolding select
manager_of-runtime t rt = ground (arith, text_eq_iff rt.task_id rt.task_id)

abbrev pub m1 : Manager
m1 = manager_of task1 runtime1

abbrev pub hash : Json → Text
hash j = text "h"

abbrev pub terse : List Task → Text
terse ts = []

abbrev pub dumped : Summary → Text
dumped s = []
