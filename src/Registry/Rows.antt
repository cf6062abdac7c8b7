-- ===== src/Registry/Rows.antt =====
-- registry_db.py: the three tables, one record per row, and the states that their columns hold.
-- A time stamp (REAL seconds) is a number of milliseconds; NULL is `none`.
use hermes_pi_manager.Base.{ℕ, Text, Bool, true, false, List, Option}
use hermes_pi_manager.Base.Int.{ℤ}

-- tasks.execution_state (core.py EXEC_*).
pub data Execution : Type 0 where
  starting running tool_running waiting stalled unresponsive settled crashed aborted : Execution

-- tasks.verification_state (core.py VERIFY_*).
pub data Verification : Type 0 where
  not_run pending pass fail unrunnable : Verification

-- tasks.wake_state, without its NULL.
pub data Wake : Type 0 where
  pending dispatching accepted disabled uncertain exhausted : Wake

-- The types of events that some code names, and every other string.
pub data EventType : Type 0 where
  agent_settled agent_end agent_start : EventType
  message_start message_update compaction_start compaction_end : EventType
  tool_execution_start tool_execution_update tool_execution_end : EventType
  entry_appended queue_update diagnostic_snapshot : EventType
  other : Text → EventType

pub record Task : Type 0 where
  pub task_id : Text
  pub pid : Option ℕ
  pub session_id : Option Text
  pub session_file : Option Text
  pub expected_session_id : Option Text
  pub expected_session_file : Option Text
  pub cwd : Option Text
  pub started_at : Option ℕ
  pub last_event_at : Option ℕ
  pub last_state_at : Option ℕ
  pub last_progress_at : Option ℕ
  pub last_state_changed_at : Option ℕ
  pub last_event_type : Option EventType
  pub last_state_hash : Option Text
  pub last_entry_id : Option Text
  pub execution_state : Execution
  pub verification_state : Verification
  pub active_tool : Option Text
  pub active_request_id : Option Text
  pub message_count : Option ℕ
  pub is_streaming : Option Bool
  pub is_compacting : Option Bool
  pub settled_at : Option ℕ
  pub exit_code : Option ℤ
  pub last_error : Option Text
  pub stderr_tail : Option Text
  pub verifier_spec : Option Text
  pub abort_requested : Bool
  pub origin : Option Text
  pub continuation_enabled : Bool
  pub wake_state : Option Wake
  pub wake_attempts : ℕ
  pub wake_requested_at : Option ℕ
  pub wake_accepted_at : Option ℕ
  pub wake_last_error : Option Text
  pub created_at : Option ℕ
  pub updated_at : Option ℕ
  pub verifier_summary : Option Text
  pub lsp_summary : Option Text

pub record Event : Type 0 where
  pub id : ℕ
  pub task_id : Text
  pub ts : ℕ
  pub source : Text
  pub event_type : EventType
  pub state_before : Option Text
  pub state_after : Option Text
  pub summary : Option Text

-- notifications.status (outbox.py STATUS_*).
pub data Status : Type 0 where
  pending leased sent failed : Status

-- notifications.kind (outbox.py TERMINAL_KINDS and PROGRESS_KIND).
pub data Kind : Type 0 where
  settled verifier failed stalled progress : Kind

pub record Notification : Type 0 where
  pub notification_id : Text
  pub task_id : Text
  pub kind : Kind
  pub target : Option Text
  pub platform : Option Text
  pub chat_id : Option Text
  pub thread_id : Option Text
  pub session_key : Option Text
  pub scope_id : Option Text
  pub message : Text
  pub status : Status
  pub attempts : ℕ
  pub next_retry_at : Option ℕ
  pub lease_until : Option ℕ
  pub worker_id : Option Text
  pub created_at : ℕ
  pub sent_at : Option ℕ
  pub last_error : Option Text

-- The connection's content; `closed` is `Registry._closed`. The lock makes each method atomic.
pub record Registry : Type 0 where
  pub closed : Bool
  pub tasks : List Task
  pub events : List Event
  pub last_event_id : ℕ
  pub notifications : List Notification

-- `execution_state NOT IN ('SETTLED', 'CRASHED', 'ABORTED')`, and core.py's EXEC_FINAL_STATES.
abbrev pub is_final : Execution → Bool
is_final Execution.settled = true
is_final Execution.crashed = true
is_final Execution.aborted = true
is_final _ = false
