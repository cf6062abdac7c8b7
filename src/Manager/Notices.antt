-- ===== src/Manager/Notices.antt =====
-- core.py: what the manager announces of a task: `_enqueue_notification`, `_request_terminal_wake`,
-- `_notify_done` and `_notify_progress`. The callbacks of older hosts are left out.
pub mod Passive
use hermes_pi_manager.Outbox.Queue.{enqueue}
use hermes_pi_manager.Manager.State.{Manager, Runtime, Signature, Thresholds, set_rt, with_registry}
use hermes_pi_manager.Registry.Wakes.{begin_terminal_wake, is_unopened}
use hermes_pi_manager.Messages.{
  continuation_id_for, format_notification_message, state_text, verification_text,
}
use hermes_pi_manager.Registry.Events.{append_event}
use hermes_pi_manager.Registry.Rows.{
  EventType, Kind, Registry, Task, Verification, Wake, agent_end, agent_settled, agent_start,
  compaction_end, compaction_start, diagnostic_snapshot, entry_appended, is_final, message_start,
  message_update, queue_update, tool_execution_end, tool_execution_start, tool_execution_update,
}
use hermes_pi_manager.Base.{
  Bool, Option, Text, false, get_or, if◌then◌else◌, ltb, none, not, or_time, some, text, text_eq,
  true, ℕ, ◌&&◌, ◌+◌, ◌==◌,
}
use hermes_pi_manager.Registry.Tasks.{get_task, new_task}
use hermes_pi_manager.Base.Json.{Members, Python, member, obj, str}

-- `_enqueue_notification`, for a task with a row; there is an outbox.
unfoldable pub enqueue_notification : Python → Text → Kind → ℕ → ℕ → Registry → Registry
enqueue_notification py tid kind now wall r =
    let row = get_or (get_task tid r) (new_task tid 0) in
    (enqueue py tid kind (format_notification_message kind tid row) now wall r).0

abbrev wake_summary : Python → Text → Task → Text
wake_summary py tid t = py.dumps (
    obj (
      member (text "execution_state") (str (state_text t.execution_state)) (
        member (text "verification_state") (str (verification_text t.verification_state))
          (member (text "continuation_id") (str (continuation_id_for tid)) Members.end))))

abbrev opened_type : Option Wake → Option EventType
opened_type (some Wake.pending) = some (EventType.other (text "wake_pending"))
opened_type (some Wake.disabled) = some (EventType.other (text "wake_disabled"))
opened_type _ = none

-- The audit event of the first opening.
abbrev pub note_opened : Python → Text → Task → Option Wake → ℕ → Registry → Registry
note_opened py tid t state wall r = elim (if is_unopened t then opened_type state else none) [
  | none ↦ r
  | some etype ↦
      append_event tid (text "manager") etype (some (state_text t.execution_state)) none
        (some (wake_summary py tid t)) none wall r
]

abbrev pub open_for : Python → Text → ℕ → ℕ → Option Task → Registry → Registry
open_for py tid now wall none r = r
open_for py tid now wall (some t) r =
    let (r', state) = begin_terminal_wake tid now wall r in note_opened py tid t state wall r'

unfoldable pub request_terminal_wake : Python → Text → ℕ → ℕ → Registry → Registry
request_terminal_wake py tid now wall r = open_for py tid now wall (get_task tid r) r

abbrev done_kind : Verification → Kind
done_kind Verification.pass = Kind.verifier
done_kind Verification.fail = Kind.verifier
done_kind Verification.unrunnable = Kind.verifier
done_kind _ = Kind.settled

abbrev pub kind_of_row : Option Task → Kind
kind_of_row none = Kind.settled
kind_of_row (some t) = done_kind t.verification_state

unfoldable pub notify_done : Python → Text → ℕ → ℕ → Registry → Registry
notify_done py tid now wall r =
    request_terminal_wake py tid now wall
      (enqueue_notification py tid (kind_of_row (get_task tid r)) now wall r)

abbrev pub signature_of : Task → Signature
signature_of t = record {
  state_hash = t.last_state_hash;
  count = t.message_count;
  event_type = t.last_event_type;
}

-- `now - started_at < progress_first_seconds`, added up: a later start makes the age negative.
abbrev pub is_early : Thresholds → ℕ → Task → Bool
is_early th now t = ltb now (or_time t.started_at now + th.progress_first)

abbrev pub is_recent : Thresholds → ℕ → Option ℕ → Bool
is_recent th now none = false
is_recent th now (some last) = ltb now (last + th.progress_interval)

abbrev pub opt_eq {ℓ} : {A : Type ℓ} → (A → A → Bool) → Option A → Option A → Bool
opt_eq eq none none = true
opt_eq eq (some a) (some b) = eq a b
opt_eq eq _ _ = false

abbrev pub type_name : EventType → Text
type_name agent_settled = text "agent_settled"
type_name agent_end = text "agent_end"
type_name agent_start = text "agent_start"
type_name message_start = text "message_start"
type_name message_update = text "message_update"
type_name compaction_start = text "compaction_start"
type_name compaction_end = text "compaction_end"
type_name tool_execution_start = text "tool_execution_start"
type_name tool_execution_update = text "tool_execution_update"
type_name tool_execution_end = text "tool_execution_end"
type_name entry_appended = text "entry_appended"
type_name queue_update = text "queue_update"
type_name diagnostic_snapshot = text "diagnostic_snapshot"
type_name (EventType.other s) = s

abbrev pub same_signature : Signature → Signature → Bool
same_signature a b =
    opt_eq text_eq a.state_hash b.state_hash
    && (opt_eq (λ x y. x == y) a.count b.count
        && opt_eq (λ x y. text_eq (type_name x) (type_name y)) a.event_type b.event_type)

abbrev pub is_same_signature : Option Signature → Task → Bool
is_same_signature none t = false
is_same_signature (some s) t = same_signature (signature_of t) s

-- Whether the gates of `_notify_progress` let a notice through.
abbrev pub progress_due : Runtime → ℕ → Task → Bool
progress_due rt now t =
    not (is_final t.execution_state)
    && (not (is_early rt.thresholds now t)
        && (not (is_recent rt.thresholds now rt.last_progress_notified_at)
            && not (is_same_signature rt.last_progress_notified_sig t)))

abbrev pub progress_noted : ℕ → Task → Runtime → Runtime
progress_noted now t rt = record rt {
  last_progress_notified_at = some now;
  last_progress_notified_sig = some (signature_of t);
}

abbrev progress_for : Python → Text → Runtime → ℕ → ℕ → Option Task → Manager → Manager
progress_for py tid rt now wall none m = m
progress_for py tid rt now wall (some t) m =
    if progress_due rt now t
    then with_registry (enqueue_notification py tid Kind.progress now wall)
        (set_rt tid (progress_noted now t) m)
    else m

unfoldable pub notify_progress : Python → Text → Runtime → ℕ → ℕ → Manager → Manager
notify_progress py tid rt now wall m = progress_for py tid rt now wall (get_task tid m.registry) m
