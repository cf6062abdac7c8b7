-- ===== src/Outbox/Queue.antt =====
-- outbox.py: `NotificationOutbox`, which enqueues, claims and marks.

pub mod Ids
pub mod Dedupe
use hermes_pi_manager.Registry.Events.{append_event}
use hermes_pi_manager.Registry.Tasks.{bound_text, get_task, max_summary_chars}
use hermes_pi_manager.Registry.Notifications.{
  fail_notification, insert_notification, is_progress, progress_seq, set_notification_retry,
}
use hermes_pi_manager.Base.Json.{str, obj, member, Members, Python, get_member}
use hermes_pi_manager.Outbox.Target.{
  build_target, kind_text, parse_origin, progress_notification_id, safe_ref,
  terminal_notification_id,
}
use hermes_pi_manager.Registry.Rows.{EventType, Kind, Notification, Registry, Status, Task}
use hermes_pi_manager.Base.{
  Bool, Option, Text, [], get_or, if◌then◌else◌, ltb, none, some, suc, text, zero, ℕ, ◌&&◌, ◌+◌,
  ◌∷◌,
}

abbrev pub max_message_chars : ℕ
max_message_chars = 4000

-- The id that `enqueue` gives to the next notification of a kind.
unfoldable pub next_id : Text → Kind → Registry → Text
next_id tid kind r =
    if is_progress kind
    then progress_notification_id tid (progress_seq tid r + 1)
    else terminal_notification_id tid kind

abbrev origin_of : Option Task → Option Text
origin_of none = none
origin_of (some t) = t.origin

unfoldable pub notification_row : Python → Text → Kind → Text → ℕ → Registry → Notification
notification_row py tid kind message now r =
    let origin = parse_origin py (origin_of (get_task tid r)) in
    let platform = get_member (text "platform") origin in
    let chat = get_member (text "chat_id") origin in
    let thread = get_member (text "thread_id") origin in
    record {
      notification_id = next_id tid kind r;
      task_id = tid;
      kind = kind;
      target = build_target py platform chat thread;
      platform = safe_ref py platform;
      chat_id = safe_ref py chat;
      thread_id = safe_ref py thread;
      session_key = safe_ref py (get_member (text "session_key") origin);
      scope_id = safe_ref py (get_member (text "scope_id") origin);
      message = bound_text message max_message_chars;
      status = Status.pending;
      attempts = 0;
      next_retry_at = none;
      lease_until = none;
      worker_id = none;
      created_at = now;
      sent_at = none;
      last_error = none;
    }

-- The summary of the audit event: the id, the kind and the target.
abbrev enqueued_summary : Python → Notification → Text
enqueued_summary py n = py.dumps (
    obj (
      member (text "notification_id") (str n.notification_id) (
        member (text "kind") (str (kind_text n.kind))
          (member (text "target") (str (get_or n.target [])) Members.end))))

unfoldable pub enqueue : Python → Text → Kind → Text → ℕ → ℕ → Registry → Registry × Option Text
enqueue py tid kind message now wall r =
    let row = notification_row py tid kind message now r in
    let (r', inserted) = insert_notification row r in
    if inserted
    then (
      append_event tid (text "outbox") (EventType.other (text "notification_enqueued")) none none
          (some (enqueued_summary py row)) none wall r',
      some row.notification_id,
    )
    else (r', none)

-- RETRY_BACKOFF_SECONDS, in milliseconds, at the index `min(attempts - 1, 4)`.
abbrev pub backoff : ℕ → ℕ
backoff zero = 5000
backoff (suc zero) = 5000
backoff (suc (suc zero)) = 15000
backoff (suc (suc (suc zero))) = 60000
backoff (suc (suc (suc (suc zero)))) = 300000
backoff (suc (suc (suc (suc (suc n))))) = 900000

abbrev pub max_attempts : ℕ
max_attempts = 6

-- `int(row.get("attempts") or 1)`.
abbrev pub counted : ℕ → ℕ
counted zero = 1
counted (suc n) = suc n

abbrev pub error_text : Text → Text
error_text [] = text "unknown error"
error_text (c ∷ s) = bound_text (c ∷ s) max_summary_chars

unfoldable pub mark_failed : Notification → Text → Bool → ℕ → Registry → Registry
mark_failed row error transient now r =
    let attempts = counted row.attempts in
    if transient && ltb attempts max_attempts
    then set_notification_retry row.notification_id (now + backoff attempts) (error_text error) r
    else fail_notification row.notification_id (error_text error) r
