-- ===== src/Registry/Notifications.antt =====
-- registry_db.py: the methods on the notifications table, the durable outbox.
pub mod Claims
use hermes_pi_manager.Base.{
  ℕ, ◌+◌, ◌++◌, Bool, true, false, ◌&&◌, ◌||◌, List, [], ◌∷◌, map, Option, none, some, Text,
  text_eq, text_ltb, ltb, leb, ◌==◌, if◌then◌else◌, take, keep, is_none, select, update_where,
  count_where, has_key, mem_text, sort_by,
}
use hermes_pi_manager.Registry.Rows.{Kind, Status, Notification, Registry, leased, sent, progress}

abbrev pub note_key : Notification → Text
note_key n = n.notification_id

abbrev pub status_code : Status → ℕ
status_code Status.pending = 0
status_code leased = 1
status_code sent = 2
status_code Status.failed = 3

-- `a == b` on statuses.
abbrev pub same_status : Status → Status → Bool
same_status a b = status_code a == status_code b

abbrev pub is_progress : Kind → Bool
is_progress progress = true
is_progress _ = false

-- INSERT OR IGNORE.
unfoldable pub insert_notification : Notification → Registry → Registry × Bool
insert_notification row r =
    if r.closed
    then (r, false)
    else if is_none (select note_key row.notification_id r.notifications)
    then (record r { notifications = r.notifications ++ row ∷ [] }, true)
    else (r, false)

unfoldable pub progress_seq : Text → Registry → ℕ
progress_seq tid r =
    if r.closed
    then 0
    else count_where (λ n. text_eq n.task_id tid && is_progress n.kind) r.notifications

-- `t IS NULL OR t <= now`.
abbrev pub null_or_le : Option ℕ → ℕ → Bool
null_or_le none now = true
null_or_le (some t) now = leb t now

-- `t IS NOT NULL AND t <= now`.
abbrev pub some_le : Option ℕ → ℕ → Bool
some_le none now = false
some_le (some t) now = leb t now

abbrev pub is_expired : ℕ → Notification → Bool
is_expired now n = same_status n.status leased && some_le n.lease_until now

abbrev pub requeued : Notification → Notification
requeued n = record n { status = Status.pending; lease_until = none; worker_id = none }

unfoldable pub requeue_expired_leases : ℕ → Registry → Registry × ℕ
requeue_expired_leases now r = if r.closed then (r, 0) else (
  record r { notifications = update_where (is_expired now) requeued r.notifications },
  count_where (is_expired now) r.notifications,
)

abbrev pub is_due : ℕ → Notification → Bool
is_due now n = same_status n.status Status.pending && null_or_le n.next_retry_at now

-- ORDER BY created_at, notification_id.
abbrev pub enqueued_before : Notification → Notification → Bool
enqueued_before a b =
    ltb a.created_at b.created_at
    || ((a.created_at == b.created_at) && text_ltb a.notification_id b.notification_id)

abbrev pub lease : Text → ℕ → Notification → Notification
lease worker until n = record n {
  status = leased;
  worker_id = some worker;
  lease_until = some until;
  attempts = n.attempts + 1;
}

-- The ids that the SELECT of `claim_notifications` finds.
unfoldable pub due_ids : ℕ → ℕ → List Notification → List Text
due_ids now limit rows =
    map note_key (take limit (sort_by enqueued_before (keep (is_due now) rows)))

unfoldable pub claim_notifications : ℕ → Text → ℕ → ℕ → Registry → Registry × List Notification
claim_notifications now worker lease_time limit r =
    let rows = update_where (is_expired now) requeued r.notifications in
    let ids = due_ids now limit rows in
    let leased_rows =
      update_where (λ n. mem_text n.notification_id ids) (lease worker (now + lease_time)) rows in
    if r.closed then (r, []) else (
      record r { notifications = leased_rows },
      keep (λ n. mem_text n.notification_id ids) leased_rows,
    )

-- UPDATE notifications SET … WHERE notification_id = ?.
abbrev pub set_note : Text → (Notification → Notification) → Registry → Registry
set_note nid f r = if r.closed then r else record r {
  notifications = update_where (has_key note_key nid (λ _. true)) f r.notifications;
}

abbrev pub as_sent : ℕ → Notification → Notification
as_sent now n = record n { status = sent; sent_at = some now; lease_until = none; worker_id = none }

abbrev pub as_retry : ℕ → Text → Notification → Notification
as_retry next_retry error n = record n {
  status = Status.pending;
  next_retry_at = some next_retry;
  lease_until = none;
  worker_id = none;
  last_error = some error;
}

abbrev pub as_failed : Text → Notification → Notification
as_failed error n = record n {
  status = Status.failed;
  next_retry_at = none;
  lease_until = none;
  worker_id = none;
  last_error = some error;
}

unfoldable pub set_notification_sent : Text → ℕ → Registry → Registry
set_notification_sent nid now = set_note nid (as_sent now)

unfoldable pub set_notification_retry : Text → ℕ → Text → Registry → Registry
set_notification_retry nid next_retry error = set_note nid (as_retry next_retry error)

unfoldable pub fail_notification : Text → Text → Registry → Registry
fail_notification nid error = set_note nid (as_failed error)

unfoldable pub get_notification : Text → Registry → Option Notification
get_notification nid r = if r.closed then none else select note_key nid r.notifications

abbrev matches_text : Option Text → Text → Bool
matches_text none t = true
matches_text (some s) t = text_eq t s

abbrev matches_status : Option Status → Status → Bool
matches_status none s = true
matches_status (some t) s = same_status s t

unfoldable pub list_notifications : Option Text → Option Status → ℕ → Registry → List Notification
list_notifications tid status limit r =
    if r.closed
    then []
    else take limit (
        sort_by enqueued_before (
          keep (λ n. matches_text tid n.task_id && matches_status status n.status) r.notifications))
