-- ===== src/Outbox/Queue/Dedupe.antt =====
-- What `enqueue` adds, what it drops, and the ids that it gives out.
use hermes_pi_manager.Outbox.Queue.Ids.{count_where-append, next_id-fresh, IsFresh}
use hermes_pi_manager.Registry.Events.{append_event}
use hermes_pi_manager.Registry.Rows.{Kind, Notification, Registry}
use hermes_pi_manager.Outbox.Queue.{enqueue, next_id, notification_row}
use hermes_pi_manager.Base.Json.{Python}
use hermes_pi_manager.Registry.Notifications.{
  get_notification, insert_notification, is_progress, note_key, progress_seq,
}
use hermes_pi_manager.Outbox.Target.{progress_notification_id}
use hermes_pi_manager.Registry.Notifications.Claims.{NotesDistinct}
use hermes_pi_manager.Base.{
  Option-cases, ap, inl, inr, refl, text_eq_iff, text_eq_refl, ◌∙◌, Distinct-insert, Text, [],
  arith, false, if◌then◌else◌, is_none, none, select, select-append, some, text_eq, ℕ, ◌&&◌, ◌+◌,
  ◌∷◌, ◌≡◌,
}

module _ (py : Python) (tid : Text) (kind : Kind) (message : Text) (now wall : ℕ)
    (r : Registry) where
  abbrev row : Notification
  row = notification_row py tid kind message now r

  abbrev enqueued : Registry
  enqueued = (enqueue py tid kind message now wall r).0

  -- In an open registry `enqueue` answers with the new id exactly when no row has that id. It adds
  -- one pending row with no attempt made then, and changes no row that was there.
  pub enqueue_lem :
      (k : Text)
      → NotesDistinct r
      → r.closed ≡ false
      → let id = next_id tid kind r in
        let fresh = is_none (get_notification id r) in
        ((enqueue py tid kind message now wall r).1 ≡ (if fresh then some id else none))
        × NotesDistinct enqueued
        × (get_notification k enqueued ≡ elim (get_notification k r) [
          | some n ↦ some n
          | none ↦ if fresh && text_eq id k then some row else none
        ])
  unfolding enqueue insert_notification append_event get_notification notification_row select
  enqueue_lem k d up = (
    ground arith,
    ground (arith, Distinct-insert note_key r.notifications row d),
    ground (arith, select-append note_key k r.notifications (row ∷ [])),
  )

  -- The key, the task and the kind of the new row.
  row_lem : (row.notification_id ≡ next_id tid kind r) × (row.task_id ≡ tid) × (row.kind ≡ kind)
  unfolding notification_row
  row_lem = (refl, refl, refl)

  enqueue_taken :
      (n : Notification)
      → r.closed ≡ false
      → select note_key (next_id tid kind r) r.notifications ≡ some n
      → enqueue py tid kind message now wall r ≡ (r, none)
  unfolding enqueue insert_notification
  enqueue_taken n up e = ground (arith, row_lem)

  enqueue_found :
      r.closed ≡ false
      → (n : Notification) × (select note_key (next_id tid kind r) enqueued.notifications ≡ some n)
  unfolding enqueue insert_notification append_event select
  enqueue_found up = elim (Option-cases (select note_key (next_id tid kind r) r.notifications)) [
    | inl e ↦ (
      row,
      ground (
        arith,
        row_lem,
        text_eq_refl (next_id tid kind r),
        select-append note_key (next_id tid kind r) r.notifications (row ∷ []),
      ),
    )
    | inr (n, e) ↦ (n, ground (arith, row_lem))
  ]

  enqueue-closed : enqueued.closed ≡ r.closed
  unfolding enqueue insert_notification append_event
  enqueue-closed = ground arith

-- A terminal notice is enqueued once: the same kind again, with any message and at any time, is
-- dropped, and the registry stays as it is.
pub enqueue_terminal_once :
    (py : Python) (tid : Text) (kind : Kind) (message message' : Text) (now now' wall wall' : ℕ)
    (r : Registry)
    → r.closed ≡ false
    → is_progress kind ≡ false
    → let r' = (enqueue py tid kind message now wall r).0 in
      enqueue py tid kind message' now' wall' r' ≡ (r', none)
unfolding next_id
enqueue_terminal_once py tid kind message message' now now' wall wall' r up terminal =
    let r' = (enqueue py tid kind message now wall r).0 in
    let (n, found) = enqueue_found py tid kind message now wall r up in
    enqueue_taken py tid kind message' now' wall' r' n
      (enqueue-closed py tid kind message now wall r ∙ up)
      (ap (λ (id : Text). select note_key id r'.notifications) (same r' r) ∙ found)
  where
    same : (a b : Registry) → next_id tid kind a ≡ next_id tid kind b
    same a b = rw (terminal, next_id)

-- The ids of progress notices stay fresh, for every task, whatever is enqueued for whichever task.
pub enqueue-IsFresh :
    (py : Python) (u tid : Text) (kind : Kind) (message : Text) (now wall : ℕ) (r : Registry)
    → r.closed ≡ false
    → IsFresh u r
    → IsFresh u (enqueue py tid kind message now wall r).0
unfolding enqueue insert_notification append_event progress_seq select
enqueue-IsFresh py u tid kind message now wall r up fresh m h = ground (
  arith,
  fresh m,
  row_lem py tid kind message now wall r,
  select-append note_key (progress_notification_id u m) r.notifications
      (notification_row py tid kind message now r ∷ []),
  count_where-append (λ n. text_eq n.task_id u && is_progress n.kind) r.notifications
      (notification_row py tid kind message now r),
  text_eq_iff (next_id tid kind r) (progress_notification_id u m),
  text_eq_iff tid u,
  next_id-fresh u tid kind m r,
)

-- With the ids fresh, a progress notice is never dropped.
pub enqueue_progress :
    (py : Python) (tid message : Text) (now wall : ℕ) (r : Registry)
    → r.closed ≡ false
    → IsFresh tid r
    → (enqueue py tid Kind.progress message now wall r).1
      ≡ some (progress_notification_id tid (progress_seq tid r + 1))
unfolding enqueue insert_notification notification_row next_id
enqueue_progress py tid message now wall r up fresh = ground (arith, fresh (progress_seq tid r + 1))
