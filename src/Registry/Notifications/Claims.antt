-- ===== src/Registry/Notifications/Claims.antt =====
-- The lease of a notification: what a claim takes, what it leaves alone, and what it returns.
pub mod Leases
use hermes_pi_manager.Registry.Rows.{Status, leased, sent, Notification, Registry}
use hermes_pi_manager.Registry.Notifications.{
  get_notification, claim_notifications, due_ids, enqueued_before, is_due, is_expired, lease,
  note_key, requeued,
}
use hermes_pi_manager.Base.{
  All, length, ◌≤◌, Bool-cases, Option, inl, inr, mem_text-keep, select-key, ◌<◌, ◌⊎◌, Bool,
  Distinct, Distinct-update_where, List, Text, [], arith, false, if◌then◌else◌, keep, map, mem_text,
  mem_text-query, refl, select, select-update_all, some, text_eq_iff, update_where, ℕ, ◌+◌, ◌∷◌,
  ◌≡◌,
}
use mathlib.Core.Option

-- The primary key of the notifications table.
abbrev pub NotesDistinct : Registry → Type 0
NotesDistinct r = Distinct note_key r.notifications

-- The table after the first UPDATE of a claim.
abbrev pub requeue_rows : ℕ → List Notification → List Notification
requeue_rows now = update_where (is_expired now) requeued

requeue_rows-Distinct :
    (now : ℕ) (rows : List Notification)
    → Distinct note_key rows
    → Distinct note_key (requeue_rows now rows)
requeue_rows-Distinct now rows =
    Distinct-update_where note_key (is_expired now) requeued rows (λ _. refl)

abbrev pub requeue_row : ℕ → Notification → Notification
requeue_row now n = if is_expired now n then requeued n else n

select-requeue_rows :
    (k : Text) (now : ℕ) (rows : List Notification)
    → select note_key k (requeue_rows now rows)
      ≡ Option.map (requeue_row now) (select note_key k rows)
select-requeue_rows k now rows =
    select-update_all note_key k (is_expired now) requeued rows (λ _. refl)

pub claim_notifications-NotesDistinct :
    (now : ℕ) (worker : Text) (lease_time limit : ℕ) (r : Registry)
    → NotesDistinct r
    → NotesDistinct (claim_notifications now worker lease_time limit r).0
unfolding claim_notifications
claim_notifications-NotesDistinct now worker lease_time limit r d = ground (
  arith,
  Distinct-update_where note_key
      (λ n. mem_text n.notification_id (due_ids now limit (requeue_rows now r.notifications)))
      (lease worker (now + lease_time)) (requeue_rows now r.notifications) (λ _. refl)
      (requeue_rows-Distinct now r.notifications d),
)

-- A row that is not due is not among the ids that a claim selects.
due_ids_not_due :
    (k : Text) (now limit : ℕ) (rows : List Notification) (n : Notification)
    → Distinct note_key rows
    → select note_key k rows ≡ some n
    → is_due now n ≡ false
    → mem_text k (due_ids now limit rows) ≡ false
unfolding due_ids
due_ids_not_due k now limit rows n d e h =
    mem_text-query note_key enqueued_before k limit (is_due now) rows n d e h

module _ (now : ℕ) (worker : Text) (lease_time limit : ℕ) (r : Registry) where
  abbrev pub claim_ids : List Text
  claim_ids = due_ids now limit (requeue_rows now r.notifications)

  abbrev pub claim_row : Notification → Notification
  claim_row n =
      let m = requeue_row now n in
      if mem_text m.notification_id claim_ids then lease worker (now + lease_time) m else m

  -- A claim acts on a row by itself.
  pub select-claim :
      (k : Text)
      → r.closed ≡ false
      → select note_key k (claim_notifications now worker lease_time limit r).0.notifications
        ≡ Option.map claim_row (select note_key k r.notifications)
  unfolding claim_notifications
  select-claim k up = ground (
    arith,
    select-update_all note_key k (λ n. mem_text n.notification_id claim_ids)
        (lease worker (now + lease_time)) (requeue_rows now r.notifications) (λ _. refl),
    select-requeue_rows k now r.notifications,
  )

  pub claim-closed : (claim_notifications now worker lease_time limit r).0.closed ≡ r.closed
  unfolding claim_notifications
  claim-closed = ground arith

  -- The rows that a claim returns are those with the ids that it selected.
  pub mem_text-claim :
      (k : Text) (n : Notification)
      → NotesDistinct r
      → r.closed ≡ false
      → select note_key k r.notifications ≡ some n
      → mem_text k (map note_key (claim_notifications now worker lease_time limit r).1)
        ≡ mem_text k claim_ids
  unfolding claim_notifications
  mem_text-claim k n d up e = ground (
    arith,
    mem_text-keep note_key k (λ m. mem_text m.notification_id claim_ids)
        (claim_notifications now worker lease_time limit r).0.notifications
        (claim_notifications-NotesDistinct now worker lease_time limit r d),
    select-claim k up,
    select-key note_key k r.notifications n e,
  )

  -- Nothing may take the row: it is sent or failed, or its lease runs on.
  abbrev pub IsHeld : Notification → Type 0
  IsHeld n =
      (n.status ≡ sent)
      ⊎ (n.status ≡ Status.failed)
      ⊎ ((n.status ≡ leased) × ((u : ℕ) × (n.lease_until ≡ some u) × (now < u)))

  not_due_of_IsHeld :
      (n : Notification) → IsHeld n → (is_expired now n ≡ false) × (is_due now n ≡ false)
  not_due_of_IsHeld n (inl h) = ground arith
  not_due_of_IsHeld n (inr (inl h)) = ground arith
  not_due_of_IsHeld n (inr (inr (h, w))) = ground (arith, w.1, w.2)

  -- A claim returns no row that is sent, failed, or under a lease that runs on, and leaves each of
  -- these as it was.
  pub claim_respects_held :
      (k : Text) (n : Notification)
      → NotesDistinct r
      → get_notification k r ≡ some n
      → IsHeld n
      → let (r', rows) = claim_notifications now worker lease_time limit r in
        (get_notification k r' ≡ some n) × (mem_text k (map note_key rows) ≡ false)
  unfolding get_notification
  claim_respects_held k n d e h = elim (Bool-cases r.closed) [
    | inl down ↦ cc (rw down at e)
    | inr up ↦
        let found : select note_key k r.notifications ≡ some n = ground arith in
        let idle : mem_text k claim_ids ≡ false =
          due_ids_not_due k now limit (requeue_rows now r.notifications) n
            (requeue_rows-Distinct now r.notifications d)
            (ground (arith, select-requeue_rows k now r.notifications, not_due_of_IsHeld n h))
            (not_due_of_IsHeld n h).1 in
        (
          ground (
            arith,
            select-claim k up,
            not_due_of_IsHeld n h,
            select-key note_key k r.notifications n found,
            claim-closed,
          ),
          ground (arith, mem_text-claim k n d up found),
        )
  ]
