-- ===== src/Scenarios/Notes.antt =====
-- Examples of the theorems on the notification outbox.

use hermes_pi_manager.Outbox.Queue.Ids.{IsFresh}
use hermes_pi_manager.Outbox.Worker.Pass.{verdict_on, IsSettled}
use hermes_pi_manager.Outbox.Worker.{Delivery, Worker, run_once}
use hermes_pi_manager.Outbox.Worker.Pass.Drain.{run_once_settles}
use hermes_pi_manager.Outbox.Queue.{enqueue, next_id, notification_row}
use hermes_pi_manager.Registry.Notifications.{
  due_ids, is_due, claim_notifications, get_notification, note_key, null_or_le, same_status,
  some_le,
}
use hermes_pi_manager.Registry.Rows.{Kind, Notification, Registry, Status, leased}
use hermes_pi_manager.Registry.Notifications.Claims.{claim_row, IsHeld, requeue_rows, NotesDistinct}
use hermes_pi_manager.Outbox.Queue.Dedupe.{enqueue_lem}
use hermes_pi_manager.Registry.Notifications.Claims.Leases.{claim_complete, claims_exclusive}
use hermes_pi_manager.Base.{
  inr, keep, sort_by, true, update_where, ℕ, Text, arith, false, if◌then◌else◌, is_none, length,
  map, mem_text, none, refl, select, some, text, text_eq, ◌&&◌, ◌+◌, ◌||◌, ◌≡◌, ◌≤◌,
}
use hermes_pi_manager.Scenarios.{
  blank, empty_registry, note1, t1, with_note, with_note-NotesDistinct, with_note-row,
}

abbrev noted : Registry
noted = with_note note1

abbrev leased_note : Notification
leased_note = record note1 {
  status = leased;
  lease_until = some 9000;
  worker_id = some (text "w1");
  attempts = 1;
}

abbrev n1 : Text
n1 = text "n1"

abbrev w1 : Text
w1 = text "w1"

abbrev w2 : Text
w2 = text "w2"

leased_note-IsHeld : IsHeld 5000 w2 60000 8 (with_note leased_note) leased_note
leased_note-IsHeld = inr (inr (refl, (9000, refl, omega arith)))

leased_note-unclaimed :
    mem_text n1 (map note_key (claim_notifications 5000 w1 60000 8 (with_note leased_note)).1)
    ≡ false
unfolding claim_notifications due_ids keep sort_by select update_where mem_text text_eq
leased_note-unclaimed = refl

note1-claimed : mem_text n1 (map note_key (claim_notifications 5000 w1 60000 8 noted).1) ≡ true
unfolding claim_notifications due_ids keep sort_by select update_where mem_text text_eq
note1-claimed = refl

one_due : length (keep (is_due 5000) (requeue_rows 5000 noted.notifications)) ≤ 8
unfolding keep update_where
one_due = omega arith

claim_complete_example :
    mem_text n1 (map note_key (claim_notifications 5000 w1 60000 8 noted).1) ≡ (
      null_or_le note1.next_retry_at 5000
      && (same_status note1.status Status.pending
          || (same_status note1.status leased && some_le note1.lease_until 5000)))
claim_complete_example =
    claim_complete 5000 w1 60000 8 noted n1 note1 (with_note-NotesDistinct note1)
      (with_note-row note1) one_due

claims_exclusive_example :
    let r' = (claim_notifications 5000 w1 60000 8 noted).0 in
    mem_text n1 (map note_key (claim_notifications 6000 w2 60000 8 r').1) ≡ false
claims_exclusive_example =
    claims_exclusive 5000 w1 60000 8 noted n1 w2 6000 60000 8 note1 (with_note-NotesDistinct note1)
      (with_note-row note1) (omega arith) note1-claimed

enqueue_lem_example :
    let id = next_id t1 Kind.settled noted in
    let fresh = is_none (get_notification id noted) in
    let added = (enqueue blank t1 Kind.settled (text "hi") 2000 2000 noted).0 in
    ((enqueue blank t1 Kind.settled (text "hi") 2000 2000 noted).1
      ≡ (if fresh then some id else none))
    × NotesDistinct added
    × (get_notification n1 added ≡ elim (get_notification n1 noted) [
      | some n ↦ some n
      | none ↦
          if fresh && text_eq id n1
          then some (notification_row blank t1 Kind.settled (text "hi") 2000 noted)
          else none
    ])
enqueue_lem_example =
    enqueue_lem blank t1 Kind.settled (text "hi") 2000 2000 noted n1 (with_note-NotesDistinct note1)
      refl

empty-IsFresh : (tid : Text) → IsFresh tid empty_registry
unfolding select
empty-IsFresh tid m h = refl

abbrev seven : ℕ
seven = 7

abbrev host : Notification → Delivery
host n = Delivery.raised (text "down")

abbrev worker : Worker
worker = record { worker_id = w1; lease_time = 60000; max_per_tick = 8 }

run_once_settles_example :
    (u : Notification) × (get_notification n1 (run_once blank host worker 5000 noted).0 ≡ some u)
    × IsSettled 5000
        (verdict_on blank host
          (claim_row 5000 worker.worker_id worker.lease_time worker.max_per_tick noted note1))
        u
    × (u.attempts ≡ note1.attempts + 1)
run_once_settles_example =
    run_once_settles blank host worker 5000 noted n1 note1 (with_note-NotesDistinct note1)
      (with_note-row note1) note1-claimed
