-- ===== src/Outbox/Worker/Pass/Drain.antt =====
-- One whole drain pass: claim, then deliver every row.

use hermes_pi_manager.Outbox.Errors.{classify_transient, extract_tool_error}
use hermes_pi_manager.Outbox.Worker.Pass.{
  delivery_verdict, failed_row, permanent-IsSettled, permanent_failure, transient-IsSettled,
  transient_failure, verdict_on, deliver_all-row, deliver_all-other, deliver_all-closed,
  recorded_row, delivered_row, IsSettled,
}
use hermes_pi_manager.Base.Json.{Python}
use hermes_pi_manager.Outbox.Worker.{
  is_unroutable, no_target, raised, returned, Delivery, Worker, run_once,
}
use hermes_pi_manager.Registry.Notifications.Claims.{
  claim-closed, NotesDistinct, claim_ids, claim_notifications-NotesDistinct, claim_row,
  mem_text-claim, requeue_row, select-claim,
}
use hermes_pi_manager.Registry.Rows.{Notification, Registry}
use hermes_pi_manager.Registry.Notifications.{claim_notifications, get_notification, note_key}
use hermes_pi_manager.Base.{
  if◌then◌else◌, Bool-cases, Distinct-keep, Option-cases, inl, inr, mem_text-select, refl, text,
  ◌++◌, ◌∙◌, Distinct, List, Text, arith, false, map, mem_text, select, select-keep, select-key,
  some, true, ℕ, ◌+◌, ◌≡◌, ◌≤◌,
}

module _ (py : Python) (deliver : Notification → Delivery) (w : Worker) (now : ℕ)
    (r : Registry) where
  abbrev claimed : Registry × List Notification
  claimed = claim_notifications now w.worker_id w.lease_time w.max_per_tick r

  -- The rows that a claim returns, by key.
  select-claimed :
      (k : Text) (n : Notification)
      → NotesDistinct r
      → r.closed ≡ false
      → select note_key k r.notifications ≡ some n
      → mem_text k (map note_key claimed.1) ≡ true
      → select note_key k claimed.1
        ≡ some (claim_row now w.worker_id w.lease_time w.max_per_tick r n)
  unfolding claim_notifications
  select-claimed k n d up e m = ground (
    arith,
    mem_text-claim now w.worker_id w.lease_time w.max_per_tick r k n d,
    select-claim now w.worker_id w.lease_time w.max_per_tick r k up,
    select-key note_key k r.notifications n e,
    select-keep note_key k
        (λ m. mem_text m.notification_id (claim_ids now w.worker_id w.lease_time w.max_per_tick r))
        claimed.0.notifications
        (claim_notifications-NotesDistinct now w.worker_id w.lease_time w.max_per_tick r d),
  )

  claimed-Distinct : NotesDistinct r → Distinct note_key claimed.1
  unfolding claim_notifications
  claimed-Distinct d = ground (
    arith,
    Distinct-keep note_key
        (λ m. mem_text m.notification_id (claim_ids now w.worker_id w.lease_time w.max_per_tick r))
        claimed.0.notifications
        (claim_notifications-NotesDistinct now w.worker_id w.lease_time w.max_per_tick r d),
  )

  failed_row-IsSettled :
      (row : Notification) (error : Text)
      → 1 ≤ row.attempts
      → IsSettled now
          (if classify_transient py error then transient_failure else permanent_failure)
          (failed_row row error (classify_transient py error) now row)
  failed_row-IsSettled row error h = elim (Bool-cases (classify_transient py error)) [
    | inl e ↦ rw e (transient-IsSettled row error now row refl h)
    | inr e ↦ rw e (permanent-IsSettled row error now row)
  ]

  recorded_row-IsSettled :
      (row : Notification) (d : Delivery)
      → 1 ≤ row.attempts
      → IsSettled now (delivery_verdict py d) (recorded_row py deliver now row d row)
        × ((recorded_row py deliver now row d row).attempts ≡ row.attempts)
  recorded_row-IsSettled row (raised exc) h =
      (transient-IsSettled row (text "host adapter raised: " ++ exc) now row refl h, ground arith)
  recorded_row-IsSettled row (returned result) h =
      elim (Option-cases (extract_tool_error py result)) [
        | inl e ↦ rw e (record { no_lease = refl; no_worker = refl; outcome = (refl, refl) }, refl)
        | inr (error, e) ↦ rw e (failed_row-IsSettled row error h, ground arith)
      ]

  delivered_row-IsSettled :
      (row : Notification)
      → 1 ≤ row.attempts
      → IsSettled now (verdict_on py deliver row) (delivered_row py deliver now row row)
        × ((delivered_row py deliver now row row).attempts ≡ row.attempts)
  unfolding delivered_row
  delivered_row-IsSettled row h = elim (Bool-cases (is_unroutable row.target)) [
    | inl e ↦ rw e (permanent-IsSettled row no_target now row, refl)
    | inr e ↦ rw e (recorded_row-IsSettled row (deliver row) h)
  ]

  -- A pass settles every row that it claims, by how the delivery of that row went: a row that was
  -- sent is sent; one whose failure is permanent, or that has no target, is failed for good; one whose
  -- failure is transient is pending again, with its next try 5 to 900 seconds away, while it has fewer
  -- than 6 attempts, and failed for good from the sixth. It is under no lease and has one attempt more
  -- than before.
  pub run_once_settles :
      (k : Text) (n : Notification)
      → NotesDistinct r
      → get_notification k r ≡ some n
      → mem_text k (map note_key claimed.1) ≡ true
      → (u : Notification) × (get_notification k (run_once py deliver w now r).0 ≡ some u)
        × IsSettled now
            (verdict_on py deliver (claim_row now w.worker_id w.lease_time w.max_per_tick r n))
            u
        × (u.attempts ≡ n.attempts + 1)
  unfolding get_notification run_once
  run_once_settles k n d e m = elim (Bool-cases r.closed) [
    | inl down ↦ cc (rw down at e)
    | inr up ↦
        let found : select note_key k r.notifications ≡ some n = ground arith in
        let row : Notification = claim_row now w.worker_id w.lease_time w.max_per_tick r n in
        let taken : mem_text n.notification_id
              (claim_ids now w.worker_id w.lease_time w.max_per_tick r)
            ≡ true =
          ground (
            arith,
            mem_text-claim now w.worker_id w.lease_time w.max_per_tick r k n d up found,
            select-key note_key k r.notifications n found,
          ) in
        (
          delivered_row py deliver now row row,
          ground (
            arith,
            select-claim now w.worker_id w.lease_time w.max_per_tick r k up,
            claim-closed now w.worker_id w.lease_time w.max_per_tick r,
            deliver_all-closed py deliver now claimed.1 claimed.0,
            deliver_all-row py deliver now k claimed.1 claimed.0 row row
                (claim-closed now w.worker_id w.lease_time w.max_per_tick r ∙ up)
                (claimed-Distinct d) (select-claimed k n d up found m),
          ),
          (delivered_row-IsSettled row (ground (arith, taken))).0,
          (delivered_row-IsSettled row (ground (arith, taken))).1 ∙ ground (arith, taken),
        )
  ]

  -- A pass leaves every row that it does not claim as it was, but for a lease that ran out: such a
  -- row is pending again.
  pub run_once_others :
      (k : Text) (n : Notification)
      → NotesDistinct r
      → get_notification k r ≡ some n
      → mem_text k (map note_key claimed.1) ≡ false
      → get_notification k (run_once py deliver w now r).0 ≡ some (requeue_row now n)
  unfolding get_notification run_once
  run_once_others k n d e m = elim (Bool-cases r.closed) [
    | inl down ↦ cc (rw down at e)
    | inr up ↦
        let found : select note_key k r.notifications ≡ some n = ground arith in
        ground (
          arith,
          select-key note_key k r.notifications n found,
          mem_text-claim now w.worker_id w.lease_time w.max_per_tick r k n d up found,
          mem_text-select note_key k claimed.1,
          select-claim now w.worker_id w.lease_time w.max_per_tick r k up,
          claim-closed now w.worker_id w.lease_time w.max_per_tick r,
          deliver_all-closed py deliver now claimed.1 claimed.0,
          deliver_all-other py deliver now k claimed.1 claimed.0,
        )
  ]
