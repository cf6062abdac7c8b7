-- ===== src/Outbox/Worker/Pass.antt =====
-- What one drain pass leaves behind: no lease, and a bounded retry for each failure.
pub mod Drain
use hermes_pi_manager.Base.Json.{Python}
use hermes_pi_manager.Registry.Rows.{Notification, Registry, Status, sent}
use hermes_pi_manager.Outbox.Errors.{classify_transient, extract_tool_error}
use hermes_pi_manager.Registry.Notifications.{
  as_failed, as_retry, as_sent, fail_notification, note_key, set_notification_retry,
  set_notification_sent,
}
use hermes_pi_manager.Outbox.Queue.{counted, backoff, error_text, mark_failed, max_attempts}
use hermes_pi_manager.Outbox.Worker.{
  record_result, no_target, Delivery, deliver_all, deliver_one, is_unroutable, raised,
  record_delivery, returned,
}
use hermes_pi_manager.Base.{
  Bool, Distinct, List, Option, Text, [], arith, false, if◌then◌else◌, ltb, none, refl, select,
  select-update_where, some, suc, text, text_eq, text_eq_iff, true, zero, ℕ, ◌&&◌, ◌++◌, ◌+◌, ◌<◌,
  ◌∙◌, ◌∷◌, ◌≡◌, ◌≢◌, ◌≤◌, ◌⊎◌,
}
use mathlib.Core.Option

abbrev pub failed_row : Notification → Text → Bool → ℕ → Notification → Notification
failed_row row error transient now n =
    if transient && ltb (counted row.attempts) max_attempts
    then as_retry (now + backoff (counted row.attempts)) (error_text error) n
    else as_failed (error_text error) n

module _ (py : Python) (deliver : Notification → Delivery) (now : ℕ) where
  abbrev result_row : Notification → Option Text → Notification → Notification
  result_row row none n = as_sent now n
  result_row row (some error) n = failed_row row error (classify_transient py error) now n

  abbrev recorded_row : Notification → Delivery → Notification → Notification
  recorded_row row (raised exc) n = failed_row row (text "host adapter raised: " ++ exc) true now n
  recorded_row row (returned result) n = result_row row (extract_tool_error py result) n

  -- The row that `deliver_one` leaves for a row that it is given.
  delivered_row : Notification → Notification → Notification
  delivered_row row n =
      if is_unroutable row.target
      then failed_row row no_target false now n
      else recorded_row row (deliver row) n

  select-mark_failed :
      (k : Text) (row : Notification) (error : Text) (transient : Bool) (r : Registry)
      → r.closed ≡ false
      → select note_key k (mark_failed row error transient now r).notifications ≡ (
          if text_eq k row.notification_id
          then Option.map (failed_row row error transient now) (select note_key k r.notifications)
          else select note_key k r.notifications)
  unfolding mark_failed set_notification_retry fail_notification
  select-mark_failed k row error transient r up = ground (
    arith,
    select-update_where note_key k row.notification_id (λ _. true)
        (as_retry (now + backoff (counted row.attempts)) (error_text error)) r.notifications
        (λ _. refl),
    select-update_where note_key k row.notification_id (λ _. true) (as_failed (error_text error))
        r.notifications (λ _. refl),
  )

  select-sent :
      (k nid : Text) (r : Registry)
      → r.closed ≡ false
      → select note_key k (set_notification_sent nid now r).notifications ≡ (
          if text_eq k nid
          then Option.map (as_sent now) (select note_key k r.notifications)
          else select note_key k r.notifications)
  unfolding set_notification_sent
  select-sent k nid r up = ground (
    arith,
    select-update_where note_key k nid (λ _. true) (as_sent now) r.notifications (λ _. refl),
  )

  select-result :
      (k : Text) (row : Notification) (error : Option Text) (r : Registry)
      → r.closed ≡ false
      → select note_key k (record_result py row error now r).notifications ≡ (
          if text_eq k row.notification_id
          then Option.map (result_row row error) (select note_key k r.notifications)
          else select note_key k r.notifications)
  unfolding record_result
  select-result k row none r up = select-sent k row.notification_id r up
  select-result k row (some error) r up =
      select-mark_failed k row error (classify_transient py error) r up

  select-record :
      (k : Text) (row : Notification) (d : Delivery) (r : Registry)
      → r.closed ≡ false
      → select note_key k (record_delivery py row d now r).notifications ≡ (
          if text_eq k row.notification_id
          then Option.map (recorded_row row d) (select note_key k r.notifications)
          else select note_key k r.notifications)
  unfolding record_delivery
  select-record k row (raised exc) r up =
      select-mark_failed k row (text "host adapter raised: " ++ exc) true r up
  select-record k row (returned result) r up =
      select-result k row (extract_tool_error py result) r up

  select-deliver_one :
      (k : Text) (row : Notification) (r : Registry)
      → r.closed ≡ false
      → select note_key k (deliver_one py deliver row now r).notifications ≡ (
          if text_eq k row.notification_id
          then Option.map (delivered_row row) (select note_key k r.notifications)
          else select note_key k r.notifications)
  unfolding deliver_one delivered_row
  select-deliver_one k row r up =
      ground (
        arith,
        select-mark_failed k row no_target false r up,
        select-record k row (deliver row) r up,
      )

  deliver_one-closed :
      (row : Notification) (r : Registry) → (deliver_one py deliver row now r).closed ≡ r.closed
  unfolding deliver_one record_delivery record_result mark_failed set_notification_sent
      set_notification_retry fail_notification
  deliver_one-closed row r = ground arith

  -- A pass over rows leaves a row with another key alone.
  deliver_all-other :
      (k : Text) (rows : List Notification) (r : Registry)
      → r.closed ≡ false
      → select note_key k rows ≡ none
      → select note_key k (deliver_all py deliver rows now r).notifications
        ≡ select note_key k r.notifications
  unfolding deliver_all select
  deliver_all-other k [] r up h = refl
  deliver_all-other k (x ∷ xs) r up h = ground (
    arith,
    text_eq_iff k x.notification_id,
    text_eq_iff x.notification_id k,
    select-deliver_one k x r up,
    deliver_one-closed x r,
    deliver_all-other k xs (deliver_one py deliver x now r),
  )

  -- A pass over rows with distinct keys settles each of them once.
  deliver_all-row :
      (k : Text) (rows : List Notification) (r : Registry) (row n : Notification)
      → r.closed ≡ false
      → Distinct note_key rows
      → select note_key k rows ≡ some row
      → select note_key k r.notifications ≡ some n
      → select note_key k (deliver_all py deliver rows now r).notifications
        ≡ some (delivered_row row n)
  unfolding deliver_all select
  deliver_all-row k [] r row n up d h e = cc
  deliver_all-row k (x ∷ xs) r row n up d h e = ground (
    arith,
    text_eq_iff k x.notification_id,
    text_eq_iff x.notification_id k,
    select-deliver_one k x r up,
    deliver_one-closed x r,
    deliver_all-other k xs (deliver_one py deliver x now r),
    deliver_all-row k xs (deliver_one py deliver x now r) row n,
  )

  deliver_all-closed :
      (rows : List Notification) (r : Registry)
      → (deliver_all py deliver rows now r).closed ≡ r.closed
  unfolding deliver_all
  deliver_all-closed [] r = refl
  deliver_all-closed (x ∷ xs) r =
      deliver_all-closed xs (deliver_one py deliver x now r) ∙ deliver_one-closed x r

-- How a delivery went: the message was sent, or it was not and a later try may help, or none can.
pub data Verdict : Type 0 where
  went : Verdict
  transient_failure : Verdict
  permanent_failure : Verdict

abbrev answer_verdict : Python → Option Text → Verdict
answer_verdict py none = went
answer_verdict py (some error) =
    if classify_transient py error then transient_failure else permanent_failure

-- An exception of the tool passes; an error in its answer is one of the classes of errors; any other
-- answer is a success.
abbrev pub delivery_verdict : Python → Delivery → Verdict
delivery_verdict py (raised exc) = transient_failure
delivery_verdict py (returned result) = answer_verdict py (extract_tool_error py result)

-- A row without a target cannot be sent.
abbrev pub verdict_on : Python → (Notification → Delivery) → Notification → Verdict
verdict_on py deliver row =
    if is_unroutable row.target then permanent_failure else delivery_verdict py (deliver row)

abbrev HasFailed : Notification → Type 0
HasFailed n = (n.status ≡ Status.failed) × (n.next_retry_at ≡ none) × (n.last_error ≢ none)

-- The status of a row by how its delivery went: sent; failed for good; or, with fewer than 6 attempts
-- made, pending again with its next try 5 to 900 seconds away.
abbrev pub HasOutcome : ℕ → Verdict → Notification → Type 0
HasOutcome now went n = (n.status ≡ sent) × (n.sent_at ≡ some now)
HasOutcome now permanent_failure n = HasFailed n
HasOutcome now transient_failure n =
    ((6 ≤ n.attempts) × HasFailed n)
    ⊎ ((n.attempts < 6)
        × (n.status ≡ Status.pending)
        × ((t : ℕ) × (n.next_retry_at ≡ some t) × (now + 5000 ≤ t) × (t ≤ now + 900000)))

-- A row after its delivery, under no lease.
pub record IsSettled (now : ℕ) (v : Verdict) (n : Notification) : Type 0 where
  pub no_lease : n.lease_until ≡ none
  pub no_worker : n.worker_id ≡ none
  pub outcome : HasOutcome now v n

-- The backoff lies between 5 and 900 seconds.
backoff_bounds : (n : ℕ) → (5000 ≤ backoff n) × (backoff n ≤ 900000)
backoff_bounds zero = omega arith
backoff_bounds (suc zero) = omega arith
backoff_bounds (suc (suc zero)) = omega arith
backoff_bounds (suc (suc (suc zero))) = omega arith
backoff_bounds (suc (suc (suc (suc zero)))) = omega arith
backoff_bounds (suc (suc (suc (suc (suc n))))) = omega arith

pub transient-IsSettled :
    (row : Notification) (error : Text) (now : ℕ) (n : Notification)
    → n.attempts ≡ row.attempts
    → 1 ≤ row.attempts
    → IsSettled now transient_failure (failed_row row error true now n)
transient-IsSettled row error now n e h = ground (arith, backoff_bounds (counted row.attempts))

pub permanent-IsSettled :
    (row : Notification) (error : Text) (now : ℕ) (n : Notification)
    → IsSettled now permanent_failure (failed_row row error false now n)
permanent-IsSettled row error now n = ground arith
