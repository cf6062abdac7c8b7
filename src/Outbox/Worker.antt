-- ===== src/Outbox/Worker.antt =====
-- outbox.py: one drain pass of `OutboxWorker`. What the host's tool answers is a parameter.
pub mod Pass
use hermes_pi_manager.Outbox.Queue.{mark_failed}
use hermes_pi_manager.Registry.Rows.{Notification, Registry}
use hermes_pi_manager.Base.Json.{Json, Python}
use hermes_pi_manager.Registry.Notifications.{claim_notifications, set_notification_sent}
use hermes_pi_manager.Outbox.Errors.{classify_transient, extract_tool_error}
use hermes_pi_manager.Base.{
  Bool, List, Option, Text, [], false, if◌then◌else◌, is_empty, length, none, some, text, true, ℕ,
  ◌++◌, ◌∷◌,
}

-- The delivery of one row: the tool raised, or returned a value.
pub data Delivery : Type 0 where
  raised : Text → Delivery
  returned : Json → Delivery

pub record Worker : Type 0 where
  pub worker_id : Text
  pub lease_time : ℕ
  pub max_per_tick : ℕ

abbrev pub no_target : Text
no_target =
    text
      "no routable target: task origin has no usable platform/chat_id (dispatched outside a messaging session)"

-- What `_deliver_one` records: a success, or the error of the tool's answer.
unfoldable pub record_result : Python → Notification → Option Text → ℕ → Registry → Registry
record_result py row none now r = set_notification_sent row.notification_id now r
record_result py row (some error) now r = mark_failed row error (classify_transient py error) now r

unfoldable pub record_delivery : Python → Notification → Delivery → ℕ → Registry → Registry
record_delivery py row (raised exc) now r =
    mark_failed row (text "host adapter raised: " ++ exc) true now r
record_delivery py row (returned result) now r =
    record_result py row (extract_tool_error py result) now r

-- `if not target`.
abbrev pub is_unroutable : Option Text → Bool
is_unroutable none = true
is_unroutable (some t) = is_empty t

unfoldable pub deliver_one :
    Python → (Notification → Delivery) → Notification → ℕ → Registry → Registry
deliver_one py deliver row now r =
    if is_unroutable row.target
    then mark_failed row no_target false now r
    else record_delivery py row (deliver row) now r

unfoldable pub deliver_all :
    Python → (Notification → Delivery) → List Notification → ℕ → Registry → Registry
deliver_all py deliver [] now r = r
deliver_all py deliver (row ∷ rows) now r =
    deliver_all py deliver rows now (deliver_one py deliver row now r)

unfoldable pub run_once : Python → (Notification → Delivery) → Worker → ℕ → Registry → Registry × ℕ
run_once py deliver w now r =
    let (r', rows) = claim_notifications now w.worker_id w.lease_time w.max_per_tick r in
    (deliver_all py deliver rows now r', length rows)
