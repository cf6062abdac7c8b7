-- ===== src/Registry/Notifications/Claims/Leases.antt =====
-- The rows that a claim returns, and two claims in a row.
use hermes_pi_manager.Registry.Notifications.Claims.{
  claim-closed, select-claim, select-requeue_rows, requeue_rows-Distinct, mem_text-claim,
  claim_respects_held, claim_row, requeue_rows, NotesDistinct, claim_ids,
  claim_notifications-NotesDistinct,
}
use hermes_pi_manager.Registry.Rows.{Notification, Registry, Status, leased}
use hermes_pi_manager.Base.{
  select-key, length-sort_by, mem_text-keep, mem_text-sort_by, take_all, All, List, Text, [], arith,
  false, inr, keep, length, length-keep_ids, length-map, length-take-le, map, mem_text, some,
  sort_by, take, true, update_where, ℕ, ◌&&◌, ◌+◌, ◌<◌, ◌||◌, ◌∷◌, ◌≡◌, ◌≤◌,
}
use hermes_pi_manager.Registry.Notifications.{
  claim_notifications, due_ids, enqueued_before, get_notification, is_due, lease, note_key,
  null_or_le, same_status, some_le,
}

module _ (now : ℕ) (worker : Text) (lease_time limit : ℕ) (r : Registry) where
  -- What a claim says of the rows that it returns.
  abbrev pub IsClaimed : Notification → Type 0
  IsClaimed n =
      (n.status ≡ leased)
      × (n.worker_id ≡ some worker)
      × (n.lease_until ≡ some (now + lease_time))
      × (1 ≤ n.attempts)

  abbrev ids : List Text
  ids = claim_ids now worker lease_time limit r

  All-leased :
      (is : List Text) (rows : List Notification)
      → All IsClaimed (
          keep
            (λ n. mem_text n.notification_id is)
            (update_where
              (λ n. mem_text n.notification_id is)
              (lease worker (now + lease_time))
              rows))
  unfolding keep update_where
  All-leased is [] = tt
  All-leased is (n ∷ ns) = ground (arith, All-leased is ns)

  length-ids : (rows : List Notification) → length (due_ids now limit rows) ≤ limit
  unfolding due_ids
  length-ids rows =
      rw (length-map note_key (take limit (sort_by enqueued_before (keep (is_due now) rows))))
        (length-take-le limit (sort_by enqueued_before (keep (is_due now) rows)))

  -- Every row that a claim returns is leased to the worker until the end of the lease, with its
  -- attempt counted, and there are at most `limit` of them.
  pub claim_leases :
      NotesDistinct r
      → let rows = (claim_notifications now worker lease_time limit r).1 in
        All IsClaimed rows × (length rows ≤ limit)
  unfolding claim_notifications
  claim_leases d = (
    ground (arith, All-leased ids (requeue_rows now r.notifications)),
    ground (
      arith,
      length-keep_ids note_key ids
          (claim_notifications now worker lease_time limit r).0.notifications
          (claim_notifications-NotesDistinct now worker lease_time limit r d),
      length-ids (requeue_rows now r.notifications),
    ),
  )

  -- With no more rows to take than `limit`, a claim returns every pending row that is due and every
  -- leased row whose lease ran out and that is due, and no other.
  pub claim_complete :
      (k : Text) (n : Notification)
      → NotesDistinct r
      → get_notification k r ≡ some n
      → length (keep (is_due now) (requeue_rows now r.notifications)) ≤ limit
      → mem_text k (map note_key (claim_notifications now worker lease_time limit r).1) ≡ (
          null_or_le n.next_retry_at now
          && (same_status n.status Status.pending
              || (same_status n.status leased && some_le n.lease_until now)))
  unfolding get_notification due_ids
  claim_complete k n d e h = ground (
    arith,
    mem_text-claim now worker lease_time limit r k n d,
    take_all note_key limit (sort_by enqueued_before due),
    length-sort_by enqueued_before due,
    mem_text-sort_by enqueued_before note_key k due,
    mem_text-keep note_key k (is_due now) (requeue_rows now r.notifications)
        (requeue_rows-Distinct now r.notifications d),
    select-requeue_rows k now r.notifications,
  )
    where
      due : List Notification
      due = keep (is_due now) (requeue_rows now r.notifications)

  -- A worker that claims before the lease of the first claim ends gets none of its rows.
  pub claims_exclusive :
      (k worker' : Text) (now' lease_time' limit' : ℕ) (n : Notification)
      → NotesDistinct r
      → get_notification k r ≡ some n
      → now' < now + lease_time
      → mem_text k (map note_key (claim_notifications now worker lease_time limit r).1) ≡ true
      → let r' = (claim_notifications now worker lease_time limit r).0 in
        mem_text k (map note_key (claim_notifications now' worker' lease_time' limit' r').1) ≡ false
  unfolding get_notification
  claims_exclusive k worker' now' lease_time' limit' n d e early mine =
      (claim_respects_held now' worker' lease_time' limit' r' k
        (claim_row now worker lease_time limit r n)
        (claim_notifications-NotesDistinct now worker lease_time limit r d)
        (ground (
          arith,
          select-claim now worker lease_time limit r k,
          claim-closed now worker lease_time limit r,
        ))
        (inr (inr (ground (arith, taken), (now + lease_time, ground (arith, taken), early))))).1
    where
      r' : Registry
      r' = (claim_notifications now worker lease_time limit r).0

      taken : mem_text n.notification_id (claim_ids now worker lease_time limit r) ≡ true
      taken = ground (
        arith,
        mem_text-claim now worker lease_time limit r k n d,
        select-key note_key k r.notifications n,
      )
