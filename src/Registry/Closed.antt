-- ===== src/Registry/Closed.antt =====
-- `Registry.close`: after it every method is a no-op that returns its default.
use hermes_pi_manager.Registry.Rows.{EventType, Execution, Notification, Registry}
use hermes_pi_manager.Registry.Events.{append_event, prune_events, recent_events}
use hermes_pi_manager.Registry.Notifications.{
  claim_notifications, fail_notification, get_notification, insert_notification, list_notifications,
  progress_seq, requeue_expired_leases, set_notification_retry, set_notification_sent,
}
use hermes_pi_manager.Registry.Wakes.{
  begin_terminal_wake, claim_terminal_wake, list_wake_pending, mark_wake_accepted,
  mark_wake_exhausted, mark_wake_retry, settle_stale_wake_dispatching,
}
use hermes_pi_manager.Base.{All, List, Text, [], arith, false, none, some, ℕ, ◌∷◌, ◌≡◌}
use hermes_pi_manager.Registry.Tasks.{
  Fields, close, create_task, get_task, list_tasks, transition_task_state, update_task,
}

-- The registry after each method that writes, at given arguments.
pub writes : Text → Text → Text → Fields → Notification → ℕ → ℕ → Registry → List Registry
writes k worker error fields note n wall r =
    update_task k fields wall r
    ∷ (transition_task_state k Execution.settled (some n) wall r).0
    ∷ append_event k worker (EventType.other error) none none (some error) none wall r
    ∷ (insert_notification note r).0
    ∷ (requeue_expired_leases n r).0
    ∷ (claim_notifications n worker n n r).0
    ∷ set_notification_sent k n r
    ∷ set_notification_retry k n error r
    ∷ fail_notification k error r
    ∷ (begin_terminal_wake k n wall r).0
    ∷ (claim_terminal_wake k wall r).0
    ∷ mark_wake_accepted k n wall r
    ∷ mark_wake_retry k n error wall r
    ∷ mark_wake_exhausted k error wall r
    ∷ (settle_stale_wake_dispatching wall r).0
    ∷ (prune_events n (some n) wall r).0
    ∷ []

-- Once a registry is closed, `close` and every method that writes leave it as it is, an INSERT of a
-- task included, and every method that reads returns its default: nothing, no rows, false or 0.
pub close_seals :
    (k worker error : Text) (fields : Fields) (note : Notification) (n wall : ℕ) (r : Registry)
    → let s = close r in
      All (λ s'. s' ≡ s) (writes k worker error fields note n wall s)
      × (close s ≡ s)
      × (create_task k fields wall s ≡ some s)
      × (get_task k s ≡ none)
      × (list_tasks none s ≡ [])
      × (recent_events k n s ≡ [])
      × (get_notification k s ≡ none)
      × (list_notifications none none n s ≡ [])
      × (progress_seq k s ≡ 0)
      × (list_wake_pending n n s ≡ [])
      × ((transition_task_state k Execution.settled (some n) wall s).1 ≡ false)
      × ((insert_notification note s).1 ≡ false)
      × ((claim_notifications n worker n n s).1 ≡ [])
      × ((begin_terminal_wake k n wall s).1 ≡ none)
      × ((claim_terminal_wake k wall s).1 ≡ false)
      × ((settle_stale_wake_dispatching wall s).1 ≡ [])
      × ((prune_events n (some n) wall s).1 ≡ 0)
unfolding close writes create_task update_task transition_task_state append_event
    insert_notification requeue_expired_leases claim_notifications set_notification_sent
    set_notification_retry fail_notification begin_terminal_wake claim_terminal_wake
    mark_wake_accepted mark_wake_retry mark_wake_exhausted settle_stale_wake_dispatching
    prune_events get_task list_tasks recent_events get_notification list_notifications progress_seq
    list_wake_pending
close_seals k worker error [] note n wall r = ground arith
close_seals k worker error (f ∷ fs) note n wall r = ground arith
