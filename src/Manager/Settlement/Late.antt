-- ===== src/Manager/Settlement/Late.antt =====
-- The wake that the announcement of a finished task opens, and a settlement after an abort.
use hermes_pi_manager.Base.Int.{ℤ}
use hermes_pi_manager.Manager.Notices.{
  enqueue_notification, kind_of_row, notify_done, request_terminal_wake,
}
use hermes_pi_manager.Manager.Events.{
  rebaseline, clear_grace, put_exit, write_event, on_event, on_settled, put_by_type, put_metrics,
  put_seen, type_of,
}
use hermes_pi_manager.Registry.Notifications.{insert_notification}
use hermes_pi_manager.Registry.Events.{append_event}
use hermes_pi_manager.Manager.State.{
  prune, set_rt, verify, with_registry, Manager, rt_of, Runtime, state_of,
}
use hermes_pi_manager.Registry.Rows.{
  Execution, is_final, Kind, Registry, Task, Wake, agent_settled, disabled,
}
use hermes_pi_manager.Outbox.Queue.{enqueue}
use hermes_pi_manager.Registry.Tasks.Cas.{
  get_task-update_task, update_task-TasksDistinct, TasksDistinct, updated,
}
use hermes_pi_manager.Registry.Tasks.{update_task, get_task, task_key}
use hermes_pi_manager.Registry.Wakes.{
  begin_terminal_wake, disable_wake, is_eligible, is_unopened, open_wake,
}
use hermes_pi_manager.Manager.Notices.Passive.{
  get_task-enqueue_notification, note_opened-state, request_terminal_wake-state,
}
use hermes_pi_manager.Base.{
  ◌++◌, not, [], none, true, ◌∷◌, Option, Text, ap, arith, count_where-has_key, if◌then◌else◌,
  is_none, refl, select-update_where, some, text_eq_iff, ℕ, ◌∙◌, ◌≡◌,
}
use hermes_pi_manager.Base.Json.{Members, Python}
use mathlib.Core.Option

-- The wake of a row after `request_terminal_wake`.
abbrev pub opened_wake : Task → Option Wake
opened_wake t =
    if is_none t.wake_state
    then some (if t.continuation_enabled then Wake.pending else disabled)
    else t.wake_state

abbrev pub wake_of : Option Task → Option (Option Wake)
wake_of o = Option.map (λ t. t.wake_state) o

begin_terminal_wake-wake :
    (tid : Text) (now wall : ℕ) (r : Registry) (t : Task)
    → TasksDistinct r
    → get_task tid r ≡ some t
    → wake_of (get_task tid (begin_terminal_wake tid now wall r).0) ≡ some (opened_wake t)
unfolding begin_terminal_wake get_task
begin_terminal_wake-wake tid now wall r t d e = ground (
  arith,
  text_eq_iff tid tid,
  count_where-has_key task_key tid is_eligible r.tasks d,
  count_where-has_key task_key tid is_unopened r.tasks d,
  select-update_where task_key tid tid is_eligible (open_wake now wall) r.tasks (λ _. refl),
  select-update_where task_key tid tid is_unopened (disable_wake wall) r.tasks (λ _. refl),
)

-- A request opens the wake of its task, unless it was opened before.
pub request_terminal_wake-wake :
    (py : Python) (tid : Text) (now wall : ℕ) (r : Registry) (t : Task)
    → TasksDistinct r
    → get_task tid r ≡ some t
    → wake_of (get_task tid (request_terminal_wake py tid now wall r)) ≡ some (opened_wake t)
unfolding request_terminal_wake
request_terminal_wake-wake py tid now wall r t d e =
    let (r', w) = begin_terminal_wake tid now wall r in
    ground (
      arith,
      begin_terminal_wake-wake tid now wall r t d e,
      note_opened-state py tid tid t w wall r',
    )

pub enqueue_notification-TasksDistinct :
    (py : Python) (tid : Text) (kind : Kind) (now wall : ℕ) (r : Registry)
    → TasksDistinct r
    → TasksDistinct (enqueue_notification py tid kind now wall r)
unfolding enqueue_notification enqueue insert_notification append_event
enqueue_notification-TasksDistinct py tid kind now wall r d = ground arith

-- Announcing a finished task opens its wake, unless it was opened before: pending if the task may
-- be continued, disabled otherwise. No execution state changes.
pub notify_done_wakes :
    (py : Python) (tid : Text) (now wall : ℕ) (r : Registry) (t : Task)
    → TasksDistinct r
    → get_task tid r ≡ some t
    → let after = notify_done py tid now wall r in
      (wake_of (get_task tid after) ≡ some (opened_wake t))
      × ((j : Text) → state_of (get_task j after) ≡ state_of (get_task j r))
unfolding notify_done request_terminal_wake
notify_done_wakes py tid now wall r t d e =
    let put = enqueue_notification py tid (kind_of_row (get_task tid r)) now wall r in
    let (r', w) = begin_terminal_wake tid now wall put in
    (
      ground (
        arith,
        get_task-enqueue_notification py tid tid (kind_of_row (get_task tid r)) now wall r,
        begin_terminal_wake-wake tid now wall put t
            (enqueue_notification-TasksDistinct py tid (kind_of_row (get_task tid r)) now wall r d),
        note_opened-state py tid tid t w wall r',
      ),
      λ j.
          request_terminal_wake-state py j tid now wall put
          ∙ ap state_of
              (get_task-enqueue_notification py j tid (kind_of_row (get_task tid r)) now wall r),
    )

-- What `agent_settled` leaves of a row in a final state.
abbrev KeepsFinal : Task → Registry → Text → Type 0
KeepsFinal t r tid =
    TasksDistinct r
    × ((u : Task) × (get_task tid r ≡ some u)
        × (u.execution_state ≡ t.execution_state)
        × (u.wake_state ≡ t.wake_state)
        × (u.continuation_enabled ≡ t.continuation_enabled))

write_event-KeepsFinal :
    (tid source : Text) (ev : Members) (summary : Text) (rt : Option Runtime) (now wall : ℕ)
    (t : Task) (r : Registry)
    → TasksDistinct r
    → get_task tid r ≡ some t
    → is_final t.execution_state ≡ true
    → KeepsFinal t (write_event tid source agent_settled ev summary rt now wall t r) tid
unfolding append_event get_task
write_event-KeepsFinal tid source ev summary rt now wall t r d e f =
    let fs =
      put_by_type agent_settled ev rt now
      ∷ put_metrics agent_settled (not (is_final t.execution_state)) t.message_count
      ∷ [] in
    let put = update_task tid (put_seen agent_settled now ∷ fs) wall r in
    let u = updated (put_seen agent_settled now ∷ fs) wall t in
    let row : get_task tid put ≡ some u = ground (
      arith,
      text_eq_iff tid tid,
      get_task-update_task tid tid (put_seen agent_settled now) fs wall r (λ _. refl),
    ) in
    let keys = update_task-TasksDistinct tid (put_seen agent_settled now) fs wall r (λ _. refl) d in
    (ground (arith, keys), (u, ground (arith, row), refl, refl, refl))

exit-KeepsFinal :
    (tid : Text) (disposed : Option ℤ) (wall : ℕ) (m : Manager) (t : Task)
    → KeepsFinal t m.registry tid
    → KeepsFinal t (on_settled tid disposed wall m).registry tid
unfolding on_settled
exit-KeepsFinal tid none wall m t h = h
exit-KeepsFinal tid (some code) wall m t (d, (u, e, s, w, c)) =
    let f = put_exit (some code) in
    (
      update_task-TasksDistinct tid f [] wall m.registry (λ _. refl) d,
      (
        updated (f ∷ []) wall u,
        ground (
          arith,
          text_eq_iff tid tid,
          get_task-update_task tid tid f [] wall m.registry (λ _. refl),
        ),
        s,
        w,
        c,
      ),
    )

on_settled-threads :
    (tid : Text) (disposed : Option ℤ) (wall : ℕ) (m : Manager)
    → (on_settled tid disposed wall m).threads ≡ (m.threads ++ prune ∷ []) ++ verify tid ∷ []
unfolding on_settled
on_settled-threads tid none wall m = refl
on_settled-threads tid (some code) wall m = refl

-- A late `agent_settled` for a task that was aborted, with no wake yet and allowed to continue, still
-- starts the verification thread; and the announcement that ends that thread opens the task's wake,
-- though the task stays ABORTED.
pub late_settlement_wakes :
    (py : Python) (summarise : Members → Text) (disposed : Option ℤ) (tid source : Text)
    (ev : Members) (now wall : ℕ) (m : Manager) (t : Task)
    → TasksDistinct m.registry
    → get_task tid m.registry ≡ some t
    → t.execution_state ≡ Execution.aborted
    → t.wake_state ≡ none
    → t.continuation_enabled ≡ true
    → type_of ev ≡ agent_settled
    → let m' = on_event summarise disposed tid source ev now wall m in
      let announced = notify_done py tid now wall m'.registry in
      (m'.threads ≡ (m.threads ++ prune ∷ []) ++ verify tid ∷ [])
      × (wake_of (get_task tid announced) ≡ some (some Wake.pending))
      × (state_of (get_task tid announced) ≡ some Execution.aborted)
unfolding on_event
late_settlement_wakes py summarise disposed tid source ev now wall m t d e a w c h =
    let rt = rt_of tid m in
    let written =
      with_registry (write_event tid source agent_settled ev (summarise ev) rt now wall t) m in
    let based =
      set_rt tid (rebaseline agent_settled (get_task tid written.registry))
        (set_rt tid clear_grace written) in
    let after = exit-KeepsFinal tid disposed wall based t (
      write_event-KeepsFinal tid source ev (summarise ev) rt now wall t m.registry d e
        (ground arith)) in
    let (d', p) = after in
    let (u, e', s', w', c') = p in
    let r' = (on_settled tid disposed wall based).registry in
    let done = notify_done_wakes py tid now wall r' u d' e' in
    (
      ground (arith, on_settled-threads tid disposed wall based),
      ground (arith, done.0),
      ground (arith, done.1 tid),
    )
