-- ===== src/Manager/Recovery/Writes.antt =====
-- core.py: the writes that a recovery is made of keep the ids of the tasks distinct.
use hermes_pi_manager.Manager.Digest.{digest}
use hermes_pi_manager.Manager.Watchdog.Heartbeats.{
  apply_state_snapshot, compute_state_hash, is_new_hash, put_news, put_snapshot,
}
use hermes_pi_manager.Manager.Finish.Announced.{append_event-TasksDistinct}
use hermes_pi_manager.Registry.Tasks.Cas.{TasksDistinct, update_task-TasksDistinct}
use hermes_pi_manager.Messages.{state_text}
use hermes_pi_manager.Manager.Settlement.Late.{enqueue_notification-TasksDistinct}
use hermes_pi_manager.Registry.Wakes.Machine.{begins, call_wake, call_wake-TasksDistinct}
use hermes_pi_manager.Manager.Recovery.{
  move_leaf, note_verifier, put_leaf, Probe, put_last_error, reason_summary, reject, replay,
  replay_entries,
}
use hermes_pi_manager.Registry.Events.{append_event}
use hermes_pi_manager.Manager.State.{put_changed, put_state, set_execution_state}
use hermes_pi_manager.Base.Json.{Json, Members, Python}
use hermes_pi_manager.Manager.Notices.{
  enqueue_notification, kind_of_row, notify_done, request_terminal_wake,
}
use hermes_pi_manager.Registry.Tasks.{assign, task_key, get_task}
use hermes_pi_manager.Registry.Rows.{EventType, Execution, Kind, Registry, Task}
use hermes_pi_manager.Base.{KeepsKey, Option, List, Text, [], arith, none, some, text, ℕ, ◌∷◌, refl}

pub set_execution_state-TasksDistinct :
    (tid : Text) (s : Execution) (f : Task → Task) (now wall : ℕ) (r : Registry)
    → KeepsKey task_key (assign (put_state s ∷ put_changed now ∷ f ∷ []))
    → KeepsKey task_key (assign (put_state s ∷ f ∷ []))
    → TasksDistinct r
    → TasksDistinct (set_execution_state tid s (f ∷ []) now wall r)
unfolding set_execution_state append_event
set_execution_state-TasksDistinct tid s f now wall r changes keeps d = ground (
  arith,
  update_task-TasksDistinct tid (put_state s) (put_changed now ∷ f ∷ []) wall r changes d,
  update_task-TasksDistinct tid (put_state s) (f ∷ []) wall r keeps d,
)

pub request_terminal_wake-TasksDistinct :
    (py : Python) (tid : Text) (now wall : ℕ) (r : Registry)
    → TasksDistinct r
    → TasksDistinct (request_terminal_wake py tid now wall r)
unfolding request_terminal_wake append_event call_wake
request_terminal_wake-TasksDistinct py tid now wall r d =
    ground (arith, call_wake-TasksDistinct (begins tid now) wall r d)

pub notify_done-TasksDistinct :
    (py : Python) (tid : Text) (now wall : ℕ) (r : Registry)
    → TasksDistinct r
    → TasksDistinct (notify_done py tid now wall r)
unfolding notify_done
notify_done-TasksDistinct py tid now wall r d =
    let kind = kind_of_row (get_task tid r) in
    request_terminal_wake-TasksDistinct py tid now wall
      (enqueue_notification py tid kind now wall r)
      (enqueue_notification-TasksDistinct py tid kind now wall r d)

pub reject-TasksDistinct :
    (py : Python) (tid reason : Text) (before : Execution) (now wall : ℕ) (r : Registry)
    → TasksDistinct r
    → TasksDistinct (reject py tid reason before now wall r)
unfolding reject
reject-TasksDistinct py tid reason before now wall r d =
    let put = set_execution_state tid Execution.aborted (put_last_error reason ∷ []) now wall r in
    let etype = EventType.other (text "recovery_rejected") in
    let from = some (state_text before) in
    let to = some (state_text Execution.aborted) in
    let noted =
      append_event tid (text "recovery") etype from to (some (reason_summary py reason)) none wall
        put in
    request_terminal_wake-TasksDistinct py tid now wall
      (enqueue_notification py tid Kind.failed now wall noted)
      (enqueue_notification-TasksDistinct py tid Kind.failed now wall noted (
        append_event-TasksDistinct tid (text "recovery") etype from to
          (some (reason_summary py reason)) none wall put
          (set_execution_state-TasksDistinct tid Execution.aborted (put_last_error reason) now wall
            r (λ _. refl) (λ _. refl) d)))

pub replay-TasksDistinct :
    (py : Python) (tid : Text) (ids : List Text) (wall : ℕ) (r : Registry)
    → TasksDistinct r
    → TasksDistinct (replay py tid ids wall r)
unfolding replay append_event
replay-TasksDistinct py tid [] wall r d = d
replay-TasksDistinct py tid (id ∷ ids) wall r d =
    replay-TasksDistinct py tid ids wall _ (ground arith)

pub move_leaf-TasksDistinct :
    (tid : Text) (leaf : Option Text) (wall : ℕ) (r : Registry)
    → TasksDistinct r
    → TasksDistinct (move_leaf tid leaf wall r)
move_leaf-TasksDistinct tid none wall r d = d
move_leaf-TasksDistinct tid (some []) wall r d = d
move_leaf-TasksDistinct tid (some (c ∷ s)) wall r d =
    update_task-TasksDistinct tid (put_leaf (c ∷ s)) [] wall r (λ _. refl) d

pub replay_entries-TasksDistinct :
    (py : Python) (tid : Text) (probe : Probe) (wall : ℕ) (r : Registry)
    → TasksDistinct r
    → TasksDistinct (replay_entries py tid probe wall r)
unfolding append_event
replay_entries-TasksDistinct py tid probe wall r d = ground (
  arith,
  move_leaf-TasksDistinct tid probe.leaf wall (replay py tid probe.entries wall r)
      (replay-TasksDistinct py tid probe.entries wall r d),
)

pub note_verifier-TasksDistinct :
    (tid : Text) (argv : Option Text) (wall : ℕ) (r : Registry)
    → TasksDistinct r
    → TasksDistinct (note_verifier tid argv wall r)
unfolding append_event
note_verifier-TasksDistinct tid none wall r d = d
note_verifier-TasksDistinct tid (some argv) wall r d = ground arith

pub apply_state_snapshot-TasksDistinct :
    (py : Python) (digest : Json → Text) (tid : Text) (state : Members) (now wall : ℕ)
    (r : Registry)
    → TasksDistinct r
    → TasksDistinct (apply_state_snapshot py digest tid state now wall r).0
unfolding apply_state_snapshot
apply_state_snapshot-TasksDistinct py digest tid state now wall r d =
    let hash = compute_state_hash digest state in
    let news = is_new_hash hash (get_task tid r) in
    update_task-TasksDistinct tid (put_snapshot py hash state now) (put_news news now ∷ []) wall r
      (λ t. ground arith) d
