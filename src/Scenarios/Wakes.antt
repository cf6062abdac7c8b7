-- ===== src/Scenarios/Wakes.antt =====
-- Examples of the theorems on the terminal wake.

use hermes_pi_manager.Base.Json.{Json}
use hermes_pi_manager.Registry.Wakes.{claim_terminal_wake}
use hermes_pi_manager.Registry.Rows.{accepted, Task, Wake, dispatching, uncertain}
use hermes_pi_manager.Registry.Tasks.{get_task}
use hermes_pi_manager.WakeWorker.{Injection, answered, default_config, dispatch_one}
use hermes_pi_manager.Scenarios.{
  blank, reg1, t1, task1, with_task, with_task-TasksDistinct, with_task-row,
}
use hermes_pi_manager.Registry.Wakes.Machine.Once.{
  has_accept, call_wake-WakeMove, dispatches_bounded, over_absorbs, recorded_retries,
}
use hermes_pi_manager.WakeWorker.Passes.{WithinBudget, attempt, dispatch_outcome}
use hermes_pi_manager.Base.{
  List, Option, Text, [], arith, false, if◌then◌else◌, refl, some, text, text_eq, true, ℕ, ◌+◌, ◌∷◌,
  ◌≡◌, ◌≢◌, ◌≤◌,
}
use hermes_pi_manager.Registry.Wakes.Machine.{
  accepts, WakeMove, call_wake, WakeCall, begins, call_wakes, claims, retries,
}

abbrev pending_task : Task
pending_task = record task1 { wake_state = some Wake.pending; wake_requested_at = some 2000 }

abbrev over_task : Task
over_task = record task1 { wake_state = some uncertain; wake_attempts = 1 }

abbrev calls : List (WakeCall × ℕ)
calls =
    (begins t1 2000, 2000)
    ∷ (claims t1, 3000)
    ∷ (retries t1 9000 (text "no"), 3000)
    ∷ (claims t1, 9000)
    ∷ []

dispatches_bounded_example :
    (u : Task) × (get_task t1 (call_wakes calls reg1) ≡ some u)
    × (u.wake_attempts ≤ 1 + recorded_retries t1 calls reg1)
dispatches_bounded_example =
    dispatches_bounded t1 calls reg1 task1 (with_task-TasksDistinct task1) refl
      (with_task-row task1) refl refl

-- A late acceptance among other calls.
abbrev late_calls : List (WakeCall × ℕ)
late_calls = (accepts t1 2500, 2500) ∷ calls

over_absorbs_example :
    let r' = call_wakes late_calls (with_task over_task) in
    (u : Task) × (get_task t1 r' ≡ some u)
    × (u.wake_state ≡ (if has_accept t1 late_calls then some accepted else over_task.wake_state))
    × (u.wake_attempts ≡ over_task.wake_attempts)
    × ((claim_terminal_wake t1 9000 r').1 ≡ false)
over_absorbs_example =
    over_absorbs t1 late_calls 9000 (with_task over_task) over_task
      (with_task-TasksDistinct over_task) refl (with_task-row over_task) refl

abbrev refuse : Text → Option Json → Injection
refuse message key = answered false

dispatch_outcome_example :
    let t = pending_task in
    let r = with_task pending_task in
    let (claimed, won) = claim_terminal_wake t1 3000 r in
    let after = dispatch_one blank refuse default_config 3000 3000 t claimed in
    let t' = attempt blank refuse default_config 3000 3000 t in
    (won ≡ true)
    × (get_task t1 after ≡ (if text_eq t1 t1 then some t' else get_task t1 r))
    × (t'.wake_attempts ≡ t.wake_attempts + 1)
    × WithinBudget 5 t'
    × (t'.wake_state ≢ some dispatching)
dispatch_outcome_example =
    dispatch_outcome blank refuse default_config 3000 3000 t1 pending_task pending_task
      (with_task pending_task) (with_task-TasksDistinct pending_task) refl
      (with_task-row pending_task) refl refl (omega arith)

call_wake-WakeMove_example :
    (u : Task) × (get_task t1 (call_wake (claims t1) 3000 (with_task pending_task)) ≡ some u)
    × WakeMove pending_task u
call_wake-WakeMove_example =
    call_wake-WakeMove t1 (claims t1) 3000 (with_task pending_task) pending_task
      (with_task-TasksDistinct pending_task) refl (with_task-row pending_task)
