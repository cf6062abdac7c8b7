-- ===== src/Registry/Wakes.antt =====
-- registry_db.py: the terminal continuation wake, one per task, on the task's row.
pub mod Machine
use hermes_pi_manager.Base.{
  ℕ, ◌+◌, Bool, true, false, ◌&&◌, ◌||◌, List, [], map, Option, none, some, Text, text, text_ltb,
  ltb, ◌==◌, if◌then◌else◌, take, keep, is_none, select, update_where, count_where, has_key,
  sort_by,
}
use hermes_pi_manager.Registry.Rows.{
  Wake, Task, Registry, dispatching, accepted, disabled, uncertain, exhausted,
}
use hermes_pi_manager.Registry.Tasks.{task_key, bound, max_summary_chars, max_error_chars}
use hermes_pi_manager.Registry.Notifications.{null_or_le}

abbrev pub is_dispatching : Option Wake → Bool
is_dispatching (some dispatching) = true
is_dispatching _ = false

abbrev pub is_pending : Option Wake → Bool
is_pending (some Wake.pending) = true
is_pending _ = false

-- UPDATE tasks SET … WHERE task_id = ? AND the condition.
abbrev pub set_wake : Text → (Task → Bool) → (Task → Task) → Registry → Registry
set_wake tid c f r = record r { tasks = update_where (has_key task_key tid c) f r.tasks }

abbrev pub is_unopened : Task → Bool
is_unopened t = is_none t.wake_state

abbrev pub is_eligible : Task → Bool
is_eligible t = is_unopened t && t.continuation_enabled

abbrev pub open_wake : ℕ → ℕ → Task → Task
open_wake now wall t = record t {
  wake_state = some Wake.pending;
  wake_requested_at = some now;
  updated_at = some wall;
}

abbrev pub disable_wake : ℕ → Task → Task
disable_wake wall t = record t { wake_state = some disabled; updated_at = some wall }

-- The state that `begin_terminal_wake` finds; `none` is the empty string, for a missing row too.
abbrev pub found_wake : Option Task → Option Wake
found_wake none = none
found_wake (some t) = t.wake_state

unfoldable pub begin_terminal_wake : Text → ℕ → ℕ → Registry → Registry × Option Wake
begin_terminal_wake tid now wall r =
    if r.closed
    then (r, none)
    else if ltb 0 (count_where (has_key task_key tid is_eligible) r.tasks)
    then (set_wake tid is_eligible (open_wake now wall) r, some Wake.pending)
    else if ltb 0 (count_where (has_key task_key tid is_unopened) r.tasks)
    then (set_wake tid is_unopened (disable_wake wall) r, some disabled)
    else (r, found_wake (select task_key tid r.tasks))

abbrev pub is_wake_due : ℕ → Task → Bool
is_wake_due now t =
    is_pending t.wake_state && (t.continuation_enabled && null_or_le t.wake_requested_at now)

-- ORDER BY wake_requested_at, task_id, with NULL first.
abbrev requested_before : Option ℕ → Option ℕ → Text → Text → Bool
requested_before none none a b = text_ltb a b
requested_before none (some _) a b = true
requested_before (some _) none a b = false
requested_before (some s) (some t) a b = ltb s t || ((s == t) && text_ltb a b)

abbrev pub wake_before : Task → Task → Bool
wake_before a b = requested_before a.wake_requested_at b.wake_requested_at a.task_id b.task_id

unfoldable pub list_wake_pending : ℕ → ℕ → Registry → List Task
list_wake_pending now limit r =
    if r.closed then [] else take limit (sort_by wake_before (keep (is_wake_due now) r.tasks))

abbrev pub wakes_pending : Task → Bool
wakes_pending t = is_pending t.wake_state

abbrev pub wakes_dispatching : Task → Bool
wakes_dispatching t = is_dispatching t.wake_state

abbrev pub claim_wake : ℕ → Task → Task
claim_wake wall t = record t {
  wake_state = some dispatching;
  wake_attempts = t.wake_attempts + 1;
  updated_at = some wall;
}

unfoldable pub claim_terminal_wake : Text → ℕ → Registry → Registry × Bool
claim_terminal_wake tid wall r = if r.closed then (r, false) else (
  set_wake tid wakes_pending (claim_wake wall) r,
  ltb 0 (count_where (has_key task_key tid wakes_pending) r.tasks),
)

abbrev pub accept_wake : ℕ → ℕ → Task → Task
accept_wake now wall t = record t {
  wake_state = some accepted;
  wake_accepted_at = some now;
  wake_last_error = none;
  updated_at = some wall;
}

-- There is no condition on the wake's state here.
unfoldable pub mark_wake_accepted : Text → ℕ → ℕ → Registry → Registry
mark_wake_accepted tid now wall r =
    if r.closed then r else set_wake tid (λ _. true) (accept_wake now wall) r

abbrev pub retry_wake : ℕ → Text → ℕ → Task → Task
retry_wake next_retry error wall t = record t {
  wake_state = some Wake.pending;
  wake_requested_at = some next_retry;
  wake_last_error = bound (some error) max_error_chars;
  updated_at = some wall;
}

unfoldable pub mark_wake_retry : Text → ℕ → Text → ℕ → Registry → Registry
mark_wake_retry tid next_retry error wall r =
    if r.closed then r else set_wake tid wakes_dispatching (retry_wake next_retry error wall) r

abbrev pub exhaust_wake : Text → ℕ → Task → Task
exhaust_wake error wall t = record t {
  wake_state = some exhausted;
  wake_last_error = bound (some error) max_error_chars;
  updated_at = some wall;
}

unfoldable pub mark_wake_exhausted : Text → Text → ℕ → Registry → Registry
mark_wake_exhausted tid error wall r =
    if r.closed then r else set_wake tid wakes_dispatching (exhaust_wake error wall) r

abbrev pub doubt_wake : ℕ → Task → Task
doubt_wake wall t = record t {
  wake_state = some uncertain;
  wake_last_error =
      bound
        (some (
          text
            "worker died between claim and acceptance; not retried (the gateway may have already accepted the injection)"))
        max_summary_chars;
  updated_at = some wall;
}

unfoldable pub settle_stale_wake_dispatching : ℕ → Registry → Registry × List Text
settle_stale_wake_dispatching wall r = if r.closed then (r, []) else (
  record r { tasks = update_where wakes_dispatching (doubt_wake wall) r.tasks },
  map task_key (keep wakes_dispatching r.tasks),
)
