-- ===== src/WakeWorker/Passes.antt =====
-- What passes of the wake worker do to a task's wake: the budget of dispatches, and no dispatch left
-- open.
use hermes_pi_manager.Registry.Tasks.Cas.{TasksDistinct}
use hermes_pi_manager.Registry.Events.{append_event}
use hermes_pi_manager.Base.Json.{Json, Python}
use hermes_pi_manager.Registry.Tasks.{get_task, task_key}
use hermes_pi_manager.Messages.{format_terminal_wake_message}
use hermes_pi_manager.Registry.Wakes.{
  claim_terminal_wake, accept_wake, claim_wake, exhaust_wake, mark_wake_accepted,
  mark_wake_exhausted, mark_wake_retry, retry_wake, wakes_dispatching, wakes_pending,
}
use hermes_pi_manager.WakeWorker.{
  dispatch_one, Injection, WakeConfig, backoff_at, injection_error, record_injection,
  session_key_of,
}
use hermes_pi_manager.Registry.Rows.{Registry, Task, Wake, dispatching}
use hermes_pi_manager.Base.{
  Distinct-update_where, count_where-has_key, has_key, ◌≢◌, Option, Text, arith, false,
  if◌then◌else◌, length, ltb, none, refl, select, select-update_where, some, text_eq, text_eq_iff,
  true, ℕ, ◌+◌, ◌-◌, ◌<◌, ◌==◌, ◌≡◌, ◌≤◌,
}

-- The wake of a row, where at most `max` attempts are made, and a pending one has some left.
abbrev pub WithinBudget : ℕ → Task → Type 0
WithinBudget top t =
    (t.wake_attempts ≤ top)
    × (t.wake_state ≡ none → t.wake_attempts < top)
    × (t.wake_state ≡ some Wake.pending → t.wake_attempts < top)

module _ (py : Python) (inject : Text → Option Json → Injection) (cfg : WakeConfig)
    (now wall : ℕ) where
  abbrev pub recorded : Option Text → Task → Task
  recorded none t = accept_wake now wall t
  recorded (some error) t =
      let attempts = t.wake_attempts in
      let delay =
        backoff_at cfg.retry_backoff
          (if attempts == 0 then length cfg.retry_backoff else attempts - 1) in
      if ltb attempts cfg.max_attempts
      then retry_wake (now + delay) error wall t
      else exhaust_wake error wall t

  abbrev pub answer_to : Task → Option Text
  answer_to t =
      injection_error
        (inject (format_terminal_wake_message t.task_id t) (session_key_of py t.origin))

  -- A claim and the dispatch after it, on the row.
  abbrev pub attempt : Task → Task
  attempt t =
      if wakes_pending t then recorded (answer_to (claim_wake wall t)) (claim_wake wall t) else t

  select-record :
      (j tid : Text) (fresh : Task) (error : Option Text) (r : Registry)
      → TasksDistinct r
      → r.closed ≡ false
      → select task_key tid r.tasks ≡ some fresh
      → fresh.wake_state ≡ some dispatching
      → select task_key j (record_injection py cfg tid fresh error now wall r).tasks
        ≡ (if text_eq j tid then some (recorded error fresh) else select task_key j r.tasks)
  unfolding record_injection append_event mark_wake_accepted mark_wake_retry mark_wake_exhausted
  select-record j tid fresh none r d up e s = ground (
    arith,
    text_eq_iff j tid,
    select-update_where task_key j tid (λ _. true) (accept_wake now wall) r.tasks (λ _. refl),
  )
  select-record j tid fresh (some error) r d up e s =
      let attempts = fresh.wake_attempts in
      let delay =
        backoff_at cfg.retry_backoff
          (if attempts == 0 then length cfg.retry_backoff else attempts - 1) in
      ground (
        arith,
        text_eq_iff j tid,
        select-update_where task_key j tid wakes_dispatching (retry_wake (now + delay) error wall)
            r.tasks (λ _. refl),
        select-update_where task_key j tid wakes_dispatching (exhaust_wake error wall) r.tasks
            (λ _. refl),
      )

  record_injection-closed :
      (tid : Text) (fresh : Task) (error : Option Text) (r : Registry)
      → (record_injection py cfg tid fresh error now wall r).closed ≡ r.closed
  unfolding record_injection append_event mark_wake_accepted mark_wake_retry mark_wake_exhausted
  record_injection-closed tid fresh none r = ground arith
  record_injection-closed tid fresh (some error) r = ground arith

  recorded-WithinBudget :
      (error : Option Text) (t : Task)
      → t.wake_attempts < cfg.max_attempts
      → let t' = recorded error (claim_wake wall t) in
        WithinBudget cfg.max_attempts t'
        × ((t'.wake_state ≢ some dispatching) × (t'.wake_attempts ≡ t.wake_attempts + 1))
  recorded-WithinBudget none t b = ground arith
  recorded-WithinBudget (some error) t b = ground arith

  -- A pending wake with attempts left, in an open registry, is won by a claim and dispatched once: the
  -- attempt is counted, and afterwards the wake is accepted, or pending again with its next attempt
  -- after the backoff, or exhausted. It is never left dispatching and stays within the budget of
  -- attempts; no other row changes.
  pub dispatch_outcome :
      (j : Text) (row t : Task) (r : Registry)
      → TasksDistinct r
      → r.closed ≡ false
      → get_task row.task_id r ≡ some t
      → t.task_id ≡ row.task_id
      → wakes_pending t ≡ true
      → t.wake_attempts < cfg.max_attempts
      → let (claimed, won) = claim_terminal_wake row.task_id wall r in
        let after = dispatch_one py inject cfg now wall row claimed in
        (won ≡ true)
        × (get_task j after ≡ (if text_eq j row.task_id then some (attempt t) else get_task j r))
        × ((attempt t).wake_attempts ≡ t.wake_attempts + 1)
        × WithinBudget cfg.max_attempts (attempt t)
        × ((attempt t).wake_state ≢ some dispatching)
  unfolding claim_terminal_wake dispatch_one get_task
  dispatch_outcome j row t r d up e k p b =
      let tid = row.task_id in
      let (claimed, won) = claim_terminal_wake tid wall r in
      let mine = claim_wake wall t in
      let sel : select task_key tid claimed.tasks ≡ some mine = ground (
        arith,
        text_eq_iff tid tid,
        select-update_where task_key tid tid wakes_pending (claim_wake wall) r.tasks (λ _. refl),
      ) in
      let keys : TasksDistinct claimed = ground (
        arith,
        Distinct-update_where task_key (has_key task_key tid wakes_pending) (claim_wake wall)
            r.tasks (λ _. refl) d,
      ) in
      let error = answer_to mine in
      let same : dispatch_one py inject cfg now wall row claimed
          ≡ record_injection py cfg tid mine error now wall claimed =
        ground (arith, sel) in
      let rows = select-record j tid mine error claimed keys (ground arith) sel refl in
      let (b', w) = recorded-WithinBudget error t b in
      (
        ground (arith, count_where-has_key task_key tid wakes_pending r.tasks d),
        ground (
          arith,
          text_eq_iff j tid,
          rows,
          record_injection-closed tid mine error claimed,
          select-update_where task_key j tid wakes_pending (claim_wake wall) r.tasks (λ _. refl),
        ),
        ground arith,
        ground arith,
        ground arith,
      )
