-- ===== src/Registry/Wakes/Machine.antt =====
-- The terminal wake as a state machine: any sequence of the wake methods, by any workers.
pub mod Once
use mathlib.Core.Option
use hermes_pi_manager.Base.{
  Option, ◌⊎◌, suc, has_key, ap, none, some, Distinct-update_where, ◌∙◌, ℕ, ◌≡◌, refl, Bool, true,
  false, List, [], ◌∷◌, Text, text_eq, text_eq_iff, if◌then◌else◌, arith, select,
  select-update_where, select-update_all, count_where-has_key,
}
use hermes_pi_manager.Registry.Rows.{
  accepted, uncertain, exhausted, dispatching, disabled, Wake, Task, Registry,
}
use hermes_pi_manager.Registry.Tasks.{task_key}
use hermes_pi_manager.Registry.Tasks.Cas.{TasksDistinct}
use hermes_pi_manager.Registry.Wakes.{
  is_unopened, is_eligible, open_wake, disable_wake, wakes_pending, wakes_dispatching, claim_wake,
  accept_wake, retry_wake, exhaust_wake, doubt_wake, begin_terminal_wake, claim_terminal_wake,
  mark_wake_accepted, mark_wake_retry, mark_wake_exhausted, settle_stale_wake_dispatching,
}

-- A call of one of the methods, with its arguments.
pub data WakeCall : Type 0 where
  begins : Text → ℕ → WakeCall
  claims : Text → WakeCall
  accepts : Text → ℕ → WakeCall
  retries : Text → ℕ → Text → WakeCall
  exhausts : Text → Text → WakeCall
  settles : WakeCall

unfoldable pub call_wake : WakeCall → ℕ → Registry → Registry
call_wake (begins tid now) wall r = (begin_terminal_wake tid now wall r).0
call_wake (claims tid) wall r = (claim_terminal_wake tid wall r).0
call_wake (accepts tid now) wall r = mark_wake_accepted tid now wall r
call_wake (retries tid at error) wall r = mark_wake_retry tid at error wall r
call_wake (exhausts tid error) wall r = mark_wake_exhausted tid error wall r
call_wake settles wall r = (settle_stale_wake_dispatching wall r).0

unfoldable pub call_wakes : List (WakeCall × ℕ) → Registry → Registry
call_wakes [] r = r
call_wakes ((c, wall) ∷ cs) r = call_wakes cs (call_wake c wall r)

-- What a call does to the row of task `j`.
abbrev on_key : Text → Text → (Task → Bool) → (Task → Task) → Task → Task
on_key j tid c f t = if text_eq j tid then (if c t then f t else t) else t

abbrev row_begin : ℕ → ℕ → Task → Task
row_begin now wall t =
    if is_eligible t then open_wake now wall t else if is_unopened t then disable_wake wall t else t

pub row_call : Text → WakeCall → ℕ → Task → Task
row_call j (begins tid now) wall t = if text_eq j tid then row_begin now wall t else t
row_call j (claims tid) wall t = on_key j tid wakes_pending (claim_wake wall) t
row_call j (accepts tid now) wall t = on_key j tid (λ _. true) (accept_wake now wall) t
row_call j (retries tid at error) wall t =
    on_key j tid wakes_dispatching (retry_wake at error wall) t
row_call j (exhausts tid error) wall t = on_key j tid wakes_dispatching (exhaust_wake error wall) t
row_call j settles wall t = if wakes_dispatching t then doubt_wake wall t else t

select-begin :
    (j tid : Text) (now wall : ℕ) (r : Registry)
    → TasksDistinct r
    → r.closed ≡ false
    → select task_key j (begin_terminal_wake tid now wall r).0.tasks
      ≡ Option.map (row_call j (begins tid now) wall) (select task_key j r.tasks)
unfolding begin_terminal_wake row_call
select-begin j tid now wall r d up = ground (
  arith,
  text_eq_iff j tid,
  count_where-has_key task_key tid is_eligible r.tasks d,
  count_where-has_key task_key tid is_unopened r.tasks d,
  select-update_where task_key j tid is_eligible (open_wake now wall) r.tasks (λ _. refl),
  select-update_where task_key j tid is_unopened (disable_wake wall) r.tasks (λ _. refl),
)

-- Each method acts on a row by itself.
pub select-call_wake :
    (j : Text) (c : WakeCall) (wall : ℕ) (r : Registry)
    → TasksDistinct r
    → r.closed ≡ false
    → select task_key j (call_wake c wall r).tasks
      ≡ Option.map (row_call j c wall) (select task_key j r.tasks)
unfolding call_wake claim_terminal_wake mark_wake_accepted mark_wake_retry mark_wake_exhausted
    settle_stale_wake_dispatching row_call
select-call_wake j (begins tid now) wall r d up = select-begin j tid now wall r d up
select-call_wake j (claims tid) wall r d up =
    ground (
      arith,
      select-update_where task_key j tid wakes_pending (claim_wake wall) r.tasks (λ _. refl),
    )
select-call_wake j (accepts tid now) wall r d up = ground (
  arith,
  select-update_where task_key j tid (λ _. true) (accept_wake now wall) r.tasks (λ _. refl),
)
select-call_wake j (retries tid at error) wall r d up = ground (
  arith,
  select-update_where task_key j tid wakes_dispatching (retry_wake at error wall) r.tasks
      (λ _. refl),
)
select-call_wake j (exhausts tid error) wall r d up = ground (
  arith,
  select-update_where task_key j tid wakes_dispatching (exhaust_wake error wall) r.tasks
      (λ _. refl),
)
select-call_wake j settles wall r d up =
    ground
      (arith, select-update_all task_key j wakes_dispatching (doubt_wake wall) r.tasks (λ _. refl))

pub call_wake-closed :
    (c : WakeCall) (wall : ℕ) (r : Registry) → (call_wake c wall r).closed ≡ r.closed
unfolding call_wake begin_terminal_wake claim_terminal_wake mark_wake_accepted mark_wake_retry
    mark_wake_exhausted settle_stale_wake_dispatching
call_wake-closed (begins tid now) wall r = ground arith
call_wake-closed (claims tid) wall r = ground arith
call_wake-closed (accepts tid now) wall r = ground arith
call_wake-closed (retries tid at error) wall r = ground arith
call_wake-closed (exhausts tid error) wall r = ground arith
call_wake-closed settles wall r = ground arith

pub call_wake-TasksDistinct :
    (c : WakeCall) (wall : ℕ) (r : Registry) → TasksDistinct r → TasksDistinct (call_wake c wall r)
unfolding call_wake begin_terminal_wake claim_terminal_wake mark_wake_accepted mark_wake_retry
    mark_wake_exhausted settle_stale_wake_dispatching
call_wake-TasksDistinct (begins tid now) wall r d = ground (
  arith,
  Distinct-update_where task_key (has_key task_key tid is_eligible) (open_wake now wall) r.tasks
      (λ _. refl) d,
  Distinct-update_where task_key (has_key task_key tid is_unopened) (disable_wake wall) r.tasks
      (λ _. refl) d,
)
call_wake-TasksDistinct (claims tid) wall r d = ground (
  arith,
  Distinct-update_where task_key (has_key task_key tid wakes_pending) (claim_wake wall) r.tasks
      (λ _. refl) d,
)
call_wake-TasksDistinct (accepts tid now) wall r d = ground (
  arith,
  Distinct-update_where task_key (has_key task_key tid (λ _. true)) (accept_wake now wall) r.tasks
      (λ _. refl) d,
)
call_wake-TasksDistinct (retries tid at error) wall r d = ground (
  arith,
  Distinct-update_where task_key (has_key task_key tid wakes_dispatching) (retry_wake at error wall)
      r.tasks (λ _. refl) d,
)
call_wake-TasksDistinct (exhausts tid error) wall r d = ground (
  arith,
  Distinct-update_where task_key (has_key task_key tid wakes_dispatching) (exhaust_wake error wall)
      r.tasks (λ _. refl) d,
)
call_wake-TasksDistinct settles wall r d = ground (
  arith,
  Distinct-update_where task_key wakes_dispatching (doubt_wake wall) r.tasks (λ _. refl) d,
)

pub row_calls : Text → List (WakeCall × ℕ) → Task → Task
row_calls j [] t = t
row_calls j ((c, wall) ∷ cs) t = row_calls j cs (row_call j c wall t)

-- A history of calls acts on a row by itself.
pub select-call_wakes :
    (j : Text) (cs : List (WakeCall × ℕ)) (r : Registry) (t : Task)
    → TasksDistinct r
    → r.closed ≡ false
    → select task_key j r.tasks ≡ some t
    → select task_key j (call_wakes cs r).tasks ≡ some (row_calls j cs t)
unfolding call_wakes row_calls
select-call_wakes j [] r t d up e = e
select-call_wakes j ((c, wall) ∷ cs) r t d up e =
    select-call_wakes j cs (call_wake c wall r) (row_call j c wall t)
      (call_wake-TasksDistinct c wall r d) (call_wake-closed c wall r ∙ up)
      (select-call_wake j c wall r d up ∙ ap (Option.map (row_call j c wall)) e)

pub call_wakes-closed :
    (cs : List (WakeCall × ℕ)) (r : Registry) → (call_wakes cs r).closed ≡ r.closed
unfolding call_wakes
call_wakes-closed [] r = refl
call_wakes-closed ((c, wall) ∷ cs) r =
    call_wakes-closed cs (call_wake c wall r) ∙ call_wake-closed c wall r

pub call_wakes-TasksDistinct :
    (cs : List (WakeCall × ℕ)) (r : Registry) → TasksDistinct r → TasksDistinct (call_wakes cs r)
unfolding call_wakes
call_wakes-TasksDistinct [] r d = d
call_wakes-TasksDistinct ((c, wall) ∷ cs) r d =
    call_wakes-TasksDistinct cs (call_wake c wall r) (call_wake-TasksDistinct c wall r d)

-- The diagram of a row's wake state.
pub data WakeMove (t u : Task) : Type 0 where
  stay : u.wake_state ≡ t.wake_state → u.wake_attempts ≡ t.wake_attempts → WakeMove t u
  enable :
      t.wake_state ≡ none
      → t.continuation_enabled ≡ true
      → u.wake_state ≡ some Wake.pending
      → u.wake_attempts ≡ t.wake_attempts
      → WakeMove t u
  disable :
      t.wake_state ≡ none
      → t.continuation_enabled ≡ false
      → u.wake_state ≡ some disabled
      → u.wake_attempts ≡ t.wake_attempts
      → WakeMove t u
  dispatch :
      t.wake_state ≡ some Wake.pending
      → u.wake_state ≡ some dispatching
      → u.wake_attempts ≡ suc t.wake_attempts
      → WakeMove t u
  back_out :
      t.wake_state ≡ some dispatching
      → u.wake_state ≡ some Wake.pending
      → u.wake_attempts ≡ t.wake_attempts
      → WakeMove t u
  give_up :
      t.wake_state ≡ some dispatching
      → (u.wake_state ≡ some exhausted) ⊎ (u.wake_state ≡ some uncertain)
      → u.wake_attempts ≡ t.wake_attempts
      → WakeMove t u
  accept : u.wake_state ≡ some accepted → u.wake_attempts ≡ t.wake_attempts → WakeMove t u

pub row_call-WakeMove :
    (j : Text) (c : WakeCall) (wall : ℕ) (t : Task) → WakeMove t (row_call j c wall t)
unfolding row_call
row_call-WakeMove j (begins tid now) wall t = ground arith
row_call-WakeMove j (claims tid) wall t = ground arith
row_call-WakeMove j (accepts tid now) wall t = ground arith
row_call-WakeMove j (retries tid at error) wall t = ground arith
row_call-WakeMove j (exhausts tid error) wall t = ground arith
row_call-WakeMove j settles wall t = ground arith
