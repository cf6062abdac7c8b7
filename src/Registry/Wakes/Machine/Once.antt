-- ===== src/Registry/Wakes/Machine/Once.antt =====
-- At most one wake per task: what holds of a task's wake after any history of calls.
use hermes_pi_manager.Registry.Wakes.{wakes_dispatching, claim_terminal_wake, wakes_pending}
use hermes_pi_manager.Registry.Tasks.Cas.{TasksDistinct}
use hermes_pi_manager.Registry.Rows.{Registry, Task, Wake, accepted, disabled, exhausted, uncertain}
use hermes_pi_manager.Registry.Tasks.{get_task, task_key}
use hermes_pi_manager.Registry.Wakes.Machine.{
  call_wake-TasksDistinct, WakeCall, WakeMove, accepts, begins, call_wake, call_wake-closed,
  call_wakes, call_wakes-TasksDistinct, call_wakes-closed, claims, exhausts, retries, row_call,
  row_call-WakeMove, row_calls, select-call_wake, select-call_wakes, settles,
}
use hermes_pi_manager.Base.{
  suc, ◌&&◌, ◌||◌, ◌∙◌, ℕ, ◌+◌, ◌≤◌, ◌≡◌, refl, Bool, true, false, List, [], ◌∷◌, Option, none,
  some, Text, text_eq, if◌then◌else◌, arith, select, count_where-has_key,
}

-- The wake is over: nothing may dispatch it again.
abbrev pub is_over : Option Wake → Bool
is_over (some accepted) = true
is_over (some disabled) = true
is_over (some uncertain) = true
is_over (some exhausted) = true
is_over _ = false

-- Whether a history marks the wake of a task accepted.
abbrev pub has_accept : Text → List (WakeCall × ℕ) → Bool
has_accept j [] = false
has_accept j ((accepts tid now, wall) ∷ cs) = text_eq j tid || has_accept j cs
has_accept j (_ ∷ cs) = has_accept j cs

abbrev call_accepts : Text → WakeCall → Bool
call_accepts j (accepts tid now) = text_eq j tid
call_accepts j _ = false

-- A wake that is over changes its state only by `mark_wake_accepted`, which has no condition.
abbrev ends_as : Bool → Option Wake → Option Wake
ends_as marked w = if marked then some accepted else w

row_call-ends_as :
    (j : Text) (c : WakeCall) (wall : ℕ) (t : Task)
    → is_over t.wake_state ≡ true
    → ((row_call j c wall t).wake_state ≡ ends_as (call_accepts j c) t.wake_state)
      × ((row_call j c wall t).wake_attempts ≡ t.wake_attempts)
unfolding row_call
row_call-ends_as j (begins tid now) wall t h = ground arith
row_call-ends_as j (claims tid) wall t h = ground arith
row_call-ends_as j (accepts tid now) wall t h = ground arith
row_call-ends_as j (retries tid at error) wall t h = ground arith
row_call-ends_as j (exhausts tid error) wall t h = ground arith
row_call-ends_as j settles wall t h = ground arith

has_accept-cons :
    (j : Text) (c : WakeCall) (wall : ℕ) (cs : List (WakeCall × ℕ))
    → has_accept j ((c, wall) ∷ cs) ≡ (call_accepts j c || has_accept j cs)
has_accept-cons j (begins tid now) wall cs = refl
has_accept-cons j (claims tid) wall cs = refl
has_accept-cons j (accepts tid now) wall cs = refl
has_accept-cons j (retries tid at error) wall cs = refl
has_accept-cons j (exhausts tid error) wall cs = refl
has_accept-cons j settles wall cs = refl

row_calls-ends_as :
    (j : Text) (cs : List (WakeCall × ℕ)) (t : Task)
    → is_over t.wake_state ≡ true
    → ((row_calls j cs t).wake_state ≡ ends_as (has_accept j cs) t.wake_state)
      × ((row_calls j cs t).wake_attempts ≡ t.wake_attempts)
unfolding row_calls
row_calls-ends_as j [] t h = (refl, refl)
row_calls-ends_as j ((c, wall) ∷ cs) t h = ground (
  arith,
  row_call-ends_as j c wall t,
  has_accept-cons j c wall cs,
  row_calls-ends_as j cs (row_call j c wall t),
)

-- Every method moves the wake of every task along the diagram `WakeMove`, in an open registry with
-- one row per task: a wake opens only on a row without one, is dispatched only from pending, goes
-- back to pending or is given up only from dispatching, and its attempts grow, by one, exactly when
-- it is dispatched.
pub call_wake-WakeMove :
    (j : Text) (c : WakeCall) (wall : ℕ) (r : Registry) (t : Task)
    → TasksDistinct r
    → r.closed ≡ false
    → get_task j r ≡ some t
    → (u : Task) × (get_task j (call_wake c wall r) ≡ some u) × WakeMove t u
unfolding get_task
call_wake-WakeMove j c wall r t d up e = (
  row_call j c wall t,
  ground (arith, select-call_wake j c wall r d up, call_wake-closed c wall r),
  row_call-WakeMove j c wall t,
)

-- A wake that is accepted, disabled, uncertain or exhausted keeps its state under every history of
-- calls that does not mark it accepted, and is accepted after one that does, since
-- `mark_wake_accepted` has no condition; either way its attempts do not grow, and a later claim of it
-- is refused.
pub over_absorbs :
    (j : Text) (cs : List (WakeCall × ℕ)) (wall : ℕ) (r : Registry) (t : Task)
    → TasksDistinct r
    → r.closed ≡ false
    → get_task j r ≡ some t
    → is_over t.wake_state ≡ true
    → let r' = call_wakes cs r in
      (u : Task) × (get_task j r' ≡ some u)
      × (u.wake_state ≡ (if has_accept j cs then some accepted else t.wake_state))
      × (u.wake_attempts ≡ t.wake_attempts)
      × ((claim_terminal_wake j wall r').1 ≡ false)
unfolding get_task claim_terminal_wake
over_absorbs j cs wall r t d up e h = (
  row_calls j cs t,
  ground (arith, found, call_wakes-closed cs r),
  (row_calls-ends_as j cs t h).0,
  (row_calls-ends_as j cs t h).1,
  ground (
    arith,
    found,
    row_calls-ends_as j cs t,
    count_where-has_key task_key j wakes_pending (call_wakes cs r).tasks
        (call_wakes-TasksDistinct cs r d),
  ),
)
  where
    found : select task_key j (call_wakes cs r).tasks ≡ some (row_calls j cs t)
    found = select-call_wakes j cs r t d up (ground arith)

-- Whether a call is a retry of a task's wake that is dispatching: only such a one is recorded.
abbrev pub is_recorded : Text → WakeCall → Option Task → Bool
is_recorded j (retries tid at error) (some t) = text_eq j tid && wakes_dispatching t
is_recorded j _ _ = false

-- The retries that a history of calls records for a task.
unfoldable pub recorded_retries : Text → List (WakeCall × ℕ) → Registry → ℕ
recorded_retries j [] r = 0
recorded_retries j ((c, wall) ∷ cs) r =
    let rest = recorded_retries j cs (call_wake c wall r) in
    if is_recorded j c (get_task j r) then suc rest else rest

-- The dispatches that a row still allows: one, for a wake that is pending or not opened.
abbrev budget : Option Wake → ℕ
budget none = 1
budget (some Wake.pending) = 1
budget _ = 0

row_call-budget :
    (j : Text) (c : WakeCall) (wall : ℕ) (t : Task)
    → let u = row_call j c wall t in
      u.wake_attempts + budget u.wake_state
      ≤ t.wake_attempts + budget t.wake_state + (if is_recorded j c (some t) then 1 else 0)
unfolding row_call
row_call-budget j (begins tid now) wall t = ground arith
row_call-budget j (claims tid) wall t = ground arith
row_call-budget j (accepts tid now) wall t = ground arith
row_call-budget j (retries tid at error) wall t = ground arith
row_call-budget j (exhausts tid error) wall t = ground arith
row_call-budget j settles wall t = ground arith

row_calls-budget :
    (j : Text) (cs : List (WakeCall × ℕ)) (r : Registry) (t : Task)
    → TasksDistinct r
    → r.closed ≡ false
    → select task_key j r.tasks ≡ some t
    → (row_calls j cs t).wake_attempts + budget (row_calls j cs t).wake_state
      ≤ t.wake_attempts + budget t.wake_state + recorded_retries j cs r
unfolding row_calls recorded_retries get_task
row_calls-budget j [] r t d up e = omega arith
row_calls-budget j ((c, wall) ∷ cs) r t d up e =
    let next : select task_key j (call_wake c wall r).tasks ≡ some (row_call j c wall t) =
      ground (arith, e, select-call_wake j c wall r d up) in
    ground (
      arith,
      row_call-budget j c wall t,
      row_calls-budget j cs (call_wake c wall r) (row_call j c wall t)
          (call_wake-TasksDistinct c wall r d) (call_wake-closed c wall r ∙ up) next,
    )

-- Whatever the calls and their order, a task whose wake was not opened is dispatched at most once,
-- and once more for each retry that is recorded: a call of `mark_wake_retry` for it while its wake
-- is dispatching. A retry at any other time allows no dispatch.
pub dispatches_bounded :
    (j : Text) (cs : List (WakeCall × ℕ)) (r : Registry) (t : Task)
    → TasksDistinct r
    → r.closed ≡ false
    → get_task j r ≡ some t
    → t.wake_state ≡ none
    → t.wake_attempts ≡ 0
    → (u : Task) × (get_task j (call_wakes cs r) ≡ some u)
      × (u.wake_attempts ≤ 1 + recorded_retries j cs r)
unfolding get_task
dispatches_bounded j cs r t d up e n z = (
  row_calls j cs t,
  ground (arith, call_wakes-closed cs r, select-call_wakes j cs r t d up (ground arith)),
  ground (arith, row_calls-budget j cs r t d up (ground arith)),
)
