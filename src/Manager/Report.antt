-- ===== src/Manager/Report.antt =====
-- core.py: `status`, without the columns that it passes on as they are.

use hermes_pi_manager.Registry.Tasks.{get_task}
use hermes_pi_manager.Manager.State.{Derived, derived_state}
use hermes_pi_manager.Registry.Rows.{Execution, Registry, Task, Verification, is_final}
use hermes_pi_manager.Base.{
  Bool, Option, Text, arith, false, if◌then◌else◌, ltb, none, or_time, some, true, ℕ, ◌-◌, ◌||◌,
  ◌≡◌,
}
use mathlib.Core.Option

pub record Report : Type 0 where
  pub execution_state : Execution
  pub verification_state : Verification
  pub state : Derived
  pub runtime : ℕ
  pub last_progress_age : ℕ

-- `a or b or c` on time stamps.
abbrev ended_at : ℕ → Task → ℕ
ended_at now t =
    if is_final t.execution_state then or_time t.settled_at (or_time t.last_event_at now) else now

-- `max(a - b, 0)`, as the subtraction on natural numbers is.
abbrev report_of : ℕ → Task → Report
report_of now t =
    let started_at = or_time t.started_at now in
    let last_progress_at = or_time t.last_progress_at started_at in
    record {
      execution_state = t.execution_state;
      verification_state = t.verification_state;
      state = derived_state t.execution_state t.verification_state;
      runtime = ended_at now t - started_at;
      last_progress_age = ended_at now t - last_progress_at;
    }

-- `none` is the KeyError.
unfoldable pub status : Text → ℕ → Registry → Option Report
status tid now r = Option.map (report_of now) (get_task tid r)

abbrev pub has_time : Option ℕ → Bool
has_time none = false
has_time (some t) = ltb 0 t

-- The report on a task in a final state is the same at all times, as long as its row has the time
-- of its start and that of its settlement or its last event.
pub status_frozen :
    (tid : Text) (now later : ℕ) (r : Registry) (t : Task)
    → get_task tid r ≡ some t
    → is_final t.execution_state ≡ true
    → has_time t.started_at ≡ true
    → has_time t.settled_at || has_time t.last_event_at ≡ true
    → status tid now r ≡ status tid later r
unfolding status
status_frozen tid now later r t e f s h = ground arith
