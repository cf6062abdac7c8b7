-- ===== src/Manager/Verifier/Outcome.antt =====
-- What a run of the verifier changes, and when a task counts as DONE.
use hermes_pi_manager.Manager.State.Reads.{get_task-append_event}
use hermes_pi_manager.Base.Json.{Python}
use hermes_pi_manager.Registry.Events.{append_event}
use hermes_pi_manager.Messages.{verification_text}
use hermes_pi_manager.Registry.Tasks.Cas.{get_task-update_task}
use hermes_pi_manager.Registry.Tasks.{same_exec, bound_text, get_task, update_task}
use hermes_pi_manager.Base.Int.{negsuc, pos, ℤ}
use hermes_pi_manager.Manager.State.{VerifierSpec, derived_state, done, gate_unrunnable, plain}
use hermes_pi_manager.Base.{
  get_or, text_eq_iff, ◌&&◌, Bool, true, List, Option, Text, [], arith, false, if◌then◌else◌, none,
  refl, some, suc, text, text_eq, zero, ℕ, ◌↔◌, ◌∷◌, ◌≡◌, ◌⊎◌,
}
use hermes_pi_manager.Manager.Verifier.{
  put_summary, put_verification, verified, Run, Summary, compact_verifier_verdict, exited,
  outcome_of, run_verifier_now, summary_of, timed_out, unstarted, warn_on_repeat,
}
use hermes_pi_manager.Registry.Rows.{EventType, Execution, Registry, Task, Verification}
use mathlib.Core.Option

-- What the command returned, if it ran to its end.
abbrev pub exit_of : Run → Option ℤ
exit_of (exited rc out err) = some rc
exit_of _ = none

abbrev pub is_timeout : Run → Bool
is_timeout (timed_out exc) = true
is_timeout _ = false

abbrev pub HasExit : Run → ℕ → Type 0
HasExit run n = exit_of run ≡ some (pos n)

-- A SETTLED task with the outcome of a run is DONE exactly when the command returned 0, and its gate
-- is unrunnable exactly when it returned 126 or 127 or timed out.
-- In every other state of the task the derived state is the execution state.
derived_of_outcome :
    (run : Run) (s : Execution)
    → ((derived_state Execution.settled (outcome_of run) ≡ done) ↔ HasExit run 0)
      × ((derived_state Execution.settled (outcome_of run) ≡ gate_unrunnable)
          ↔ (HasExit run 126 ⊎ (HasExit run 127 ⊎ (is_timeout run ≡ true))))
      × (derived_state s (outcome_of run) ≡ (
          if same_exec s Execution.settled
          then derived_state Execution.settled (outcome_of run)
          else plain s))
unfolding derived_state outcome_of
derived_of_outcome (exited (pos zero) out err) s = ground arith
derived_of_outcome (exited (pos (suc n)) out err) s = ground arith
derived_of_outcome (exited (negsuc n) out err) s = ground arith
derived_of_outcome (timed_out exc) s = ground arith
derived_of_outcome (unstarted exc) s = ground arith

get_task-warn_on_repeat :
    (py : Python) (describe : List Task → Text) (j tid : Text) (spec : VerifierSpec) (row : Task)
    (wall : ℕ) (r : Registry)
    → get_task j (warn_on_repeat py describe tid spec row wall r) ≡ get_task j r
unfolding warn_on_repeat get_task append_event
get_task-warn_on_repeat py describe j tid spec row wall r = ground arith

-- The row of a task after the run.
abbrev pub verified_row : Python → Run → ℕ → Task → Task
verified_row py run wall t = record t {
  verification_state = outcome_of run;
  verifier_summary = some (bound_text (compact_verifier_verdict py (summary_of run)) 400);
  updated_at = some wall;
}

module _ (py : Python) (describe : List Task → Text) (dump : Summary → Text) where
  pub get_task-verified :
      (j tid : Text) (spec : VerifierSpec) (run : Run) (row : Task) (wall : ℕ) (r : Registry)
      → get_task j (verified py describe dump tid spec run row wall r) ≡ (
          if text_eq j tid
          then Option.map (verified_row py run wall) (get_task j r)
          else get_task j r)
  get_task-verified j tid spec run row wall r =
      let outcome = outcome_of run in
      let opened = update_task tid (put_verification Verification.pending ∷ []) wall r in
      let summary = put_summary (compact_verifier_verdict py (summary_of run)) in
      let recorded = update_task tid (put_verification outcome ∷ summary ∷ []) wall opened in
      let noted =
        append_event tid (text "verifier") (EventType.other (text "verifier_run"))
          (some (verification_text Verification.pending)) (some (verification_text outcome))
          (some (dump (summary_of run))) none wall recorded in
      ground (
        arith,
        get_task-warn_on_repeat py describe j tid spec row wall noted,
        get_task-append_event j tid (text "verifier") (EventType.other (text "verifier_run"))
            (some (verification_text Verification.pending)) (some (verification_text outcome))
            (some (dump (summary_of run))) none wall recorded,
        get_task-update_task j tid (put_verification outcome) (summary ∷ []) wall opened
            (λ _. refl),
        get_task-update_task j tid (put_verification Verification.pending) [] wall r (λ _. refl),
      )

  -- The verifier is refused for a task that is not SETTLED, and changes nothing then. For a SETTLED
  -- one it returns the outcome of the command and writes it and the verdict to the task's row, whose
  -- execution state and other columns but `updated_at` stay as they are; no other task changes.
  pub run_verifier_now_lem :
      (j tid : Text) (spec : VerifierSpec) (run : Run) (wall : ℕ) (r : Registry) (row : Task)
      → get_task tid r ≡ some row
      → let result = run_verifier_now py describe dump tid spec run wall r in
        let settles = same_exec row.execution_state Execution.settled in
        (Option.map (λ x. x.1) result ≡ (if settles then some (outcome_of run) else none))
        × (get_task j (get_or (Option.map (λ x. x.0) result) r) ≡ (
            if settles && text_eq j tid then some (verified_row py run wall row) else get_task j r))
  unfolding run_verifier_now
  run_verifier_now_lem j tid spec run wall r row e =
      ground (arith, text_eq_iff j tid, get_task-verified j tid spec run row wall r)
