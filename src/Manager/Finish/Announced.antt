-- ===== src/Manager/Finish/Announced.antt =====
-- The end of a settled task always announces it, and opens its wake.
use hermes_pi_manager.Registry.Tasks.{same_exec, get_task, update_task}
use hermes_pi_manager.Manager.Verifier.Outcome.{verified_row, run_verifier_now_lem}
use hermes_pi_manager.Registry.Rows.{Execution, EventType, Registry, Task, Verification}
use hermes_pi_manager.Manager.State.Reads.{get_task-append_event}
use hermes_pi_manager.Base.Json.{Python}
use hermes_pi_manager.Manager.Settlement.Late.{notify_done_wakes, opened_wake, wake_of}
use hermes_pi_manager.Manager.State.{Manager, Runtime, VerifierSpec, rt_of, state_of}
use hermes_pi_manager.Manager.Finish.{put_lsp, run_gate_of, run_lsp_check, run_verifier}
use hermes_pi_manager.Registry.Tasks.Cas.{
  TasksDistinct, get_task-update_task, update_task-TasksDistinct, updated,
}
use hermes_pi_manager.Messages.{verification_text}
use hermes_pi_manager.Base.{
  Bool-cases, List, Option, Option-cases, Text, [], arith, inl, inr, none, refl, some, text,
  text_eq_iff, ℕ, ◌∷◌, ◌≡◌,
}
use hermes_pi_manager.Manager.Verifier.{
  Run, Summary, compact_verifier_verdict, outcome_of, put_summary, put_verification,
  run_verifier_now, summary_of, verified, warn_on_repeat,
}
use hermes_pi_manager.Registry.Events.{append_event}

-- A row that differs from another one in no column that decides on the wake.
abbrev Like : Task → Option Task → Type 0
Like t o =
    (u : Task) × (o ≡ some u)
    × (u.execution_state ≡ t.execution_state)
    × (u.wake_state ≡ t.wake_state)
    × (u.continuation_enabled ≡ t.continuation_enabled)

pub append_event-TasksDistinct :
    (tid source : Text) (etype : EventType) (before after : Option Text) (summary : Option Text)
    (ts : Option ℕ) (wall : ℕ) (r : Registry)
    → TasksDistinct r
    → TasksDistinct (append_event tid source etype before after summary ts wall r)
unfolding append_event
append_event-TasksDistinct tid source etype before after summary ts wall r d = ground arith

run_lsp_check-Like :
    (tid : Text) (lsp : Option (Text × Text)) (wall : ℕ) (r : Registry) (t : Task)
    → TasksDistinct r
    → get_task tid r ≡ some t
    → TasksDistinct (run_lsp_check tid lsp wall r)
      × Like t (get_task tid (run_lsp_check tid lsp wall r))
unfolding run_lsp_check
run_lsp_check-Like tid none wall r t d e = (d, (t, e, refl, refl, refl))
run_lsp_check-Like tid (some (summary, whole)) wall r t d e =
    let put = update_task tid (put_lsp summary ∷ []) wall r in
    (
      ground (
        arith,
        append_event-TasksDistinct tid (text "verifier") (EventType.other (text "lsp_check")) none
            none (some whole) none wall put,
        update_task-TasksDistinct tid (put_lsp summary) [] wall r (λ _. refl) d,
      ),
      (
        updated (put_lsp summary ∷ []) wall t,
        ground (
          arith,
          text_eq_iff tid tid,
          get_task-append_event tid tid (text "verifier") (EventType.other (text "lsp_check")) none
              none (some whole) none wall put,
          get_task-update_task tid tid (put_lsp summary) [] wall r (λ _. refl),
        ),
        refl,
        refl,
        refl,
      ),
    )

module _ (py : Python) (describe : List Task → Text) (dump : Summary → Text) where
  warn_on_repeat-TasksDistinct :
      (tid : Text) (spec : VerifierSpec) (row : Task) (wall : ℕ) (r : Registry)
      → TasksDistinct r
      → TasksDistinct (warn_on_repeat py describe tid spec row wall r)
  unfolding warn_on_repeat append_event
  warn_on_repeat-TasksDistinct tid spec row wall r d = ground arith

  pub verified-TasksDistinct :
      (tid : Text) (spec : VerifierSpec) (run : Run) (row : Task) (wall : ℕ) (r : Registry)
      → TasksDistinct r
      → TasksDistinct (verified py describe dump tid spec run row wall r)
  verified-TasksDistinct tid spec run row wall r d =
      let outcome = outcome_of run in
      let opened = update_task tid (put_verification Verification.pending ∷ []) wall r in
      let summary = put_summary (compact_verifier_verdict py (summary_of run)) in
      let recorded = update_task tid (put_verification outcome ∷ summary ∷ []) wall opened in
      let d1 =
        update_task-TasksDistinct tid (put_verification Verification.pending) [] wall r (λ _. refl)
          d in
      let d2 =
        update_task-TasksDistinct tid (put_verification outcome) (summary ∷ []) wall opened
          (λ _. refl) d1 in
      let before = some (verification_text Verification.pending) in
      let after = some (verification_text outcome) in
      let noted =
        append_event tid (text "verifier") (EventType.other (text "verifier_run")) before after
          (some (dump (summary_of run))) none wall recorded in
      let d3 =
        append_event-TasksDistinct tid (text "verifier") (EventType.other (text "verifier_run"))
          before after (some (dump (summary_of run))) none wall recorded d2 in
      ground (arith, d3, warn_on_repeat-TasksDistinct tid spec row wall noted d3)

  run_gate_of-Like :
      (tid : Text) (rt : Option Runtime) (run : VerifierSpec → Run) (wall : ℕ) (r : Registry)
      (t : Task)
      → TasksDistinct r
      → get_task tid r ≡ some t
      → let r' = run_gate_of py describe dump tid rt run wall r in
        TasksDistinct r' × Like t (get_task tid r')
  unfolding run_verifier_now
  run_gate_of-Like tid none run wall r t d e = (d, (t, e, refl, refl, refl))
  run_gate_of-Like tid (some rt) run wall r t d e = elim (Option-cases rt.verifier) [
    | inl n ↦ (ground arith, (t, ground arith, refl, refl, refl))
    | inr (spec, n) ↦
        let ran = run_verifier_now_lem py describe dump tid tid spec (run spec) wall r t e in
        elim (Bool-cases (same_exec t.execution_state Execution.settled)) [
          | inl b ↦ (
            ground (arith, verified-TasksDistinct tid spec (run spec) t wall r d),
            (
              verified_row py (run spec) wall t,
              ground (arith, text_eq_iff tid tid, ran),
              refl,
              refl,
              refl,
            ),
          )
          | inr b ↦ (ground arith, (t, ground (arith, ran), refl, refl, refl))
        ]
  ]

  -- Whatever the semantic check and the verifier do, a refused or a failed run included, the thread
  -- ends with the task's wake opened, if it was not opened before: pending if the task may be
  -- continued, disabled otherwise. The execution state of the task stays as it was.
  pub run_verifier_announces :
      (tid : Text) (lsp : Option (Text × Text)) (run : VerifierSpec → Run) (now wall : ℕ)
      (m : Manager) (t : Task)
      → TasksDistinct m.registry
      → get_task tid m.registry ≡ some t
      → let r' = (run_verifier py describe dump tid lsp run now wall m).registry in
        (wake_of (get_task tid r') ≡ some (opened_wake t))
        × (state_of (get_task tid r') ≡ some t.execution_state)
  unfolding run_verifier
  run_verifier_announces tid lsp run now wall m t d e =
      let (d1, p) = run_lsp_check-Like tid lsp wall m.registry t d e in
      let (u, e1, s1, w1, c1) = p in
      let checked = run_lsp_check tid lsp wall m.registry in
      let (d2, q) = run_gate_of-Like tid (rt_of tid m) run wall checked u d1 e1 in
      let (v, e2, s2, w2, c2) = q in
      let gated = run_gate_of py describe dump tid (rt_of tid m) run wall checked in
      let done = notify_done_wakes py tid now wall gated v d2 e2 in
      (ground (arith, done.0), ground (arith, done.1 tid))
