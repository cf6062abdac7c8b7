-- ===== src/Tools/Refusals.antt =====
-- tools.py: what the handlers refuse, and what a refusal leaves.
use hermes_pi_manager.Manager.Verifier.Outcome.{run_verifier_now_lem, verified_row}
use hermes_pi_manager.Manager.Aborts.{steer_task}
use hermes_pi_manager.Base.Json.{Json, Members, Python}
use hermes_pi_manager.Transport.{denied, overdue, succeeded, unsent, Answer, was_accepted}
use hermes_pi_manager.Manager.State.{Manager, VerifierSpec}
use hermes_pi_manager.Manager.Verifier.{Run, Summary, outcome_of}
use hermes_pi_manager.Registry.Rows.{Verification, Execution, Registry, Task}
use hermes_pi_manager.Registry.Tasks.{get_task, same_exec}
use hermes_pi_manager.Base.{
  arith, text_eq, text_eq_iff, Bool-cases, inl, inr, refl, Bool, List, Option, Text, [], false,
  get_or, if◌then◌else◌, none, not, some, text, true, ℕ, ◌&&◌, ◌≡◌,
}
use hermes_pi_manager.Tools.{
  unknown, unsettled_text, verify_required, verify_spec, steer_for, steer_problem, Handled,
  steer_by, steer_with, verify_row_for, verify_with, Reply, argv_arg, handle_pi_steer,
  handle_pi_verify, outcome, problem, spec_arg, text_arg,
}
use mathlib.Core.Option

abbrev pub is_problem {ℓ} : {A : Type ℓ} → Reply A → Bool
is_problem (problem s) = true
is_problem _ = false

abbrev pub is_outcome {ℓ} : {A : Type ℓ} → Reply A → Bool
is_outcome (outcome a) = true
is_outcome _ = false

-- Whether the arguments name a SETTLED task and have a command.
abbrev pub verifiable : Option Text → Option Json → Registry → Bool
verifiable (some tid) (some argv) r = elim (get_task tid r) [
  | none ↦ false
  | some t ↦ same_exec t.execution_state Execution.settled
]
verifiable tid argv r = false

-- The verifier that the arguments describe, if they can be read.
abbrev pub verifier_of : Python → (Json → Option ℕ) → Members → Option Json → Option VerifierSpec
verifier_of py to_millis args none = none
verifier_of py to_millis args (some argv) = spec_arg py to_millis args argv

-- What `pi_verify` has done to task `j`, by the verifier that was read and whether it may run.
abbrev pub Verifies :
    Python
    → (VerifierSpec → Run)
    → ℕ
    → Text
    → Text
    → Bool
    → Option VerifierSpec
    → Manager
    → Handled Verification
    → Type 0
Verifies py command wall j tid good none m handled =
    (is_problem handled.0 ≡ not good) × (is_outcome handled.0 ≡ false) × (handled.1 ≡ m)
Verifies py command wall j tid good (some spec) m handled =
    (is_problem handled.0 ≡ not good)
    × (handled.0 ≡ (if good then outcome (outcome_of (command spec)) else handled.0))
    × (get_task j handled.1.registry ≡ (
        if good && text_eq j tid
        then Option.map (verified_row py (command spec) wall) (get_task j m.registry)
        else get_task j m.registry))
    × (handled.1 ≡ (if good then handled.1 else m))

module _ (py : Python) (describe : List Task → Text) (dump : Summary → Text)
    (to_millis : Json → Option ℕ) (command : VerifierSpec → Run) (wall : ℕ) (j : Text) where
  verify_spec-Verifies :
      (tid : Text) (spec : Option VerifierSpec) (m : Manager) (t : Task)
      → get_task tid m.registry ≡ some t
      → same_exec t.execution_state Execution.settled ≡ true
      → Verifies py command wall j tid true spec m
          (verify_spec py describe dump to_millis tid spec command wall m)
  verify_spec-Verifies tid none m t e s = (refl, refl, refl)
  verify_spec-Verifies tid (some spec) m t e s =
      let ran =
        run_verifier_now_lem py describe dump j tid spec (command spec) wall m.registry t e in
      ground (arith, ran, text_eq_iff j tid)

  refused-Verifies :
      (tid : Text) (spec : Option VerifierSpec) (m : Manager) (why : Text)
      → Verifies py command wall j tid false spec m (problem why, m)
  refused-Verifies tid none m why = (refl, refl, refl)
  refused-Verifies tid (some spec) m why = (refl, refl, refl, refl)

  verify_row_for-Verifies :
      (args : Members) (tid : Text) (argv : Json) (row : Option Task) (m : Manager)
      → get_task tid m.registry ≡ row
      → Verifies py command wall j tid
          (elim row [ none ↦ false | some t ↦ same_exec t.execution_state Execution.settled ])
          (spec_arg py to_millis args argv)
          m
          (verify_row_for py describe dump to_millis args tid argv command wall row m)
  verify_row_for-Verifies args tid argv none m h =
      refused-Verifies tid (spec_arg py to_millis args argv) m (unknown tid)
  verify_row_for-Verifies args tid argv (some t) m h =
      elim (Bool-cases (same_exec t.execution_state Execution.settled)) [
        | inl yes' ↦ rw yes' (verify_spec-Verifies tid (spec_arg py to_millis args argv) m t h yes')
        | inr no' ↦
            rw no' (refused-Verifies tid (spec_arg py to_millis args argv) m (unsettled_text t))
      ]

  verify_with-Verifies :
      (args : Members) (tid : Option Text) (argv : Option Json) (m : Manager)
      → Verifies py command wall j
          (get_or tid [])
          (verifiable tid argv m.registry)
          (verifier_of py to_millis args argv)
          m
          (verify_with py describe dump to_millis args tid argv command wall m)
  verify_with-Verifies args (some tid) (some argv) m =
      verify_row_for-Verifies args tid argv (get_task tid m.registry) m refl
  verify_with-Verifies args (some tid) none m = (refl, refl, refl)
  verify_with-Verifies args none argv m =
      refused-Verifies [] (verifier_of py to_millis args argv) m verify_required

  -- `pi_verify` answers with an error exactly if the task id or the command is missing or false, or
  -- the task is unknown or not SETTLED. Otherwise, if the command can be listed and the time-out can be
  -- read, it answers with the outcome of that command, and writes it and the verdict to the row of that
  -- task and of no other; if one of them cannot, an exception leaves the handler. The manager stays as
  -- it was whenever there is no outcome.
  pub handle_pi_verify_lem :
      (args : Members) (m : Manager)
      → let tid = text_arg py (text "task_id") args in
        let argv = argv_arg py args in
        Verifies py command wall j
          (get_or tid [])
          (verifiable tid argv m.registry)
          (verifier_of py to_millis args argv)
          m
          (handle_pi_verify py describe dump to_millis args command wall m)
  unfolding handle_pi_verify
  handle_pi_verify_lem args m =
      verify_with-Verifies args (text_arg py (text "task_id") args) (argv_arg py args) m

abbrev Steers : Answer → Manager → Handled Text → Type 0
Steers answer m handled =
    (handled.1 ≡ (if is_outcome handled.0 then handled.1 else m))
    × ((is_outcome handled.0 && not (was_accepted answer)) ≡ false)

steer_by-Steers :
    (tid : Text) (answer : Answer) (r : Registry) (m : Manager)
    → Steers answer m (steer_by tid answer r m)
steer_by-Steers tid (succeeded j) r m = (refl, refl)
steer_by-Steers tid (denied error) r m = (refl, refl)
steer_by-Steers tid overdue r m = (refl, refl)
steer_by-Steers tid (unsent error) r m = (refl, refl)

steer_for-Steers :
    (py : Python) (tid message : Text) (answer : Answer) (wall : ℕ) (row : Option Task)
    (m : Manager)
    → Steers answer m (steer_for py tid message answer wall row m)
steer_for-Steers py tid message answer wall none m = (refl, refl)
steer_for-Steers py tid message answer wall (some t) m =
    elim (steer_task py tid message wall m)
      as (λ o.
        Steers answer m
          (elim o [ none ↦ (problem (steer_problem t), m) | some r ↦ steer_by tid answer r m ])) [
            | none ↦ (refl, refl)
            | some r ↦ steer_by-Steers tid answer r m
          ]

steer_with-Steers :
    (py : Python) (tid message : Option Text) (answer : Answer) (wall : ℕ) (m : Manager)
    → Steers answer m (steer_with py tid message answer wall m)
steer_with-Steers py none message answer wall m = (refl, refl)
steer_with-Steers py (some tid) none answer wall m = (refl, refl)
steer_with-Steers py (some tid) (some message) answer wall m =
    steer_for-Steers py tid message answer wall (get_task tid m.registry) m

-- `pi_steer` answers with the task id, and records the message, only if the process accepted it; in
-- every other case the manager stays as it was.
pub handle_pi_steer_lem :
    (py : Python) (args : Members) (answer : Answer) (wall : ℕ) (m : Manager)
    → let handled = handle_pi_steer py args answer wall m in
      (handled.1 ≡ (if is_outcome handled.0 then handled.1 else m))
      × ((is_outcome handled.0 && not (was_accepted answer)) ≡ false)
unfolding handle_pi_steer
handle_pi_steer_lem py args answer wall m =
    steer_with-Steers py (text_arg py (text "task_id") args) (text_arg py (text "message") args)
      answer wall m
