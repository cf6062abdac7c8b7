-- ===== src/Tools.antt =====
-- tools.py: the handlers of the seven tools, as functions of their arguments and the manager, the
-- capture of the origin, and whether the tools are offered. A reply is its value, not its JSON text.
use hermes_pi_manager.Base.Int.{ℤ}
use hermes_pi_manager.Manager.Report.{Report, status}
use hermes_pi_manager.Manager.Aborts.{abort_task, steer_task}
use hermes_pi_manager.Manager.Recovery.{Probe, Recovered}
use hermes_pi_manager.Manager.Digest.{Digest, digest}
use hermes_pi_manager.Base.Json.{Items, list_of, Json, Members, Python, get_member, str_of, truthy}
use hermes_pi_manager.Manager.Recovery.Reattach.{Tools, recover_task}
use hermes_pi_manager.Manager.Verifier.{Run, Summary, run_verifier_now}
use hermes_pi_manager.Registry.Tasks.{get_task, same_exec}
use hermes_pi_manager.LspCheck.Diagnosis.{run}
use hermes_pi_manager.Transport.{succeeded, Answer, overdue, denied, reply, unsent}
use hermes_pi_manager.Base.{List, Option, Text, get_or, if◌then◌else◌, none, some, text, ℕ, ◌++◌}
use hermes_pi_manager.Messages.{state_text}
use hermes_pi_manager.Manager.State.{Manager, VerifierSpec}
use hermes_pi_manager.Registry.Rows.{Execution, Registry, Task, Verification, is_final}
pub mod Refusals
pub mod Origin
pub mod Workers
use mathlib.Core.Option

-- An error reply, a result, and an exception that leaves the handler.
pub data Reply {ℓ} (A : Type ℓ) : Type ℓ where
  problem : Text → Reply A
  outcome : A → Reply A
  escaped : Reply A

-- `args.get(k)`, if it is true, as a text.
unfoldable pub text_arg : Python → Text → Members → Option Text
text_arg py k args = elim (get_member k args) [
  | none ↦ none
  | some v ↦ if truthy py v then some (str_of py v) else none
]

abbrev pub unknown : Text → Text
unknown tid = text "unknown task_id: " ++ tid

abbrev pub id_required : Text
id_required = text "task_id is required"

-- A result, or the reply to a KeyError.
abbrev pub or_unknown {ℓ} : {A : Type ℓ} → Text → Option A → Reply A
or_unknown tid none = problem (unknown tid)
or_unknown tid (some a) = outcome a

unfoldable pub handle_pi_status : Python → Members → ℕ → Manager → Reply Report
handle_pi_status py args now m = elim (text_arg py (text "task_id") args) [
  | none ↦ problem id_required
  | some tid ↦ or_unknown tid (status tid now m.registry)
]

abbrev digest_for :
    Python → (Text → Option (List Text)) → Text → Registry → Option Task → Reply Digest
digest_for py read tid r none = problem (unknown tid)
digest_for py read tid r (some t) = elim (digest py read tid r) [
  | none ↦ escaped
  | some d ↦ outcome d
]

unfoldable pub handle_pi_digest :
    Python → (Text → Option (List Text)) → Members → Manager → Reply Digest
handle_pi_digest py read args m = elim (text_arg py (text "task_id") args) [
  | none ↦ problem id_required
  | some tid ↦ digest_for py read tid m.registry (get_task tid m.registry)
]

-- The reply of a handler that may change the manager.
abbrev pub Handled : Type 0 → Type 0
Handled A = Reply A × Manager

abbrev aborted_as : Task → Execution
aborted_as t = if is_final t.execution_state then t.execution_state else Execution.aborted

abbrev abort_reason : Python → Members → Text
abort_reason py args = get_or (text_arg py (text "reason") args) (text "manual_abort")

abbrev abort_for :
    Python → Members → Text → Option ℤ → ℕ → ℕ → Option Task → Manager → Handled Execution
abort_for py args tid code now wall none m = (problem (unknown tid), m)
abort_for py args tid code now wall (some t) m =
    (outcome (aborted_as t), get_or (abort_task py tid (abort_reason py args) code now wall m) m)

unfoldable pub handle_pi_abort : Python → Members → Option ℤ → ℕ → ℕ → Manager → Handled Execution
handle_pi_abort py args code now wall m = elim (text_arg py (text "task_id") args) [
  | none ↦ (problem id_required, m)
  | some tid ↦ abort_for py args tid code now wall (get_task tid m.registry) m
]

abbrev pub steer_problem : Task → Text
steer_problem t =
    if is_final t.execution_state
    then text "cannot steer a final-state task (" ++ (state_text t.execution_state ++ text ")")
    else text "task has no live RPC transport (not attached)"

-- The command's own errors: RpcTimeoutError is no RuntimeError, so the handler does not catch it.
abbrev pub steer_by : Text → Answer → Registry → Manager → Handled Text
steer_by tid (succeeded j) r m = (outcome tid, record m { registry = r })
steer_by tid (denied error) r m = (problem (text "command 'steer' failed: " ++ error), m)
steer_by tid overdue r m = (escaped, m)
steer_by tid (unsent error) r m = (problem error, m)

abbrev pub steer_for : Python → Text → Text → Answer → ℕ → Option Task → Manager → Handled Text
steer_for py tid message answer wall none m = (problem (unknown tid), m)
steer_for py tid message answer wall (some t) m = elim (steer_task py tid message wall m) [
  | none ↦ (problem (steer_problem t), m)
  | some r ↦ steer_by tid answer r m
]

abbrev pub steer_with : Python → Option Text → Option Text → Answer → ℕ → Manager → Handled Text
steer_with py (some tid) (some message) answer wall m =
    steer_for py tid message answer wall (get_task tid m.registry) m
steer_with py tid message answer wall m = (problem (text "task_id and message are required"), m)

-- `answer` is that of the process to the command, if it is sent.
unfoldable pub handle_pi_steer : Python → Members → Answer → ℕ → Manager → Handled Text
handle_pi_steer py args answer wall m =
    steer_with py (text_arg py (text "task_id") args) (text_arg py (text "message") args) answer
      wall m

abbrev resumed : Text → Option (Manager × Recovered) → Manager → Handled Recovered
resumed tid none m = (problem (unknown tid), m)
resumed tid (some (m', answer)) m = (outcome answer, m')

unfoldable pub handle_pi_resume :
    Python → Tools → Members → (Text → Probe) → ℕ → ℕ → Manager → Handled Recovered
handle_pi_resume py tools args probe_of now wall m = elim (text_arg py (text "task_id") args) [
  | none ↦ (problem id_required, m)
  | some tid ↦ resumed tid (recover_task py tools now wall tid (probe_of tid) m) m
]

-- `args.get("verifier_argv")`, if it is true.
unfoldable pub argv_arg : Python → Members → Option Json
argv_arg py args = elim (get_member (text "verifier_argv") args) [
  | none ↦ none
  | some v ↦ if truthy py v then some v else none
]

-- `float(args.get("verifier_timeout_seconds") or 120.0)` in milliseconds. `to_millis` is `float` of
-- a value, where `none` is its ValueError or TypeError.
abbrev pub timeout_arg : Python → (Json → Option ℕ) → Members → Option ℕ
timeout_arg py to_millis args = elim (get_member (text "verifier_timeout_seconds") args) [
  | none ↦ some 120000
  | some v ↦ if truthy py v then to_millis v else some 120000
]

abbrev pub spec_of : Items → Option ℕ → Option VerifierSpec
spec_of argv timeout = Option.map (λ t. record { argv = argv; timeout = t; cwd = none }) timeout

-- The `VerifierSpec` of a true `verifier_argv`; `none` is an exception of `list` or of `float`.
unfoldable pub spec_arg : Python → (Json → Option ℕ) → Members → Json → Option VerifierSpec
spec_arg py to_millis args v = elim (list_of v) [
  | none ↦ none
  | some argv ↦ spec_of argv (timeout_arg py to_millis args)
]

abbrev pub verify_required : Text
verify_required = text "task_id and verifier_argv are required"

abbrev pub unsettled_text : Task → Text
unsettled_text t =
    text "task is not SETTLED yet (execution_state="
    ++ (state_text t.execution_state ++ text "); verification only runs after real settlement")

module _ (py : Python) (describe : List Task → Text) (dump : Summary → Text)
    (to_millis : Json → Option ℕ) where
  abbrev pub verify_result : Option (Registry × Verification) → Manager → Handled Verification
  verify_result none m = (escaped, m)
  verify_result (some (r, v)) m = (outcome v, record m { registry = r })

  -- An exception of `list` or `float` leaves the handler.
  abbrev pub verify_spec :
      Text → Option VerifierSpec → (VerifierSpec → Run) → ℕ → Manager → Handled Verification
  verify_spec tid none run wall m = (escaped, m)
  verify_spec tid (some spec) run wall m =
      verify_result (run_verifier_now py describe dump tid spec (run spec) wall m.registry) m

  abbrev pub verify_row_for :
      Members
      → Text
      → Json
      → (VerifierSpec → Run)
      → ℕ
      → Option Task
      → Manager
      → Handled Verification
  verify_row_for args tid argv run wall none m = (problem (unknown tid), m)
  verify_row_for args tid argv run wall (some t) m =
      if same_exec t.execution_state Execution.settled
      then verify_spec tid (spec_arg py to_millis args argv) run wall m
      else (problem (unsettled_text t), m)

  abbrev pub verify_with :
      Members
      → Option Text
      → Option Json
      → (VerifierSpec → Run)
      → ℕ
      → Manager
      → Handled Verification
  verify_with args (some tid) (some argv) run wall m =
      verify_row_for args tid argv run wall (get_task tid m.registry) m
  verify_with args tid argv run wall m = (problem verify_required, m)

  -- The reply has the outcome of the verifier; the report that goes with it is `status`.
  unfoldable pub handle_pi_verify :
      Members → (VerifierSpec → Run) → ℕ → Manager → Handled Verification
  handle_pi_verify args run wall m =
      verify_with args (text_arg py (text "task_id") args) (argv_arg py args) run wall m
