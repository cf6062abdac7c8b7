-- ===== src/Manager/Finish.antt =====
-- core.py: `_run_verifier`, the thread that ends a settled task: the semantic check, the verifier if
-- the task has one, and the announcement. What the check found is a parameter.

pub mod Announced
use hermes_pi_manager.Manager.State.Reads.{get_task-append_event}
use hermes_pi_manager.Manager.Notices.{notify_done}
use hermes_pi_manager.Manager.Verifier.{Run, Summary, run_verifier_now}
use hermes_pi_manager.Base.Json.{Python}
use hermes_pi_manager.Registry.Events.{append_event}
use hermes_pi_manager.Registry.Tasks.Cas.{TasksDistinct, get_task-update_task, updated}
use hermes_pi_manager.Manager.State.{Manager, Runtime, VerifierSpec, rt_of}
use hermes_pi_manager.Registry.Tasks.{bound_text, get_task, update_task}
use hermes_pi_manager.Registry.Rows.{EventType, Registry, Task}
use hermes_pi_manager.Base.{
  List, Option, Text, [], arith, get_or, if◌then◌else◌, is_none, none, refl, some, text,
  text_eq_iff, ℕ, ◌∷◌, ◌≡◌,
}
use mathlib.Core.Option

abbrev pub put_lsp : Text → Task → Task
put_lsp summary t = record t { lsp_summary = some (bound_text summary 600) }

-- `_run_lsp_check`: the one-line summary and the JSON text of the whole result, if there is a verdict.
unfoldable pub run_lsp_check : Text → Option (Text × Text) → ℕ → Registry → Registry
run_lsp_check tid none wall r = r
run_lsp_check tid (some (summary, whole)) wall r =
    if is_none (get_task tid r)
    then r
    else append_event tid (text "verifier") (EventType.other (text "lsp_check")) none none
        (some whole) none wall (update_task tid (put_lsp summary ∷ []) wall r)

module _ (py : Python) (describe : List Task → Text) (dump : Summary → Text) where
  -- A refused run raises; the announcement comes all the same.
  abbrev pub run_gate_of : Text → Option Runtime → (VerifierSpec → Run) → ℕ → Registry → Registry
  run_gate_of tid none run wall r = r
  run_gate_of tid (some rt) run wall r = elim rt.verifier [
    | none ↦ r
    | some spec ↦
        get_or
          (Option.map (λ x. x.0) (run_verifier_now py describe dump tid spec (run spec) wall r)) r
  ]

  unfoldable pub run_verifier :
      Text → Option (Text × Text) → (VerifierSpec → Run) → ℕ → ℕ → Manager → Manager
  run_verifier tid lsp run now wall m =
      let checked = run_lsp_check tid lsp wall m.registry in
      let gated = run_gate_of tid (rt_of tid m) run wall checked in
      record m { registry = notify_done py tid now wall gated }
