-- ===== src/Manager/Verifier.antt =====
-- core.py: the verifier's run and its outcome, `run_verifier_now`, the verdict on
-- one line, and the note on a gate that failed before. What the command did is a parameter.
use hermes_pi_manager.LspCheck.Diagnosis.{run}
use hermes_pi_manager.WakeWorker.Passes.{recorded}
pub mod Outcome
use mathlib.Core.Option
use hermes_pi_manager.Outbox.Target.{strip}
use hermes_pi_manager.Manager.Events.{or_text}
use hermes_pi_manager.Registry.Events.{append_event}
use hermes_pi_manager.Manager.Notices.{opt_eq}
use hermes_pi_manager.Messages.{verification_text, join, show_ℤ}
use hermes_pi_manager.Base.Json.{
  list_of, truthy, Items, Json, Python, arr, cons, get_member, nil, obj, str,
}
use hermes_pi_manager.Manager.State.{VerifierSpec}
use hermes_pi_manager.Base.Int.{is_zero, negsuc, pos, ℤ}
use hermes_pi_manager.Registry.Tasks.{
  bound_text, get_task, list_tasks, max_summary_chars, same_exec, update_task,
}
use hermes_pi_manager.Registry.Rows.{EventType, Execution, Registry, Task, Verification}
use hermes_pi_manager.Base.{
  Bool, List, Option, Text, [], false, get_or, if◌then◌else◌, keep, length, none, not, some, text,
  text_eq, true, ℕ, ◌&&◌, ◌++◌, ◌==◌, ◌||◌, ◌∷◌,
}

-- `subprocess.run` returned, timed out, or raised something else.
pub data Run : Type 0 where
  exited : ℤ → Text → Text → Run
  timed_out : Text → Run
  unstarted : Text → Run

abbrev pub is_code : ℕ → ℤ → Bool
is_code n (pos m) = n == m
is_code n (negsuc m) = false

-- `returncode in (126, 127)`.
abbrev pub is_unrunnable : ℤ → Bool
is_unrunnable rc = is_code 126 rc || is_code 127 rc

unfoldable pub outcome_of : Run → Verification
outcome_of (exited rc out err) =
    if is_zero rc
    then Verification.pass
    else if is_unrunnable rc
    then Verification.unrunnable
    else Verification.fail
outcome_of (timed_out exc) = Verification.unrunnable
outcome_of (unstarted exc) = Verification.fail

-- `summary`, with the keys that the source may leave out.
pub record Summary : Type 0 where
  pub returncode : Option ℤ
  pub stdout_tail : Option Text
  pub stderr_tail : Option Text
  pub diagnosis : Option Text
  pub error : Option Text

abbrev unrunnable_diagnosis : ℤ → Text
unrunnable_diagnosis rc =
    text "the verifier command could not be executed (exit "
    ++ (show_ℤ rc
        ++ text
            "); no verdict was reached about the work. Either the gate names something that does not exist, or the task was supposed to create it and did not — check which before re-dispatching.")

abbrev timeout_diagnosis : Text
timeout_diagnosis = text "the verifier timed out before returning a verdict"

unfoldable pub summary_of : Run → Summary
summary_of (exited rc out err) = record {
  returncode = some rc;
  stdout_tail = some (bound_text out 800);
  stderr_tail = some (bound_text err 800);
  diagnosis = if not (is_zero rc) && is_unrunnable rc then some (unrunnable_diagnosis rc) else none;
  error = none;
}
summary_of (timed_out exc) = record {
  returncode = none;
  stdout_tail = none;
  stderr_tail = none;
  diagnosis = some timeout_diagnosis;
  error = some (bound_text exc max_summary_chars);
}
summary_of (unstarted exc) = record {
  returncode = none;
  stdout_tail = none;
  stderr_tail = none;
  diagnosis = none;
  error = some (bound_text exc max_summary_chars);
}

abbrev last_of : List Text → Text
last_of [] = []
last_of (x ∷ []) = x
last_of (x ∷ y ∷ ys) = last_of (y ∷ ys)

-- `tail.splitlines()[-1].strip() if tail else ""`.
abbrev last_line : Python → Text → Text
last_line py [] = []
last_line py (c ∷ s) = strip (last_of (py.splitlines (c ∷ s)))

abbrev head_part : Option ℤ → Option Text → Text
head_part (some rc) err = text "gate failed (exit " ++ (show_ℤ rc ++ text ")")
head_part none (some (c ∷ s)) = text "gate error: " ++ (c ∷ s)
head_part none _ = text "gate did not reach a verdict"

abbrev detail_parts : Option Text → Text → List Text
detail_parts (some (c ∷ s)) first = (c ∷ s) ∷ []
detail_parts _ [] = []
detail_parts _ (c ∷ s) = (c ∷ s) ∷ []

abbrev verdict_of : Python → Summary → Text
verdict_of py s =
    let tail = strip (get_or (or_text s.stderr_tail s.stdout_tail) []) in
    join (text " — ")
      (head_part s.returncode s.error ∷ detail_parts s.diagnosis (last_line py tail))

-- `_compact_verifier_verdict`; the summary is never empty here.
unfoldable pub compact_verifier_verdict : Python → Summary → Text
compact_verifier_verdict py s = elim s.returncode [
  | none ↦ verdict_of py s
  | some rc ↦ if is_zero rc then text "gate passed (exit 0)" else verdict_of py s
]

-- The command of a persisted spec, `list(argv)` if it is true. A text that is no JSON has none; nor,
-- here, has a value that is no object, or a true `argv` that cannot be listed, for which the source
-- raises: `start_task` writes neither.
abbrev pub argv_of : Python → Option Json → Option Items
argv_of py none = none
argv_of py (some v) = if truthy py v then list_of v else none

abbrev pub spec_argv : Python → Option Json → Option Items
spec_argv py (some (obj ms)) = argv_of py (get_member (text "argv") ms)
spec_argv py _ = none

unfoldable pub persisted_argv : Python → Option Text → Option Items
persisted_argv py none = none
persisted_argv py (some []) = none
persisted_argv py (some (c ∷ s)) = spec_argv py (py.loads (c ∷ s))

-- `list(a) == b`.
abbrev same_argv : Python → Items → Items → Bool
same_argv py a b = py.same_json (arr a) (arr b)

abbrev pub is_bad : Verification → Bool
is_bad Verification.fail = true
is_bad Verification.unrunnable = true
is_bad _ = false

abbrev failed_before : Python → Text → Items → Option Text → Task → Bool
failed_before py tid argv cwd t =
    not (text_eq t.task_id tid)
    && (opt_eq text_eq t.cwd cwd
        && (is_bad t.verification_state
            && opt_eq (same_argv py) (persisted_argv py t.verifier_spec) (some argv)))

-- What `_warn_on_repeat` appends; `describe` makes the summary from the tasks that failed before.
unfoldable pub warn_on_repeat :
    Python → (List Task → Text) → Text → VerifierSpec → Task → ℕ → Registry → Registry
warn_on_repeat py describe tid spec row wall r =
    let prior = keep (failed_before py tid spec.argv row.cwd) (list_tasks none r) in
    if length prior == 0
    then r
    else append_event tid (text "verifier") (EventType.other (text "verifier_repeat_failure")) none
        none (some (describe prior)) none wall r

abbrev pub put_verification : Verification → Task → Task
put_verification v t = record t { verification_state = v }

abbrev pub put_summary : Text → Task → Task
put_summary s t = record t { verifier_summary = some (bound_text s 400) }

module _ (py : Python) (describe : List Task → Text) (dump : Summary → Text) where
  -- The rest of the run, for a task that is SETTLED.
  abbrev pub verified : Text → VerifierSpec → Run → Task → ℕ → Registry → Registry
  verified tid spec run row wall r =
      let outcome = outcome_of run in
      let summary = summary_of run in
      let opened = update_task tid (put_verification Verification.pending ∷ []) wall r in
      let recorded =
        update_task tid
          (put_verification outcome ∷ put_summary (compact_verifier_verdict py summary) ∷ []) wall
          opened in
      let noted =
        append_event tid (text "verifier") (EventType.other (text "verifier_run"))
          (some (verification_text Verification.pending)) (some (verification_text outcome))
          (some (dump summary)) none wall recorded in
      if is_bad outcome then warn_on_repeat py describe tid spec row wall noted else noted

  abbrev verify_row :
      Text → VerifierSpec → Run → Option Task → ℕ → Registry → Option (Registry × Verification)
  verify_row tid spec run none wall r = none
  verify_row tid spec run (some row) wall r =
      if same_exec row.execution_state Execution.settled
      then some (verified tid spec run row wall r, outcome_of run)
      else none

  -- `none` is the RuntimeError for a task that is not SETTLED.
  unfoldable pub run_verifier_now :
      Text → VerifierSpec → Run → ℕ → Registry → Option (Registry × Verification)
  run_verifier_now tid spec run wall r = verify_row tid spec run (get_task tid r) wall r
