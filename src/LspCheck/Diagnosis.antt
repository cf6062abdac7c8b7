-- ===== src/LspCheck/Diagnosis.antt =====
-- lsp_check.py: the diagnosis of the touched files by the host's language servers. The clock and the
-- servers' answers are parameters.
use Prim.Native.Nat.{max}
use hermes_pi_manager.Base.Json.{Python}
use hermes_pi_manager.Outbox.Target.{strip}
use hermes_pi_manager.Manager.Notices.{opt_eq}
use hermes_pi_manager.LspCheck.{Workspace, collect_touched_files}
use hermes_pi_manager.Base.{
  Bool, List, Option, Text, [], any, false, get_or, if◌then◌else◌, keep, leb, length, ltb, map,
  none, or_time, show, some, suc, take, text, text_eq, true, ℕ, ◌++◌, ◌+◌, ◌-◌, ◌==◌, ◌∷◌,
}
pub mod Counts

-- What the code reads of a diagnostic.
pub record Diagnostic : Type 0 where
  pub severity : Option ℕ
  pub line : Option ℕ
  pub message : Option Text

pub record Client : Type 0 where
  pub server_id : Option Text
  pub running : Bool

-- The language service, asked about one path. `enabled_for` and `get_diagnostics_sync` answer `none`
-- when they raise; `clients` is the status read for that path, `none` without one; `now` and `asked`
-- are the two readings of the clock.
pub record Service : Type 0 where
  pub enabled_for : Text → Option Bool
  pub get_diagnostics_sync : Text → ℕ → Option (List Diagnostic)
  pub clients : Text → Option (List Client)
  pub find_server : Text → Option Text
  pub now : Text → ℕ
  pub asked : Text → ℕ

-- `_running_server_ids`.
unfoldable pub running_server_ids : Option (List Client) → Option (List (Option Text))
running_server_ids none = none
running_server_ids (some cs) =
    some (map (λ (c : Client). c.server_id) (keep (λ (c : Client). c.running) cs))

abbrev is_among : Option Text → Option (List (Option Text)) → Bool
is_among none ids = false
is_among (some sid) none = false
is_among (some sid) (some ids) = any (opt_eq text_eq (some sid)) ids

-- Whether a live server answers for the path.
abbrev pub has_live_server : Service → Text → Bool
has_live_server svc path = is_among (svc.find_server path) (running_server_ids (svc.clients path))

abbrev confirmed : Service → Text → Option (List Diagnostic) → Option (List Diagnostic)
confirmed svc path none = none
confirmed svc path (some []) = if has_live_server svc path then some [] else none
confirmed svc path (some (d ∷ ds)) = some (d ∷ ds)

abbrev asked_for : Service → ℕ → Text → Option Bool → Option (List Diagnostic)
asked_for svc deadline path (some true) =
    confirmed svc path (svc.get_diagnostics_sync path (max 1000 (deadline - svc.asked path)))
asked_for svc deadline path _ = none

-- The diagnostics of a path that could be checked.
unfoldable pub diagnosed : Service → ℕ → Text → Option (List Diagnostic)
diagnosed svc deadline path = asked_for svc deadline path (svc.enabled_for path)

abbrev pub severity_of : Diagnostic → ℕ
severity_of d = or_time d.severity 1

abbrev pub is_error : Diagnostic → Bool
is_error d = severity_of d == 1

abbrev pub is_warning : Diagnostic → Bool
is_warning d = severity_of d == 2

abbrev first_or : Text → List Text → Text
first_or d [] = d
first_or d (x ∷ xs) = x

-- The text quoted for an error.
abbrev pub finding : Python → Text → Diagnostic → Text
finding py rel d = take 200 (
    rel
    ++ (text ":"
        ++ (show (get_or d.line 0 + 1)
            ++ (text ": " ++ first_or (text "?") (py.splitlines (strip (get_or d.message [])))))))

-- The result, and the counters of the loop.
pub record Scan : Type 0 where
  pub files : ℕ
  pub errors : ℕ
  pub warnings : ℕ
  pub unavailable : ℕ
  pub findings : List Text
  pub truncated : Bool

abbrev pub max_reported : ℕ
max_reported = 5

unfoldable pub count : Python → Text → Diagnostic → Scan → Scan
count py rel d s =
    if is_error d
    then record s {
      errors = suc s.errors;
      findings =
          if ltb (length s.findings) max_reported
          then s.findings ++ finding py rel d ∷ []
          else s.findings;
    }
    else if is_warning d
    then record s { warnings = suc s.warnings }
    else s

unfoldable pub count_each : Python → Text → List Diagnostic → Scan → Scan
count_each py rel [] s = s
count_each py rel (d ∷ ds) s = count_each py rel ds (count py rel d s)

abbrev pub relative : Workspace → Option Text → Text → Text
relative w none path = path
relative w (some []) path = path
relative w (some (c ∷ s)) path = w.relpath path (c ∷ s)

unfoldable pub visit : Python → Text → Option (List Diagnostic) → Scan → Scan
visit py rel none s = record s { unavailable = suc s.unavailable }
visit py rel (some ds) s = count_each py rel ds (record s { files = suc s.files })

unfoldable pub scan : Python → Workspace → Service → Option Text → ℕ → List Text → Scan → Scan
scan py w svc cwd deadline [] s = s
scan py w svc cwd deadline (path ∷ paths) s = elim (leb deadline (svc.now path)) [
  | true ↦ record s { truncated = true }
  | false ↦
      scan py w svc cwd deadline paths
        (visit py (relative w cwd path) (diagnosed svc deadline path) s)
]

abbrev pub no_scan : Scan
no_scan = record {
  files = 0;
  errors = 0;
  warnings = 0;
  unavailable = 0;
  findings = [];
  truncated = false;
}

abbrev pub if_checked : Scan → Option Scan
if_checked s = if s.files == 0 then none else some s

-- The part of `run` on the files that were found.
abbrev pub run_on : Python → Workspace → Service → Option Text → ℕ → List Text → Option Scan
run_on py w svc cwd deadline files =
    if length files == 0 then none else if_checked (scan py w svc cwd deadline files no_scan)

-- `run`, begun at `start`; `none` is no verdict.
unfoldable pub run : Python → Workspace → Option Service → Option Text → ℕ → ℕ → ℕ → Option Scan
run py w none cwd limit budget start = none
run py w (some svc) cwd limit budget start =
    run_on py w svc cwd (start + budget) (collect_touched_files py w cwd limit)
