-- ===== src/LspCheck/Line.antt =====
-- lsp_check.py: `format_summary`, the line that sums up a run.
use hermes_pi_manager.Base.Json.{Python}
use hermes_pi_manager.Outbox.Errors.{starts_with}
use hermes_pi_manager.LspCheck.Diagnosis.Counts.{cut_off, reached, run_lem, tally}
use hermes_pi_manager.LspCheck.{Workspace, collect_touched_files}
use hermes_pi_manager.Messages.{join}
use hermes_pi_manager.LspCheck.Diagnosis.{Service, diagnosed, if_checked, run, Scan}
use hermes_pi_manager.Base.{
  Bool, arith, false, is_none, not, refl, true, ◌+◌, ◌∙◌, ◌≡◌, List, Option, Text, [],
  if◌then◌else◌, none, show, some, text, ℕ, ◌&&◌, ◌++◌, ◌==◌, ◌∷◌,
}

abbrev counted_part : ℕ → Text → List Text
counted_part n what = if n == 0 then [] else (show n ++ what) ∷ []

abbrev quoted : List Text → Text
quoted [] = []
quoted (f ∷ fs) = text " — " ++ join (text "; ") (f ∷ fs)

abbrev pub summary_line : Scan → Text
summary_line s =
    if (s.errors == 0) && (s.warnings == 0)
    then text "no LSP errors detected in "
      ++ (show s.files
          ++ (text " touched file(s)"
              ++ (if s.unavailable == 0
                  then []
                  else text "; "
                    ++ (show s.unavailable
                        ++ text " could not be checked (no server, or it did not respond)"))))
    else text "LSP found "
      ++ (join (text " and ") (
            counted_part s.errors (text " error(s)")
            ++ counted_part s.warnings (text " warning(s)"))
          ++ (text " in "
              ++ (show s.files
                  ++ (text " touched file(s)"
                      ++ (quoted s.findings
                          ++ ((if s.unavailable == 0
                                then []
                                else text "; "
                                  ++ (show s.unavailable ++ text " file(s) could not be checked"))
                              ++ (if s.truncated
                                  then text " [scan truncated by budget]"
                                  else [])))))))

-- `format_summary`; the result of a run is never empty.
unfoldable pub format_summary : Option Scan → Option Text
format_summary none = none
format_summary (some s) = some (summary_line s)

abbrev pub says_found : Option Text → Bool
says_found none = false
says_found (some line) = starts_with (text "LSP found ") line

starts_with-append : (p s : Text) → starts_with p (p ++ s) ≡ true
starts_with-append [] s = refl
starts_with-append (c ∷ p) s = ground (arith, starts_with-append p s)

says_found-format_summary :
    (s : Scan)
    → says_found (format_summary (if_checked s))
      ≡ (not (s.files == 0) && not ((s.errors == 0) && (s.warnings == 0)))
unfolding format_summary
says_found-format_summary s = ground arith

is_none-format_summary : (o : Option Scan) → is_none (format_summary o) ≡ is_none o
unfolding format_summary
is_none-format_summary none = refl
is_none-format_summary (some s) = refl

-- The line of a run on a service is missing exactly if no file before the deadline could be checked,
-- and says that something was found exactly if one that could be checked has an error or a warning.
pub format_summary_lem :
    (py : Python) (w : Workspace) (svc : Service) (cwd : Option Text) (limit budget start : ℕ)
    → let files = collect_touched_files py w cwd limit in
      let deadline = start + budget in
      let t =
        tally py w cwd
          (diagnosed svc deadline)
          (reached svc deadline files)
          (cut_off py w svc cwd deadline files) in
      let line = format_summary (run py w (some svc) cwd limit budget start) in
      (is_none line ≡ (t.files == 0))
      × (says_found line ≡ (not (t.files == 0) && not ((t.errors == 0) && (t.warnings == 0))))
format_summary_lem py w svc cwd limit budget start =
    let files = collect_touched_files py w cwd limit in
    let t =
      tally py w cwd (diagnosed svc (start + budget)) (reached svc (start + budget) files)
        (cut_off py w svc cwd (start + budget) files) in
    rw (run_lem py w svc cwd limit budget start)
      (is_none-format_summary (if_checked t) ∙ ground arith, says_found-format_summary t)
