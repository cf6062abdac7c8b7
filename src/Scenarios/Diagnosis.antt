-- ===== src/Scenarios/Diagnosis.antt =====
-- Examples of the theorems on the semantic check: two touched files, one of them with an error.

use hermes_pi_manager.Base.Json.{Python}
use hermes_pi_manager.Outbox.Target.{strip}
use hermes_pi_manager.Scenarios.{blank}
use hermes_pi_manager.LspCheck.Diagnosis.Counts.{cut_off, reached, run_lem, tally}
use hermes_pi_manager.LspCheck.Files.{collect_touched_files_lem, touched}
use hermes_pi_manager.LspCheck.Diagnosis.{Service, diagnosed, if_checked, run}
use hermes_pi_manager.Base.{
  Option, Text, [], any, arith, is_none, keep, mem_text, none, not, refl, some, take, text, text_eq,
  true, ◌&&◌, ◌==◌, ◌∷◌, ◌≡◌,
}
use hermes_pi_manager.LspCheck.Line.{format_summary, format_summary_lem, says_found}
use hermes_pi_manager.Base.Int.{pos}
use hermes_pi_manager.LspCheck.{
  Workspace, base_name, collect, collect_touched_files, drop_dots, git_lines, join_path,
  last_extension,
}

abbrev tree : Workspace
tree = record {
  is_dir = λ d. true;
  is_file = λ p. not (text_eq p (text "/w/gone.py"));
  abspath = λ p. p;
  relpath = λ p d. p;
  git = λ d args. some (pos 0, text "a.py");
}

abbrev one_line : Python
one_line = record blank { splitlines = λ s. s ∷ text "gone.py" ∷ text "notes.txt" ∷ [] }

abbrev servers : Service
servers = record {
  enabled_for = λ p. some true;
  get_diagnostics_sync = λ p t.
      some
        (record { severity = some 1; line = some 3; message = some (text "undefined name") } ∷ []);
  clients = λ p. none;
  find_server = λ p. none;
  now = λ p. 1000;
  asked = λ p. 1000;
}

abbrev cwd : Option Text
cwd = some (text "/w")

collect_touched_files_lem_example :
    collect_touched_files one_line tree cwd 40 ≡ take 40 (touched one_line tree cwd)
collect_touched_files_lem_example = collect_touched_files_lem one_line tree cwd 40 (omega arith)

-- The one file that is there.
touched_one : collect_touched_files one_line tree cwd 40 ≡ text "/w/a.py" ∷ []
unfolding collect_touched_files collect git_lines base_name drop_dots last_extension join_path
    mem_text keep text_eq any strip
touched_one = refl

run_lem_example :
    let files = collect_touched_files one_line tree cwd 40 in
    run one_line tree (some servers) cwd 40 25000 0
    ≡ if_checked (
        tally one_line tree cwd
          (diagnosed servers 25000)
          (reached servers 25000 files)
          (cut_off one_line tree servers cwd 25000 files))
run_lem_example = run_lem one_line tree servers cwd 40 25000 0

format_summary_lem_example :
    let files = collect_touched_files one_line tree cwd 40 in
    let t =
      tally one_line tree cwd
        (diagnosed servers 25000)
        (reached servers 25000 files)
        (cut_off one_line tree servers cwd 25000 files) in
    let line = format_summary (run one_line tree (some servers) cwd 40 25000 0) in
    (is_none line ≡ (t.files == 0))
    × (says_found line ≡ (not (t.files == 0) && not ((t.errors == 0) && (t.warnings == 0))))
format_summary_lem_example = format_summary_lem one_line tree servers cwd 40 25000 0
