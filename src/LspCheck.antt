-- ===== src/LspCheck.antt =====
-- lsp_check.py: the files that a task touched. Git and the file system are parameters.
use hermes_pi_manager.Base.Json.{Python}
use hermes_pi_manager.Outbox.Target.{strip}
use hermes_pi_manager.Base.Int.{is_zero, ℤ}
use hermes_pi_manager.Base.{
  Bool, List, Option, Text, [], any, false, if◌then◌else◌, is_empty, keep, leb, length, map,
  mem_text, none, not, reverse, some, suc, take, text, true, ℕ, ◌++◌, ◌==◌, ◌||◌, ◌∷◌,
}
pub mod Files
pub mod Diagnosis
pub mod Line

-- `os.path.splitext(name)[1]`: from the last dot of the last component, leading dots left out.
abbrev is_dot : ℕ → Bool
is_dot c = c == b'.'

abbrev is_slash : ℕ → Bool
is_slash c = c == b'/'

unfoldable pub base_name : Text → Text
base_name [] = []
base_name (c ∷ s) = if any is_slash s then base_name s else if is_slash c then s else c ∷ s

unfoldable pub drop_dots : Text → Text
drop_dots [] = []
drop_dots (c ∷ s) = if is_dot c then drop_dots s else c ∷ s

unfoldable pub last_extension : Text → Text
last_extension [] = []
last_extension (c ∷ s) = if any is_dot s then last_extension s else if is_dot c then c ∷ s else []

abbrev pub extension : Text → Text
extension name = last_extension (drop_dots (base_name name))

-- LSP_EXTENSIONS.
abbrev pub lsp_extensions : List Text
lsp_extensions =
    text ".py"
    ∷ text ".ts"
    ∷ text ".tsx"
    ∷ text ".js"
    ∷ text ".jsx"
    ∷ text ".mjs"
    ∷ text ".cjs"
    ∷ text ".go"
    ∷ text ".rs"
    ∷ text ".c"
    ∷ text ".h"
    ∷ text ".cc"
    ∷ text ".cpp"
    ∷ text ".hpp"
    ∷ text ".java"
    ∷ text ".sh"
    ∷ text ".bash"
    ∷ text ".rb"
    ∷ text ".php"
    ∷ text ".cs"
    ∷ text ".ps1"
    ∷ []

abbrev pub is_supported : Python → Text → Bool
is_supported py name = mem_text (py.lower (extension name)) lsp_extensions

-- `os.path.join` of a directory and a name.
unfoldable pub join_path : Text → Text → Text
join_path [] name = name
join_path (c ∷ dir) [] =
    (c ∷ dir) ++ (if any is_slash (take 1 (reverse (c ∷ dir))) then [] else text "/")
join_path (c ∷ dir) (d ∷ name) =
    if is_slash d
    then d ∷ name
    else if any is_slash (take 1 (reverse (c ∷ dir)))
    then (c ∷ dir) ++ (d ∷ name)
    else (c ∷ dir) ++ (text "/" ++ (d ∷ name))

-- The file system and git, as the check finds them. `git` answers with the return code and the
-- standard output; `none` is a command that raised.
pub record Workspace : Type 0 where
  pub is_dir : Text → Bool
  pub is_file : Text → Bool
  pub abspath : Text → Text
  pub relpath : Text → Text → Text
  pub git : Text → List Text → Option (ℤ × Text)

abbrev lines_of : Python → Option (ℤ × Text) → List Text
lines_of py none = []
lines_of py (some (rc, out)) =
    if is_zero rc then keep (λ s. not (is_empty s)) (map strip (py.splitlines out)) else []

-- `_git`.
unfoldable pub git_lines : Python → Workspace → Text → List Text → List Text
git_lines py w cwd args = lines_of py (w.git cwd args)

abbrev pub touched_names : Python → Workspace → Text → List Text
touched_names py w cwd =
    git_lines py w cwd
      (text "diff" ∷ text "--name-only" ∷ text "--diff-filter=d" ∷ text "HEAD" ∷ [])
    ++ git_lines py w cwd (text "ls-files" ∷ text "--others" ∷ text "--exclude-standard" ∷ [])

abbrev pub path_of : Workspace → Text → Text → Text
path_of w cwd name = w.abspath (join_path cwd name)

-- The path that one name adds to those already listed.
abbrev pub offered : Python → Workspace → Text → Text → List Text → Option Text
offered py w cwd name out =
    if not (is_supported py name)
    then none
    else if mem_text (path_of w cwd name) out || not (w.is_file (path_of w cwd name))
    then none
    else some (path_of w cwd name)

unfoldable pub collect : Python → Workspace → Text → ℕ → List Text → List Text → List Text
collect py w cwd limit [] out = out
collect py w cwd limit (name ∷ names) out = elim (offered py w cwd name out) [
  | none ↦ collect py w cwd limit names out
  | some path ↦ elim (leb limit (suc (length out))) [
    | true ↦ out ++ path ∷ []
    | false ↦ collect py w cwd limit names (out ++ path ∷ [])
  ]
]

abbrev pub max_files : ℕ
max_files = 40

-- A missing or empty directory name, or one that is no directory, has no files.
unfoldable pub collect_touched_files : Python → Workspace → Option Text → ℕ → List Text
collect_touched_files py w none limit = []
collect_touched_files py w (some []) limit = []
collect_touched_files py w (some (c ∷ s)) limit =
    if w.is_dir (c ∷ s) then collect py w (c ∷ s) limit (touched_names py w (c ∷ s)) [] else []
