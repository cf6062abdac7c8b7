-- ===== src/Manager/Processes.antt =====
-- core.py: the walks over the process table, `_live_descendants` and `_tool_process_active`. The
-- output of `ps`, cut into the fields of its lines, is a parameter.
use hermes_pi_manager.Outbox.Target.{strip}
use hermes_pi_manager.Registry.Tasks.{bound_text}
use hermes_pi_manager.Manager.Aborts.{stop}
use hermes_pi_manager.Base.{
  split_last, Bool, List, Option, Text, [], any, false, get_or, if◌then◌else◌, keep, leb, length,
  ltb, map, none, some, suc, take, true, zero, ℕ, ◌&&◌, ◌*◌, ◌++◌, ◌+◌, ◌-◌, ◌==◌, ◌∷◌,
}
pub mod Walk
pub mod Clock
use mathlib.Core.Option

-- A row of the table: the process, its parent, and the other fields.
pub record Process : Type 0 where
  pub pid : ℕ
  pub parent : ℕ
  pub elapsed : Text
  pub cpu_time : Text
  pub command : Text

-- `int(s)` and `float(s)`, the latter in milliseconds; `none` is the ValueError.
pub record Numbers : Type 0 where
  pub to_int : Text → Option ℕ
  pub to_ms : Text → Option ℕ

abbrev process_of : Option ℕ → Option ℕ → Text → Text → Text → List Process
process_of (some pid) (some parent) elapsed cpu command =
    record { pid = pid; parent = parent; elapsed = elapsed; cpu_time = cpu; command = command } ∷ []
process_of pid parent elapsed cpu command = []

-- A line with the five fields that `_live_descendants` asks for, or the three that
-- `_tool_process_active` does; any other line is passed over.
abbrev row_of : Numbers → List Text → List Process
row_of num (pid ∷ parent ∷ elapsed ∷ cpu ∷ command ∷ []) =
    process_of (num.to_int pid) (num.to_int parent) elapsed cpu command
row_of num (pid ∷ parent ∷ cpu ∷ []) =
    process_of (num.to_int pid) (num.to_int parent) [] (strip cpu) []
row_of num fields = []

unfoldable pub process_rows : Numbers → List (List Text) → List Process
process_rows num [] = []
process_rows num (fields ∷ lines) = row_of num fields ++ process_rows num lines

abbrev pub has_parent : ℕ → Process → Bool
has_parent cur p = p.parent == cur

-- `by_parent.get(cur, [])`.
abbrev pub children : ℕ → List Process → List Process
children cur rows = keep (has_parent cur) rows

abbrev pub mem : ℕ → List ℕ → Bool
mem n xs = any (λ x. x == n) xs

-- The children on the stack, the last one on top.
abbrev pub push : List Process → List ℕ → List ℕ
push [] stack = stack
push (p ∷ ps) stack = push ps (p.pid ∷ stack)

-- The walk's result: the processes seen, and the rows found.
pub record Walked : Type 0 where
  pub seen : List ℕ
  pub found : List Process

-- `while stack`, on fuel; `stop` ends it early. A process that was seen is not walked again.
unfoldable pub walk :
    (List Process → Bool) → List Process → ℕ → List ℕ → List ℕ → List Process → Option Walked
walk stop rows zero stack seen found = none
walk stop rows (suc fuel) [] seen found = some (record { seen = seen; found = found })
walk stop rows (suc fuel) (cur ∷ stack) seen found = elim (mem cur seen) [
  | true ↦ walk stop rows fuel stack seen found
  | false ↦ elim (stop (found ++ children cur rows)) [
    | true ↦ some (record { seen = cur ∷ seen; found = found ++ children cur rows })
    | false ↦
        walk stop rows fuel (push (children cur rows) stack) (cur ∷ seen)
          (found ++ children cur rows)
  ]
]

-- Every row is pushed once at most, so that two more rounds than rows are enough.
abbrev pub walk_from : (List Process → Bool) → List Process → ℕ → Option Walked
walk_from stop rows root = walk stop rows (suc (suc (length rows))) (root ∷ []) [] []

-- `found[:limit]`, each with a bounded command.
abbrev shown_process : Process → Process
shown_process p = record p { command = bound_text p.command 160 }

abbrev taken : ℕ → Option Walked → List Process
taken limit none = []
taken limit (some w) = map shown_process (take limit w.found)

-- `none` among the rows is a `ps` that raised; without a process there is nothing to list.
unfoldable pub live_descendants : Option ℕ → Option (List Process) → ℕ → List Process
live_descendants (some (suc pid)) (some rows) limit =
    taken limit (walk_from (λ found. leb limit (length found)) rows (suc pid))
live_descendants pid rows limit = []

-- `secs`: [[dd-]hh:]mm:ss in milliseconds, 0 for a text that is not of this form.
abbrev pub int_or_zero : Numbers → Text → Option ℕ
int_or_zero num [] = some 0
int_or_zero num (c ∷ s) = num.to_int (c ∷ s)

abbrev pub cut_at : ℕ → Text → Option (Text × Text)
cut_at c [] = none
cut_at c (d ∷ s) = if d == c then some ([], s) else Option.map (λ x. (d ∷ x.0, x.1)) (cut_at c s)

abbrev pub times : Option ℕ → ℕ → Option ℕ → Option ℕ
times (some a) unit (some b) = some (a * unit + b)
times a unit b = none

-- The days, the hours or the minutes before the last colon, with the seconds behind it.
abbrev pub by_hours : Numbers → Text → Option ℕ → Option (Text × Text) → Option ℕ
by_hours num head sec (some (hours, minutes)) =
    times (num.to_int hours) 3600000 (times (num.to_int minutes) 60000 sec)
by_hours num head sec none = times (int_or_zero num head) 60000 sec

abbrev pub by_days : Numbers → Text → Option ℕ → Option (Text × Text) → Option ℕ
by_days num head sec (some (days, hours)) =
    times (num.to_int days) 86400000 (times (int_or_zero num hours) 3600000 sec)
by_days num head sec none = by_hours num head sec (cut_at b':' head)

abbrev pub head_time : Numbers → Text → Option ℕ → Option ℕ
head_time num head sec = by_days num head sec (cut_at b'-' head)

abbrev clock_parts : Numbers → Text → Option (Text × Text) → Option ℕ
clock_parts num t none = head_time num [] (num.to_ms t)
clock_parts num t (some (head, sec)) = head_time num head (num.to_ms sec)

unfoldable pub secs : Numbers → Text → ℕ
secs num t = get_or (clock_parts num t (split_last t)) 0

abbrev pub sum_cpu : Numbers → List Process → ℕ
sum_cpu num [] = 0
sum_cpu num (p ∷ ps) = secs num p.cpu_time + sum_cpu num ps

-- `own.get(pid, "0:00")`: the last row of the process.
abbrev own_cpu : Numbers → ℕ → List Process → ℕ → ℕ
own_cpu num pid [] d = d
own_cpu num pid (p ∷ ps) d = own_cpu num pid ps (if p.pid == pid then secs num p.cpu_time else d)

-- The last sample that the runtime keeps: the total and its time.
pub record Sample : Type 0 where
  pub total : ℕ
  pub at : ℕ

abbrev pub cpu_total : Numbers → List Process → ℕ → ℕ
cpu_total num rows pid =
    own_cpu num pid rows 0
    + elim (walk_from (λ found. false) rows pid) [ none ↦ 0 | some w ↦ sum_cpu num w.found ]

-- The CPU time that was used between two samples, if it proves that the tool works: more than half a
-- second, within three windows.
abbrev pub evidence : ℕ → Option Sample → Sample → Option ℕ
evidence window none new = none
evidence window (some old) new =
    if ltb (old.total + 500) new.total && leb new.at (old.at + window * 3)
    then some (new.total - old.total)
    else none

-- The evidence, and the sample that is kept.
unfoldable pub tool_process_active :
    Numbers → Option ℕ → Option (List Process) → ℕ → ℕ → Option Sample → Option ℕ × Option Sample
tool_process_active num (some (suc pid)) (some rows) window now old =
    let new : Sample = record { total = cpu_total num rows (suc pid); at = now } in
    (evidence window old new, some new)
tool_process_active num pid rows window now old = (none, old)
