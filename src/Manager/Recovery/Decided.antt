-- ===== src/Manager/Recovery/Decided.antt =====
-- core.py: `recover_all` decides every task that a restart finds unfinished.
use hermes_pi_manager.Manager.Recovery.Identity.{is_proven}
use hermes_pi_manager.Registry.Tasks.Cas.{TasksDistinct}
use hermes_pi_manager.Manager.Recovery.Keys.{recover_each-TasksDistinct}
use hermes_pi_manager.Manager.Recovery.{Probe}
use hermes_pi_manager.Base.Json.{Python}
use hermes_pi_manager.Manager.Recovery.Reattach.{Tools, recover_all, recover_each, resumable_states}
use hermes_pi_manager.Manager.State.{Manager, prune, spawn, state_of}
use hermes_pi_manager.Registry.Tasks.{get_task, list_tasks, same_exec, task_key}
use hermes_pi_manager.Manager.Recovery.Sweep.{
  recover_each-elsewhere, recover_each-proven, decided, is_settled, recover_settled-passive,
}
use hermes_pi_manager.Registry.Rows.{Execution, Registry, Task}
use hermes_pi_manager.Base.{
  Bool-cases, Distinct, Distinct-keep, ◌∙◌, Bool, List, Option-cases, Text, [], any, arith, false,
  if◌then◌else◌, inl, inr, map, mem_text, mem_text-keep, none, not, some, true, ℕ, ◌&&◌, ◌∷◌, ◌≡◌,
  refl,
}

-- The states that `recover_all` looks for, besides SETTLED.
abbrev pub is_resumable : Execution → Bool
is_resumable Execution.starting = true
is_resumable Execution.running = true
is_resumable Execution.tool_running = true
is_resumable Execution.waiting = true
is_resumable Execution.stalled = true
is_resumable Execution.unresponsive = true
is_resumable _ = false

is_settled-eq : (s : Execution) → is_settled s ≡ true → s ≡ Execution.settled
is_settled-eq Execution.starting h = ground arith
is_settled-eq Execution.running h = ground arith
is_settled-eq Execution.tool_running h = ground arith
is_settled-eq Execution.waiting h = ground arith
is_settled-eq Execution.stalled h = ground arith
is_settled-eq Execution.unresponsive h = ground arith
is_settled-eq Execution.settled h = refl
is_settled-eq Execution.crashed h = ground arith
is_settled-eq Execution.aborted h = ground arith

-- The rows that the sweep lists: by their ids, those in a state of the set.
pub listed :
    (i : Text) (s : Execution) (ss : List Execution) (r : Registry)
    → TasksDistinct r
    → r.closed ≡ false
    → mem_text i (map task_key (list_tasks (some (s ∷ ss)) r))
      ≡ elim (get_task i r) [ none ↦ false | some t ↦ any (same_exec t.execution_state) (s ∷ ss) ]
unfolding list_tasks get_task
listed i s ss r d up =
    ground
      (arith, mem_text-keep task_key i (λ t. any (same_exec t.execution_state) (s ∷ ss)) r.tasks d)

pub list_tasks-Distinct :
    (s : Execution) (ss : List Execution) (r : Registry)
    → TasksDistinct r
    → Distinct task_key (list_tasks (some (s ∷ ss)) r)
unfolding list_tasks
list_tasks-Distinct s ss r d =
    ground
      (arith, Distinct-keep task_key (λ t. any (same_exec t.execution_state) (s ∷ ss)) r.tasks d)

pub listed_settled :
    (i : Text) (r : Registry)
    → TasksDistinct r
    → mem_text i (map task_key (list_tasks (some (Execution.settled ∷ [])) r)) ≡ true
    → state_of (get_task i r) ≡ some Execution.settled
unfolding list_tasks get_task mem_text any
listed_settled i r d h =
    let listing =
      mem_text-keep task_key i (λ t. any (same_exec t.execution_state) (Execution.settled ∷ []))
        r.tasks d in
    elim (Option-cases (get_task i r)) [
      | inl e ↦ absurd (ground (arith, listing))
      | inr (t, e) ↦ ground (arith, listing, is_settled-eq t.execution_state)
    ]

module _ (py : Python) (tools : Tools) (now wall : ℕ) where
  pub resumable-any :
      (s : Execution) → any (same_exec s) (resumable_states py tools now wall) ≡ is_resumable s
  unfolding any
  resumable-any Execution.starting = refl
  resumable-any Execution.running = refl
  resumable-any Execution.tool_running = refl
  resumable-any Execution.waiting = refl
  resumable-any Execution.stalled = refl
  resumable-any Execution.unresponsive = refl
  resumable-any Execution.settled = refl
  resumable-any Execution.crashed = refl
  resumable-any Execution.aborted = refl

  resumable-settled : (s : Execution) → is_resumable s && not (is_settled s) ≡ is_resumable s
  resumable-settled Execution.starting = refl
  resumable-settled Execution.running = refl
  resumable-settled Execution.tool_running = refl
  resumable-settled Execution.waiting = refl
  resumable-settled Execution.stalled = refl
  resumable-settled Execution.unresponsive = refl
  resumable-settled Execution.settled = refl
  resumable-settled Execution.crashed = refl
  resumable-settled Execution.aborted = refl

  -- A sweep at the start decides every task: in an open registry with one row per task, a task in a
  -- state that can be resumed ends in WAITING exactly if its session file is on record and not empty,
  -- its process starts, and the answer to `get_state` proves the identity of its session, and in
  -- ABORTED otherwise; a task in any other state, SETTLED included, keeps it.
  pub recover_all_lem :
      (probe_of : Text → Probe) (j : Text) (m : Manager) (t : Task)
      → TasksDistinct m.registry
      → m.registry.closed ≡ false
      → get_task j m.registry ≡ some t
      → state_of (get_task j (recover_all py tools now wall probe_of m).registry) ≡ (
          if is_resumable t.execution_state
          then some (decided (is_proven py tools now wall t (probe_of j)))
          else some t.execution_state)
  unfolding recover_all
  recover_all_lem probe_of j m t d up e =
      let rows = list_tasks (some (resumable_states py tools now wall)) m.registry in
      let others =
        Execution.running ∷ Execution.tool_running ∷ Execution.waiting ∷ Execution.stalled
        ∷ Execution.unresponsive ∷ [] in
      let pruning = spawn prune m in
      let live = recover_each py tools now wall probe_of rows pruning in
      let d' = recover_each-TasksDistinct py tools now wall probe_of rows pruning d in
      let swept =
        recover_settled-passive py tools now wall probe_of j
          (list_tasks (some (Execution.settled ∷ [])) live.registry) live
          (λ i among. listed_settled i live.registry d' among) in
      let found : mem_text j (map task_key rows) ≡ is_resumable t.execution_state = ground (
        arith,
        listed j Execution.starting others m.registry d up,
        resumable-any t.execution_state,
      ) in
      elim (Bool-cases (is_resumable t.execution_state)) [
        | inl hit ↦ ground (
          arith,
          swept,
          recover_each-proven py tools now wall probe_of j rows pruning t
              (list_tasks-Distinct Execution.starting others m.registry d) (found ∙ hit) e
              (ground (arith, resumable-settled t.execution_state)),
        )
        | inr missed ↦ ground (
          arith,
          swept,
          recover_each-elsewhere py tools now wall probe_of j rows pruning (found ∙ missed),
        )
      ]
