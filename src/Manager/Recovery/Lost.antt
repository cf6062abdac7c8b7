-- ===== src/Manager/Recovery/Lost.antt =====
-- core.py: `recover_all` opens the wake that a crash lost.
use hermes_pi_manager.Manager.Recovery.Sweep.{recover_each-elsewhere}
use hermes_pi_manager.Manager.Recovery.Decided.{listed, resumable-any, list_tasks-Distinct}
use hermes_pi_manager.Manager.Settlement.Late.{opened_wake, request_terminal_wake-wake, wake_of}
use hermes_pi_manager.Manager.Recovery.Keys.{recover_each-TasksDistinct, recover_one-TasksDistinct}
use hermes_pi_manager.Manager.Recovery.{Probe}
use hermes_pi_manager.Manager.Recovery.Writes.{request_terminal_wake-TasksDistinct}
use hermes_pi_manager.Manager.Recovery.Elsewhere.{
  recover_one-elsewhere, request_terminal_wake-elsewhere,
}
use hermes_pi_manager.Manager.State.{prune, spawn, Manager}
use hermes_pi_manager.Manager.Recovery.Reattach.{
  recover_all, recover_each, resumable_states, Tools, is_resolved, recover_settled, sweep_row,
}
use hermes_pi_manager.Registry.Tasks.Cas.{TasksDistinct}
use hermes_pi_manager.Registry.Rows.{Registry, Execution, Wake, disabled, Task}
use hermes_pi_manager.Registry.Tasks.{same_exec, list_tasks, get_task, task_key}
use hermes_pi_manager.Base.Json.{Python}
use hermes_pi_manager.Base.{
  any, select-keep, if◌then◌else◌, map, mem_text, Bool-cases, Distinct, List, Text, [], ap, arith,
  false, none, select, some, text_eq, text_eq_iff, true, ℕ, ◌∙◌, ◌∷◌, refl, ◌≡◌, inl, inr,
}

listed-select :
    (i : Text) (r : Registry) (t : Task)
    → TasksDistinct r
    → get_task i r ≡ some t
    → t.execution_state ≡ Execution.settled
    → select task_key i (list_tasks (some (Execution.settled ∷ [])) r) ≡ some t
unfolding list_tasks get_task any
listed-select i r t d e settled = ground (
  arith,
  settled,
  select-keep task_key i (λ u. any (same_exec u.execution_state) (Execution.settled ∷ [])) r.tasks
      d,
)

module _ (py : Python) (tools : Tools) (now wall : ℕ) where
  sweep_row-elsewhere :
      (probe_of : Text → Probe) (j : Text) (row : Task) (m : Manager)
      → text_eq row.task_id j ≡ false
      → get_task j (sweep_row py tools now wall probe_of row m).registry ≡ get_task j m.registry
  sweep_row-elsewhere probe_of j row m h =
      let other : text_eq j row.task_id ≡ false =
        ground (arith, text_eq_iff j row.task_id, text_eq_iff row.task_id j) in
      ground (
        arith,
        recover_one-elsewhere j row.task_id other py tools now wall probe_of m,
        request_terminal_wake-elsewhere j row.task_id other py now wall m.registry,
      )

  sweep_row-TasksDistinct :
      (probe_of : Text → Probe) (row : Task) (m : Manager)
      → TasksDistinct m.registry
      → TasksDistinct (sweep_row py tools now wall probe_of row m).registry
  sweep_row-TasksDistinct probe_of row m d = ground (
    arith,
    recover_one-TasksDistinct py tools now wall probe_of row.task_id m d,
    request_terminal_wake-TasksDistinct py row.task_id now wall m.registry d,
  )

  -- The sweep of a settled row with a resolved gate and no wake.
  sweep_row-wake :
      (probe_of : Text → Probe) (m : Manager) (t : Task)
      → TasksDistinct m.registry
      → get_task t.task_id m.registry ≡ some t
      → is_resolved py tools now wall t ≡ true
      → t.wake_state ≡ none
      → wake_of (get_task t.task_id (sweep_row py tools now wall probe_of t m).registry)
        ≡ some (opened_wake t)
  sweep_row-wake probe_of m t d e over w =
      ground (arith, request_terminal_wake-wake py t.task_id now wall m.registry t d e)

  recover_settled-elsewhere :
      (probe_of : Text → Probe) (j : Text) (rows : List Task) (m : Manager)
      → select task_key j rows ≡ none
      → get_task j (recover_settled py tools now wall probe_of rows m).registry
        ≡ get_task j m.registry
  unfolding recover_settled select
  recover_settled-elsewhere probe_of j [] m h = refl
  recover_settled-elsewhere probe_of j (row ∷ rows) m h =
      recover_settled-elsewhere probe_of j rows (sweep_row py tools now wall probe_of row m)
        (ground arith)
      ∙ sweep_row-elsewhere probe_of j row m (ground arith)

  recover_settled-wake :
      (probe_of : Text → Probe) (rows : List Task) (m : Manager) (t : Task)
      → Distinct task_key rows
      → TasksDistinct m.registry
      → select task_key t.task_id rows ≡ some t
      → get_task t.task_id m.registry ≡ some t
      → is_resolved py tools now wall t ≡ true
      → t.wake_state ≡ none
      → wake_of (get_task t.task_id (recover_settled py tools now wall probe_of rows m).registry)
        ≡ some (opened_wake t)
  unfolding recover_settled select
  recover_settled-wake probe_of [] m t u d h e over w = absurd (ground arith)
  recover_settled-wake probe_of (row ∷ rows) m t u d h e over w =
      let m1 = sweep_row py tools now wall probe_of row m in
      elim (Bool-cases (text_eq row.task_id t.task_id)) [
        | inl own ↦
            let same : row ≡ t = ground (arith, own, h) in
            let gone : select task_key t.task_id rows ≡ none = ground (arith, u.0, same) in
            ap wake_of (recover_settled-elsewhere probe_of t.task_id rows m1 gone)
            ∙ ap
                (λ x.
                  wake_of (get_task t.task_id (sweep_row py tools now wall probe_of x m).registry))
                same
            ∙ sweep_row-wake probe_of m t d e over w
        | inr away ↦
            recover_settled-wake probe_of rows m1 t u.1 (sweep_row-TasksDistinct probe_of row m d)
              (ground arith) (sweep_row-elsewhere probe_of t.task_id row m away ∙ e) over w
      ]

  -- A sweep at the start opens the wake that a crash lost: in an open registry with one row per task, a
  -- task that is SETTLED with a resolved gate and without a wake has one afterwards, pending if the
  -- task may be continued and disabled otherwise.
  pub recover_all_wakes :
      (probe_of : Text → Probe) (m : Manager) (t : Task)
      → TasksDistinct m.registry
      → m.registry.closed ≡ false
      → get_task t.task_id m.registry ≡ some t
      → t.execution_state ≡ Execution.settled
      → is_resolved py tools now wall t ≡ true
      → t.wake_state ≡ none
      → wake_of (get_task t.task_id (recover_all py tools now wall probe_of m).registry)
        ≡ some (some (if t.continuation_enabled then Wake.pending else disabled))
  unfolding recover_all
  recover_all_wakes probe_of m t d up e settled over w =
      let rows = list_tasks (some (resumable_states py tools now wall)) m.registry in
      let others =
        Execution.running ∷ Execution.tool_running ∷ Execution.waiting ∷ Execution.stalled
        ∷ Execution.unresponsive ∷ [] in
      let pruning = spawn prune m in
      let live = recover_each py tools now wall probe_of rows pruning in
      let d' = recover_each-TasksDistinct py tools now wall probe_of rows pruning d in
      let absent : mem_text t.task_id (map task_key rows) ≡ false = ground (
        arith,
        settled,
        listed t.task_id Execution.starting others m.registry d up,
        resumable-any py tools now wall t.execution_state,
      ) in
      let same : get_task t.task_id live.registry ≡ some t =
        recover_each-elsewhere py tools now wall probe_of t.task_id rows pruning absent ∙ e in
      let swept = list_tasks (some (Execution.settled ∷ [])) live.registry in
      let there : select task_key t.task_id swept ≡ some t =
        listed-select t.task_id live.registry t d' same settled in
      ground (
        arith,
        w,
        recover_settled-wake probe_of swept live t
            (list_tasks-Distinct Execution.settled [] live.registry d') d' there same over w,
      )
