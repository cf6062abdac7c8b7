-- ===== src/Manager/Recovery/Sweep.antt =====
-- core.py: what a row of `recover_all`, and each of its two loops, does to the execution states.
use hermes_pi_manager.Manager.Recovery.Elsewhere.{recover_one-elsewhere}
use hermes_pi_manager.Manager.Verifier.Outcome.{run_verifier_now_lem}
use hermes_pi_manager.Manager.Verifier.{run_verifier_now}
use hermes_pi_manager.Base.Json.{Python}
use hermes_pi_manager.Manager.Notices.Passive.{
  get_task-enqueue_notification, request_terminal_wake-state,
}
use hermes_pi_manager.Manager.Recovery.{Probe, note_verifier}
use hermes_pi_manager.Registry.Tasks.{get_task, same_exec, task_key}
use hermes_pi_manager.Manager.Notices.{enqueue_notification, kind_of_row, notify_done}
use hermes_pi_manager.Manager.Recovery.Reattach.{
  Tools, load_verifier_spec, recover_each, recover_one, recover_row, recover_settled,
  recover_settled_verification, recover_task, run_gate, sweep_row,
}
use hermes_pi_manager.Manager.Recovery.Identity.{by_session-state, is_proven, note_verifier-tasks}
use hermes_pi_manager.Manager.State.{Manager, VerifierSpec, state_of}
use hermes_pi_manager.Registry.Rows.{Execution, Registry, Task}
use hermes_pi_manager.Base.{
  Distinct, false, mem_text-select, Bool, Bool-cases, List, Option, Option-cases, Text, [], ap,
  arith, if◌then◌else◌, inl, inr, map, mem_text, none, not, some, text_eq, text_eq_iff, true, ℕ,
  ◌&&◌, ◌∙◌, ◌∷◌, ◌≡◌, refl,
}

abbrev pub decided : Bool → Execution
decided proven = if proven then Execution.waiting else Execution.aborted

abbrev pub is_settled : Execution → Bool
is_settled s = same_exec s Execution.settled

notify_done-state :
    (py : Python) (j tid : Text) (now wall : ℕ) (r : Registry)
    → state_of (get_task j (notify_done py tid now wall r)) ≡ state_of (get_task j r)
unfolding notify_done
notify_done-state py j tid now wall r =
    request_terminal_wake-state py j tid now wall
      (enqueue_notification py tid (kind_of_row (get_task tid r)) now wall r)
    ∙ ap state_of (get_task-enqueue_notification py j tid (kind_of_row (get_task tid r)) now wall r)

module _ (py : Python) (tools : Tools) (now wall : ℕ) where
  run_gate-state :
      (j tid : Text) (spec : VerifierSpec) (m : Manager) (row : Task)
      → get_task tid m.registry ≡ some row
      → state_of (get_task j (run_gate py tools now wall tid spec m).0.registry)
        ≡ state_of (get_task j m.registry)
  run_gate-state j tid spec m row e =
      let argv = some (tools.argv_text spec) in
      let noted = note_verifier tid argv wall m.registry in
      let found : get_task tid noted ≡ some row =
        note_verifier-tasks tid tid argv wall m.registry ∙ e in
      let ran =
        run_verifier_now_lem py tools.describe tools.dump j tid spec (tools.run spec) wall noted row
          found in
      elim (Option-cases
        (run_verifier_now py tools.describe tools.dump tid spec (tools.run spec) wall noted)) [
          | inl h ↦ ground (arith, h, note_verifier-tasks j tid argv wall m.registry)
          | inr ((r, v), h) ↦ ground (
            arith,
            h,
            ran,
            text_eq_iff j tid,
            notify_done-state py j tid now wall r,
            note_verifier-tasks j tid argv wall m.registry,
          )
        ]

  recover_settled-state :
      (j tid : Text) (gate : Option VerifierSpec) (row : Task) (m : Manager)
      → get_task tid m.registry ≡ some row
      → state_of
          (get_task j (recover_settled_verification py tools now wall tid gate row m).0.registry)
        ≡ state_of (get_task j m.registry)
  recover_settled-state j tid none row m e = refl
  recover_settled-state j tid (some spec) row m e =
      ground (arith, run_gate-state j tid spec m row e)

  -- A recovery decides a task that is not SETTLED, and no other.
  recover_row-state :
      (j tid : Text) (probe : Probe) (m : Manager) (row : Task)
      → get_task tid m.registry ≡ some row
      → state_of (get_task j (recover_row py tools now wall tid probe row m).0.registry) ≡ (
          if text_eq j tid && not (is_settled row.execution_state)
          then some (decided (is_proven py tools now wall row probe))
          else state_of (get_task j m.registry))
  recover_row-state j tid probe m row e =
      let gate = load_verifier_spec py tools.seconds row.verifier_spec in
      let (_, live) = by_session-state py tools now wall j tid gate row probe m in
      ground (arith, text_eq_iff j tid, live, recover_settled-state j tid gate row m e)

  recover_one-proven :
      (probe_of : Text → Probe) (j : Text) (m : Manager) (t : Task)
      → get_task j m.registry ≡ some t
      → is_settled t.execution_state ≡ false
      → state_of (get_task j (recover_one py tools now wall probe_of j m).registry)
        ≡ some (decided (is_proven py tools now wall t (probe_of j)))
  unfolding recover_task
  recover_one-proven probe_of j m t e live =
      ground (arith, text_eq_iff j j, recover_row-state j j (probe_of j) m t e)

  pub recover_each-elsewhere :
      (probe_of : Text → Probe) (j : Text) (rows : List Task) (m : Manager)
      → mem_text j (map task_key rows) ≡ false
      → get_task j (recover_each py tools now wall probe_of rows m).registry ≡ get_task j m.registry
  unfolding recover_each mem_text
  recover_each-elsewhere probe_of j [] m h = refl
  recover_each-elsewhere probe_of j (row ∷ rows) m h =
      let other : text_eq j row.task_id ≡ false =
        ground (arith, text_eq_iff j row.task_id, text_eq_iff row.task_id j) in
      recover_each-elsewhere probe_of j rows (recover_one py tools now wall probe_of row.task_id m)
        (ground arith)
      ∙ recover_one-elsewhere j row.task_id other py tools now wall probe_of m

  -- The loop over the resumable rows decides each of them by its own proof.
  pub recover_each-proven :
      (probe_of : Text → Probe) (j : Text) (rows : List Task) (m : Manager) (t : Task)
      → Distinct task_key rows
      → mem_text j (map task_key rows) ≡ true
      → get_task j m.registry ≡ some t
      → is_settled t.execution_state ≡ false
      → state_of (get_task j (recover_each py tools now wall probe_of rows m).registry)
        ≡ some (decided (is_proven py tools now wall t (probe_of j)))
  unfolding recover_each mem_text
  recover_each-proven probe_of j [] m t d h e live = absurd (ground arith)
  recover_each-proven probe_of j (row ∷ rows) m t d h e live =
      let m1 = recover_one py tools now wall probe_of row.task_id m in
      elim (Bool-cases (text_eq row.task_id j)) [
        | inl own ↦
            let same : row.task_id ≡ j = ground (arith, text_eq_iff row.task_id j) in
            let gone : mem_text j (map task_key rows) ≡ false =
              ground (arith, same, d, mem_text-select task_key j rows) in
            ap state_of (recover_each-elsewhere probe_of j rows m1 gone)
            ∙ ap (λ i. state_of (get_task j (recover_one py tools now wall probe_of i m).registry))
                same
            ∙ recover_one-proven probe_of j m t e live
        | inr away ↦
            let other : text_eq j row.task_id ≡ false =
              ground (arith, text_eq_iff j row.task_id, text_eq_iff row.task_id j) in
            recover_each-proven probe_of j rows m1 t d.1 (ground arith)
              (recover_one-elsewhere j row.task_id other py tools now wall probe_of m ∙ e) live
      ]

  sweep_row-state :
      (probe_of : Text → Probe) (j : Text) (row : Task) (m : Manager)
      → state_of (get_task row.task_id m.registry) ≡ some Execution.settled
      → state_of (get_task j (sweep_row py tools now wall probe_of row m).registry)
        ≡ state_of (get_task j m.registry)
  unfolding recover_task
  sweep_row-state probe_of j row m e = elim (Option-cases (get_task row.task_id m.registry)) [
    | inl h ↦ ground (arith, request_terminal_wake-state py j row.task_id now wall m.registry)
    | inr (t, h) ↦ ground (
      arith,
      request_terminal_wake-state py j row.task_id now wall m.registry,
      recover_row-state j row.task_id (probe_of row.task_id) m t h,
    )
  ]

  -- The loop over the rows that are SETTLED changes no execution state.
  pub recover_settled-passive :
      (probe_of : Text → Probe) (j : Text) (rows : List Task) (m : Manager)
      → ((i : Text)
          → mem_text i (map task_key rows) ≡ true
          → state_of (get_task i m.registry) ≡ some Execution.settled)
      → state_of (get_task j (recover_settled py tools now wall probe_of rows m).registry)
        ≡ state_of (get_task j m.registry)
  unfolding recover_settled mem_text
  recover_settled-passive probe_of j [] m h = refl
  recover_settled-passive probe_of j (row ∷ rows) m h =
      let own = h row.task_id (ground (arith, text_eq_iff row.task_id row.task_id)) in
      let m1 = sweep_row py tools now wall probe_of row m in
      let same = λ (i : Text). sweep_row-state probe_of i row m own in
      recover_settled-passive probe_of j rows m1 (λ i hit. same i ∙ h i (ground arith)) ∙ same j
