-- ===== src/Manager/Settlement/Pace.antt =====
-- The pace of the progress notices.
use hermes_pi_manager.Base.Json.{Python}
use hermes_pi_manager.Registry.Tasks.{get_task}
use hermes_pi_manager.Manager.Notices.{
  notify_progress, progress_due, progress_noted, same_signature, signature_of,
}
use hermes_pi_manager.Registry.Rows.{Registry, Task, is_final}
use hermes_pi_manager.Manager.State.{Manager, Runtime, rt_of, runtime_key}
use hermes_pi_manager.Base.{
  Text, arith, false, or_time, refl, select-update_where, some, text_eq_iff, true, ℕ, ◌+◌, ◌<◌, ◌≡◌,
  ◌≤◌, ◌⊎◌,
}

-- When the gates let a progress notice through, the task is in no final state and its age is at
-- least `progress_first`, and the runtime notes the time and the signature. From then on, whatever
-- the registry has become, a further evaluation for that runtime does nothing before
-- `progress_interval` has passed, and at any time as long as the row's signature is the noted one.
pub progress_paced :
    (py : Python) (tid : Text) (rt : Runtime) (now wall later wall' : ℕ) (m : Manager)
    (r : Registry) (t t' : Task)
    → get_task tid m.registry ≡ some t
    → rt_of tid m ≡ some rt
    → progress_due rt now t ≡ true
    → get_task tid r ≡ some t'
    → (later < now + rt.thresholds.progress_interval)
      ⊎ (same_signature (signature_of t') (signature_of t) ≡ true)
    → let m' = notify_progress py tid rt now wall m in
      let rt' = progress_noted now t rt in
      (rt_of tid m' ≡ some rt')
      × (is_final t.execution_state ≡ false)
      × (or_time t.started_at now + rt.thresholds.progress_first ≤ now)
      × (notify_progress py tid rt' later wall' (record m' { registry = r })
          ≡ record m' { registry = r })
unfolding notify_progress
progress_paced py tid rt now wall later wall' m r t t' e f due n h = (
  ground (
    arith,
    text_eq_iff tid tid,
    select-update_where runtime_key tid tid (λ _. true) (progress_noted now t) m.runtimes
        (λ _. refl),
  ),
  ground arith,
  ground arith,
  ground arith,
)
