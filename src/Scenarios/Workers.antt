-- ===== src/Scenarios/Workers.antt =====
-- Examples of the theorem on the worker threads.
use hermes_pi_manager.Tools.Workers.Current.{all_overruns, happen_all_lem}
use hermes_pi_manager.Tools.Workers.Threads.{going_on, to_list, told_count}
use hermes_pi_manager.Tools.Workers.{
  Happening, end_thread, happen_all, outbox, register_workers, registers, replace_outbox_worker,
  replace_wake_worker, start_worker, stop_worker, tell_thread, unloaded, wakes,
}
use hermes_pi_manager.Base.{List, [], false, true, ◌∷◌, ◌≡◌, ◌≤◌, refl}

-- Two registrations, the second of which waits for the old wake worker in vain.
abbrev reloads : List Happening
reloads = registers true true true ∷ registers true true false ∷ []

happen_all_lem_example :
    let p = happen_all reloads unloaded in
    (going_on outbox p.live ≡ to_list p.worker)
    × (going_on wakes p.live ≡ to_list p.wake_worker)
    × (told_count outbox p.live ≤ all_overruns outbox reloads)
    × (told_count wakes p.live ≤ all_overruns wakes reloads)
happen_all_lem_example = happen_all_lem reloads

-- The old wake thread is then alive beside the new one.
overlap_run :
    (happen_all reloads unloaded).live
    ≡ record { number = 3; kind = wakes; told = false }
      ∷ record { number = 2; kind = outbox; told = false }
      ∷ record { number = 1; kind = wakes; told = true }
      ∷ []
unfolding happen_all register_workers replace_outbox_worker replace_wake_worker stop_worker
    start_worker tell_thread end_thread
overlap_run = refl
