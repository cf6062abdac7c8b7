-- ===== src/Manager/Watchdog/Loop.antt =====
-- core.py: `_watchdog_loop`, as the rounds that it makes until the list of them ends. A round that
-- raises is left out.
use hermes_pi_manager.Manager.Notices.{notify_progress}
use hermes_pi_manager.Registry.Rows.{Task, is_final}
use hermes_pi_manager.Registry.Tasks.{get_task}
use hermes_pi_manager.Manager.State.{Manager, Runtime, rt_of}
use hermes_pi_manager.Base.Json.{Json, Python}
use hermes_pi_manager.Manager.Watchdog.{Observed, tick_for, watchdog_tick}
use hermes_pi_manager.Base.{
  sym, Bool, Bool-cases, List, Option, Text, [], ap, arith, false, inl, inr, none, refl, some, true,
  ℕ, ◌++◌, ◌||◌, ◌∙◌, ◌∷◌, ◌≡◌,
}

-- What a round finds, and its two readings of the time.
pub record Round : Type 0 where
  pub found : Observed
  pub now : ℕ
  pub wall : ℕ

module _ (py : Python) (digest : Json → Text) (tid : Text) where
  abbrev notify_for : Round → Option Runtime → Manager → Manager
  notify_for r none m = m
  notify_for r (some rt) m = notify_progress py tid rt r.now r.wall m

  abbrev pub watchdog_round : Round → Manager → Manager
  watchdog_round r m =
      let ticked = watchdog_tick py digest r.found r.now r.wall tid m in
      notify_for r (rt_of tid ticked) ticked

  -- `rt.stop_watchdog.is_set()`; without a runtime the loop does not start.
  abbrev is_stopping : Option Runtime → Bool
  is_stopping none = true
  is_stopping (some rt) = rt.stop_watchdog

  abbrev is_gone : Option Task → Bool
  is_gone none = true
  is_gone (some t) = is_final t.execution_state

  unfoldable pub watchdog_loop : List Round → Manager → Manager
  watchdog_loop [] m = m
  watchdog_loop (r ∷ rs) m = elim (is_stopping (rt_of tid m)) [
    | true ↦ m
    | false ↦ elim (is_gone (get_task tid (watchdog_round r m).registry)) [
      | true ↦ watchdog_round r m
      | false ↦ watchdog_loop rs (watchdog_round r m)
    ]
  ]

  abbrev pub is_over_for : Manager → Bool
  is_over_for m = is_stopping (rt_of tid m) || is_gone (get_task tid m.registry)

  tick_for-gone :
      (r : Round) (rt : Option Runtime) (row : Option Task) (m : Manager)
      → is_gone row ≡ true
      → tick_for py digest r.found r.now r.wall tid rt row m ≡ m
  tick_for-gone r none row m h = refl
  tick_for-gone r (some rt) none m h = refl
  tick_for-gone r (some rt) (some t) m h = rw h refl

  notify_progress-gone :
      (r : Round) (rt : Option Runtime) (m : Manager)
      → is_gone (get_task tid m.registry) ≡ true
      → notify_for r rt m ≡ m
  unfolding notify_progress
  notify_progress-gone r none m h = refl
  notify_progress-gone r (some rt) m h = ground (arith)

  watchdog_round-gone :
      (r : Round) (m : Manager) → is_gone (get_task tid m.registry) ≡ true → watchdog_round r m ≡ m
  unfolding watchdog_tick
  watchdog_round-gone r m h =
      let same = tick_for-gone r (rt_of tid m) (get_task tid m.registry) m h in
      ap (λ m'. notify_for r (rt_of tid m') m') same ∙ notify_progress-gone r (rt_of tid m) m h

  watchdog_loop-over :
      (rs : List Round) (m : Manager) → is_over_for m ≡ true → watchdog_loop rs m ≡ m
  unfolding watchdog_loop
  watchdog_loop-over [] m h = refl
  watchdog_loop-over (r ∷ rs) m h = elim (Bool-cases (is_stopping (rt_of tid m))) [
    | inl stop' ↦ rw (stop', watchdog_loop) refl
    | inr goes ↦
        let gone' : is_gone (get_task tid m.registry) ≡ true = ground arith in
        let same = watchdog_round-gone r m gone' in
        let after : is_gone (get_task tid (watchdog_round r m).registry) ≡ true =
          ap (λ m'. is_gone (get_task tid m'.registry)) same ∙ gone' in
        rw (goes, watchdog_loop, after) same
  ]

  watchdog_loop-step :
      (r : Round) (rs : List Round) (m : Manager)
      → is_stopping (rt_of tid m) ≡ false
      → is_gone (get_task tid (watchdog_round r m).registry) ≡ false
      → watchdog_loop (r ∷ rs) m ≡ watchdog_loop rs (watchdog_round r m)
  unfolding watchdog_loop
  watchdog_loop-step r rs m goes alive = rw (goes, watchdog_loop, alive) refl

  -- The watchdog's loop is over as soon as the task is final, its row is gone or the watchdog is told
  -- to stop: further rounds leave the manager as the rounds before left it.
  pub watchdog_loop-append :
      (rs more : List Round) (m : Manager)
      → is_over_for (watchdog_loop rs m) ≡ true
      → watchdog_loop (rs ++ more) m ≡ watchdog_loop rs m
  unfolding watchdog_loop
  watchdog_loop-append [] more m h = watchdog_loop-over more m h
  watchdog_loop-append (r ∷ rs) more m h = elim (Bool-cases (is_stopping (rt_of tid m))) [
    | inl stop' ↦ rw (stop', watchdog_loop) refl
    | inr goes ↦ elim (Bool-cases (is_gone (get_task tid (watchdog_round r m).registry))) [
      | inl gone' ↦ rw (goes, watchdog_loop, gone') refl
      | inr alive ↦
          let step = watchdog_loop-step r rs m goes alive in
          let step' = watchdog_loop-step r (rs ++ more) m goes alive in
          step'
          ∙ watchdog_loop-append rs more (watchdog_round r m) (ap is_over_for (sym step) ∙ h)
          ∙ sym step
    ]
  ]
