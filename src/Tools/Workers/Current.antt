-- ===== src/Tools/Workers/Current.antt =====
-- tools.py: which worker threads run, after any history of registrations and unloads.
use hermes_pi_manager.Tools.Workers.Threads.{
  going_on, told_count, to_list, going_on-stop_worker, told_count-stop_worker, stop_worker-fields,
  going_on-end_thread, told_count-end_thread,
}
use hermes_pi_manager.Tools.Workers.{
  WorkerKind, outbox, wakes, Plugin, unloaded, start_worker, stop_worker, replace_outbox_worker,
  replace_wake_worker, stop_all_workers, register_workers, Happening, registers, unloads, ends,
  happen, happen_all,
}
use hermes_pi_manager.Base.{
  ℕ, ◌+◌, ◌≤◌, ◌≡◌, refl, Bool, true, false, not, List, [], ◌∷◌, Option, none, some, if◌then◌else◌,
  ◌==◌, arith, ltb,
}

abbrev is_below : Option ℕ → ℕ → Bool
is_below none m = true
is_below (some n) m = ltb n m

abbrev are_apart : Option ℕ → Option ℕ → Bool
are_apart (some a) (some b) = not (a == b)
are_apart _ _ = true

-- The threads that go on are the workers', and as many others of a kind are alive as given, at most.
abbrev IsCurrent : ℕ → ℕ → Plugin → Type 0
IsCurrent b c p =
    (going_on outbox p.live ≡ to_list p.worker)
    × (going_on wakes p.live ≡ to_list p.wake_worker)
    × (told_count outbox p.live ≤ b)
    × (told_count wakes p.live ≤ c)
    × (is_below p.worker p.next_thread ≡ true)
    × (is_below p.wake_worker p.next_thread ≡ true)
    × (are_apart p.worker p.wake_worker ≡ true)

replace_outbox_worker-IsCurrent :
    (b c : ℕ) (joined : Bool) (p : Plugin)
    → IsCurrent b c p
    → IsCurrent (b + (if joined then 0 else 1)) c (replace_outbox_worker joined p)
unfolding replace_outbox_worker start_worker
replace_outbox_worker-IsCurrent b c joined p h =
    let q = start_worker outbox (record p { worker = some p.next_thread }) in
    ground (
      arith,
      going_on-stop_worker outbox p.worker joined q,
      going_on-stop_worker wakes p.worker joined q,
      told_count-stop_worker outbox p.worker joined q,
      told_count-stop_worker wakes p.worker joined q,
      stop_worker-fields p.worker joined q,
    )

replace_wake_worker-IsCurrent :
    (b c : ℕ) (joined : Bool) (p : Plugin)
    → IsCurrent b c p
    → IsCurrent b (c + (if joined then 0 else 1)) (replace_wake_worker joined p)
unfolding replace_wake_worker start_worker
replace_wake_worker-IsCurrent b c joined p h =
    let q = record p { wake_worker = none } in
    ground (
      arith,
      going_on-stop_worker outbox p.wake_worker joined q,
      going_on-stop_worker wakes p.wake_worker joined q,
      told_count-stop_worker outbox p.wake_worker joined q,
      told_count-stop_worker wakes p.wake_worker joined q,
      stop_worker-fields p.wake_worker joined q,
    )

stop_outbox-IsCurrent :
    (b c : ℕ) (joined : Bool) (p : Plugin)
    → IsCurrent b c p
    → IsCurrent
        (b + (if joined then 0 else 1))
        c
        (stop_worker p.worker joined (record p { worker = none }))
stop_outbox-IsCurrent b c joined p h =
    let q = record p { worker = none } in
    ground (
      arith,
      going_on-stop_worker outbox p.worker joined q,
      going_on-stop_worker wakes p.worker joined q,
      told_count-stop_worker outbox p.worker joined q,
      told_count-stop_worker wakes p.worker joined q,
      stop_worker-fields p.worker joined q,
    )

stop_wakes-IsCurrent :
    (b c : ℕ) (joined : Bool) (p : Plugin)
    → IsCurrent b c p
    → IsCurrent b
        (c + (if joined then 0 else 1))
        (stop_worker p.wake_worker joined (record p { wake_worker = none }))
stop_wakes-IsCurrent b c joined p h =
    let q = record p { wake_worker = none } in
    ground (
      arith,
      going_on-stop_worker outbox p.wake_worker joined q,
      going_on-stop_worker wakes p.wake_worker joined q,
      told_count-stop_worker outbox p.wake_worker joined q,
      told_count-stop_worker wakes p.wake_worker joined q,
      stop_worker-fields p.wake_worker joined q,
    )

-- The stops of a kind whose wait ran out.
abbrev pub overruns : WorkerKind → Happening → ℕ
overruns outbox (registers supported joined wake_joined) = if joined then 0 else 1
overruns wakes (registers true joined wake_joined) = if wake_joined then 0 else 1
overruns wakes (registers false joined wake_joined) = 0
overruns outbox (unloads joined wake_joined) = if joined then 0 else 1
overruns wakes (unloads joined wake_joined) = if wake_joined then 0 else 1
overruns _ (ends n) = 0

abbrev pub all_overruns : WorkerKind → List Happening → ℕ
all_overruns k [] = 0
all_overruns k (e ∷ es) = overruns k e + all_overruns k es

happen-IsCurrent :
    (b c : ℕ) (e : Happening) (p : Plugin)
    → IsCurrent b c p
    → IsCurrent (b + overruns outbox e) (c + overruns wakes e) (happen e p)
unfolding register_workers stop_all_workers
happen-IsCurrent b c (registers true joined wake_joined) p h =
    replace_wake_worker-IsCurrent (b + (if joined then 0 else 1)) c wake_joined
      (replace_outbox_worker joined p) (replace_outbox_worker-IsCurrent b c joined p h)
happen-IsCurrent b c (registers false joined wake_joined) p h =
    ground (arith, replace_outbox_worker-IsCurrent b c joined p h)
happen-IsCurrent b c (unloads joined wake_joined) p h =
    stop_wakes-IsCurrent (b + (if joined then 0 else 1)) c wake_joined
      (stop_worker p.worker joined (record p { worker = none }))
      (stop_outbox-IsCurrent b c joined p h)
happen-IsCurrent b c (ends n) p h = ground (
  arith,
  going_on-end_thread outbox n p.live,
  going_on-end_thread wakes n p.live,
  told_count-end_thread outbox n p.live,
  told_count-end_thread wakes n p.live,
)

happen_all-IsCurrent :
    (b c : ℕ) (es : List Happening) (p : Plugin)
    → IsCurrent b c p
    → IsCurrent (b + all_overruns outbox es) (c + all_overruns wakes es) (happen_all es p)
unfolding happen_all
happen_all-IsCurrent b c [] p h = ground arith
happen_all-IsCurrent b c (e ∷ es) p h = ground (
  arith,
  happen_all-IsCurrent (b + overruns outbox e) (c + overruns wakes e) es (happen e p)
      (happen-IsCurrent b c e p h),
)

-- After any history of registrations, unloads and ends of threads, the threads that were not told to
-- stop are exactly those of the current workers, so at most one of each kind; and at most as many
-- others of a kind are alive as there were stops of that kind whose wait ran out.
pub happen_all_lem :
    (es : List Happening)
    → let p = happen_all es unloaded in
      (going_on outbox p.live ≡ to_list p.worker)
      × (going_on wakes p.live ≡ to_list p.wake_worker)
      × (told_count outbox p.live ≤ all_overruns outbox es)
      × (told_count wakes p.live ≤ all_overruns wakes es)
happen_all_lem es = ground (
  arith,
  happen_all-IsCurrent 0 0 es unloaded (refl, refl, omega arith, omega arith, refl, refl, refl),
)
