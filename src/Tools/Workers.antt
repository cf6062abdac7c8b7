-- ===== src/Tools/Workers.antt =====
-- tools.py: the two worker threads of the plugin, which a registration starts or replaces and an
-- unload stops; with `start`, `stop` and the loop's end of `OutboxWorker` and `TerminalWakeWorker`.
use hermes_pi_manager.Manager.Watchdog.{quiet}
pub mod Threads
pub mod Current
use hermes_pi_manager.Base.{
  Bool, List, Option, false, if◌then◌else◌, none, some, suc, true, ℕ, [], ◌&&◌, ◌==◌, ◌∷◌,
}

pub data WorkerKind : Type 0 where
  outbox : WorkerKind
  wakes : WorkerKind

-- A thread that is alive, and whether its worker's `_stop` is set.
pub record Live : Type 0 where
  pub number : ℕ
  pub kind : WorkerKind
  pub told : Bool

-- The module's `_worker` and `_wake_worker`, each given by its thread, and the threads alive. A
-- worker has one thread: only the functions below start one, and each starts a new worker.
pub record Plugin : Type 0 where
  pub worker : Option ℕ
  pub wake_worker : Option ℕ
  pub live : List Live
  pub next_thread : ℕ

abbrev pub unloaded : Plugin
unloaded = record { worker = none; wake_worker = none; live = []; next_thread = 0 }

abbrev pub tell : ℕ → Live → Live
tell n l = record l { told = if l.number == n then true else l.told }

unfoldable pub tell_thread : ℕ → List Live → List Live
tell_thread n [] = []
tell_thread n (l ∷ ls) = tell n l ∷ tell_thread n ls

-- The thread of a number is gone, if its worker was told to stop.
unfoldable pub end_thread : ℕ → List Live → List Live
end_thread n [] = []
end_thread n (l ∷ ls) =
    let rest = end_thread n ls in if (l.number == n) && l.told then rest else l ∷ rest

-- `start` of a new worker.
unfoldable pub start_worker : WorkerKind → Plugin → Plugin
start_worker k p = record p {
  live = record { number = p.next_thread; kind = k; told = false } ∷ p.live;
  next_thread = suc p.next_thread;
}

-- `stop`: the thread is told to stop and waited for; `joined` is whether it ends within the timeout.
unfoldable pub stop_worker : Option ℕ → Bool → Plugin → Plugin
stop_worker none joined p = p
stop_worker (some n) joined p =
    let asked = tell_thread n p.live in
    record p { live = if joined then end_thread n asked else asked }

-- `_replace_worker`: the new outbox worker starts before the old one is stopped.
unfoldable pub replace_outbox_worker : Bool → Plugin → Plugin
replace_outbox_worker joined p =
    stop_worker p.worker joined (start_worker outbox (record p { worker = some p.next_thread }))

-- `_replace_wake_worker`: the old wake worker is stopped before the new one starts.
unfoldable pub replace_wake_worker : Bool → Plugin → Plugin
replace_wake_worker joined p =
    let stopped = stop_worker p.wake_worker joined (record p { wake_worker = none }) in
    start_worker wakes (record stopped { wake_worker = some stopped.next_thread })

-- `_stop_all_workers`.
unfoldable pub stop_all_workers : Bool → Bool → Plugin → Plugin
stop_all_workers joined wake_joined p =
    let quiet = stop_worker p.worker joined (record p { worker = none }) in
    stop_worker quiet.wake_worker wake_joined (record quiet { wake_worker = none })

-- `register_all`, on a host that takes a session key for an injection or does not.
unfoldable pub register_workers : Bool → Bool → Bool → Plugin → Plugin
register_workers supported joined wake_joined p =
    let q = replace_outbox_worker joined p in
    if supported then replace_wake_worker wake_joined q else q

-- What happens to the plugin: a registration, an unload, or the end of a thread that was told to.
pub data Happening : Type 0 where
  registers : Bool → Bool → Bool → Happening
  unloads : Bool → Bool → Happening
  ends : ℕ → Happening

abbrev pub happen : Happening → Plugin → Plugin
happen (registers supported joined wake_joined) p = register_workers supported joined wake_joined p
happen (unloads joined wake_joined) p = stop_all_workers joined wake_joined p
happen (ends n) p = record p { live = end_thread n p.live }

unfoldable pub happen_all : List Happening → Plugin → Plugin
happen_all [] p = p
happen_all (e ∷ es) p = happen_all es (happen e p)
