-- ===== src/Manager/Shutdown.antt =====
-- core.py: `shutdown`. The joins of the watchdog threads are left out.

use hermes_pi_manager.Manager.State.{Manager, Runtime, start_watchdog}
use hermes_pi_manager.Manager.Aborts.{stop}
use hermes_pi_manager.Base.{ap, Bool, List, Text, [], all, map, refl, true, ◌∷◌, ◌≡◌}

abbrev stop_all : List Runtime → List Runtime
stop_all rts = map stop rts

unfoldable pub shutdown : Manager → Manager
shutdown m = record m { shutting_down = true; runtimes = stop_all m.runtimes }

abbrev is_stopped : Runtime → Bool
is_stopped rt = rt.stop_watchdog

all-stop_all : (rts : List Runtime) → all is_stopped (stop_all rts) ≡ true
unfolding all
all-stop_all [] = refl
all-stop_all (rt ∷ rts) = all-stop_all rts

stop_all-twice : (rts : List Runtime) → stop_all (stop_all rts) ≡ stop_all rts
stop_all-twice [] = refl
stop_all-twice (rt ∷ rts) = ap (◌∷◌ (stop rt)) (stop_all-twice rts)

-- After a shutdown every watchdog is told to stop, no later start of a watchdog has any effect, a
-- second shutdown changes nothing, and the registry is as before.
pub shutdown_lem :
    (m : Manager) (tid : Text)
    → (all is_stopped (shutdown m).runtimes ≡ true)
      × (start_watchdog tid (shutdown m) ≡ shutdown m)
      × (shutdown (shutdown m) ≡ shutdown m)
      × ((shutdown m).registry ≡ m.registry)
unfolding shutdown start_watchdog
shutdown_lem m tid = (
  all-stop_all m.runtimes,
  refl,
  ap (λ rts. record m { shutting_down = true; runtimes = rts }) (stop_all-twice m.runtimes),
  refl,
)
