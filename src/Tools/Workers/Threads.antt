-- ===== src/Tools/Workers/Threads.antt =====
-- tools.py: the worker threads that go on and those told to stop, under a stop and under an end.
use hermes_pi_manager.Tools.Workers.{
  WorkerKind, outbox, wakes, Live, Plugin, tell_thread, end_thread, stop_worker,
}
use hermes_pi_manager.Base.{
  ℕ, ◌+◌, ◌≤◌, ◌≡◌, refl, Bool, true, false, not, List, [], ◌∷◌, Option, none, some, suc,
  if◌then◌else◌, ◌&&◌, ◌==◌, arith, length, ◌-◌, ◌∙◌,
}

abbrev pub same_kind : WorkerKind → WorkerKind → Bool
same_kind outbox outbox = true
same_kind wakes wakes = true
same_kind _ _ = false

-- The threads of a kind that go on, since no one has told them to stop.
abbrev pub going_on : WorkerKind → List Live → List ℕ
going_on k [] = []
going_on k (l ∷ ls) =
    let rest = going_on k ls in if same_kind k l.kind && not l.told then l.number ∷ rest else rest

-- The threads of a kind that were told to stop and are still alive.
abbrev pub told_count : WorkerKind → List Live → ℕ
told_count k [] = 0
told_count k (l ∷ ls) =
    let rest = told_count k ls in if same_kind k l.kind && l.told then suc rest else rest

abbrev pub to_list : Option ℕ → List ℕ
to_list none = []
to_list (some n) = n ∷ []

abbrev without : ℕ → List ℕ → List ℕ
without n [] = []
without n (m ∷ ms) = let rest = without n ms in if m == n then rest else m ∷ rest

going_on-tell_thread :
    (k : WorkerKind) (n : ℕ) (ls : List Live)
    → going_on k (tell_thread n ls) ≡ without n (going_on k ls)
unfolding tell_thread
going_on-tell_thread k n [] = refl
going_on-tell_thread k n (l ∷ ls) = ground (arith, going_on-tell_thread k n ls)

pub going_on-end_thread :
    (k : WorkerKind) (n : ℕ) (ls : List Live) → going_on k (end_thread n ls) ≡ going_on k ls
unfolding end_thread
going_on-end_thread k n [] = refl
going_on-end_thread k n (l ∷ ls) = ground (arith, going_on-end_thread k n ls)

told_count-tell_thread :
    (k : WorkerKind) (n : ℕ) (ls : List Live)
    → told_count k (tell_thread n ls) + length (going_on k (tell_thread n ls))
      ≡ told_count k ls + length (going_on k ls)
unfolding tell_thread
told_count-tell_thread k n [] = refl
told_count-tell_thread k n (l ∷ ls) = ground (arith, told_count-tell_thread k n ls)

pub told_count-end_thread :
    (k : WorkerKind) (n : ℕ) (ls : List Live) → told_count k (end_thread n ls) ≤ told_count k ls
unfolding end_thread
told_count-end_thread k n [] = omega arith
told_count-end_thread k n (l ∷ ls) = ground (arith, told_count-end_thread k n ls)

-- A thread that is told and then ends leaves no thread of a kind behind.
told_count-end_told :
    (k : WorkerKind) (n : ℕ) (ls : List Live)
    → told_count k (end_thread n (tell_thread n ls)) ≤ told_count k ls
unfolding end_thread tell_thread
told_count-end_told k n [] = omega arith
told_count-end_told k n (l ∷ ls) = ground (arith, told_count-end_told k n ls)

abbrev without_any : Option ℕ → List ℕ → List ℕ
without_any none ms = ms
without_any (some n) ms = without n ms

-- A stop takes the worker's thread off those that go on, and leaves one behind at most if it was
-- not joined.
pub going_on-stop_worker :
    (k : WorkerKind) (o : Option ℕ) (joined : Bool) (p : Plugin)
    → going_on k (stop_worker o joined p).live ≡ without_any o (going_on k p.live)
unfolding stop_worker
going_on-stop_worker k none joined p = refl
going_on-stop_worker k (some n) true p =
    going_on-end_thread k n (tell_thread n p.live) ∙ going_on-tell_thread k n p.live
going_on-stop_worker k (some n) false p = going_on-tell_thread k n p.live

pub told_count-stop_worker :
    (k : WorkerKind) (o : Option ℕ) (joined : Bool) (p : Plugin)
    → let q = stop_worker o joined p in
      told_count k q.live
      ≤ told_count k p.live
        + (if joined then 0 else length (going_on k p.live) - length (going_on k q.live))
unfolding stop_worker
told_count-stop_worker k none joined p = ground arith
told_count-stop_worker k (some n) true p = ground (arith, told_count-end_told k n p.live)
told_count-stop_worker k (some n) false p = ground (arith, told_count-tell_thread k n p.live)

pub stop_worker-fields :
    (o : Option ℕ) (joined : Bool) (p : Plugin)
    → let q = stop_worker o joined p in
      (q.worker ≡ p.worker) × (q.wake_worker ≡ p.wake_worker) × (q.next_thread ≡ p.next_thread)
unfolding stop_worker
stop_worker-fields none joined p = (refl, refl, refl)
stop_worker-fields (some n) joined p = (refl, refl, refl)
