-- ===== src/Manager/Processes/Clock.antt =====
-- core.py, `secs`: how the CPU times of the process table are read.
use hermes_pi_manager.Manager.Processes.{
  by_days, by_hours, Numbers, cut_at, head_time, int_or_zero, secs, times,
}
use hermes_pi_manager.Base.{
  ap, Option, Text, [], any, arith, false, get_or, has_colon, none, refl, some, split_last-colon, ℕ,
  ◌++◌, ◌==◌, ◌∙◌, ◌∷◌, ◌≡◌,
}

cut_at-append :
    (c : ℕ) (s u : Text) → any (λ d. d == c) s ≡ false → cut_at c (s ++ (c ∷ u)) ≡ some (s, u)
unfolding any
cut_at-append c [] u h = ground arith
cut_at-append c (d ∷ s) u h = ground (arith, cut_at-append c s u)

cut_at-none : (c : ℕ) (s : Text) → any (λ d. d == c) s ≡ false → cut_at c s ≡ none
unfolding any
cut_at-none c [] h = refl
cut_at-none c (d ∷ s) h = ground (arith, cut_at-none c s)

secs-head :
    (num : Numbers) (head sec : Text)
    → has_colon sec ≡ false
    → secs num (head ++ (b':' ∷ sec)) ≡ get_or (head_time num head (num.to_ms sec)) 0
unfolding secs
secs-head num head sec h = rw (split_last-colon head sec h) refl

times-none : (days sec : Option ℕ) → get_or (times days 86400000 (times none 3600000 sec)) 0 ≡ 0
times-none none sec = refl
times-none (some n) sec = refl

any-append :
    (s u : Text)
    → any (λ d. d == b'-') s ≡ false
    → any (λ d. d == b'-') u ≡ false
    → any (λ d. d == b'-') (s ++ (b':' ∷ u)) ≡ false
unfolding any
any-append [] u hs hu = ground (arith, hu)
any-append (c ∷ s) u hs hu = ground (arith, any-append s u)

-- The time behind `days-` is read as one number of hours. A text with hours and minutes there is no
-- number, so that a process with a day of CPU time or more reads as 0.
pub secs-days :
    (num : Numbers) (days sec : Text) (c : ℕ) (hours : Text)
    → has_colon sec ≡ false
    → any (λ d. d == b'-') days ≡ false
    → num.to_int (c ∷ hours) ≡ none
    → secs num ((days ++ (b'-' ∷ c ∷ hours)) ++ (b':' ∷ sec)) ≡ 0
secs-days num days sec c hours hs hd hh =
    secs-head num (days ++ (b'-' ∷ c ∷ hours)) sec hs
    ∙ ap (λ o. get_or (by_days num (days ++ (b'-' ∷ c ∷ hours)) (num.to_ms sec) o) 0)
        (cut_at-append b'-' days (c ∷ hours) hd)
    ∙ rw hh (times-none (num.to_int days) (num.to_ms sec))

-- Times below a day are read as minutes and seconds, or as hours, minutes and seconds.
pub secs_lem :
    (num : Numbers) (hours minutes sec : Text)
    → has_colon sec ≡ false
    → any (λ d. d == b'-') hours ≡ false
    → any (λ d. d == b'-') minutes ≡ false
    → any (λ d. d == b':') hours ≡ false
    → any (λ d. d == b':') minutes ≡ false
    → (secs num (minutes ++ (b':' ∷ sec))
        ≡ get_or (times (int_or_zero num minutes) 60000 (num.to_ms sec)) 0)
      × (secs num ((hours ++ (b':' ∷ minutes)) ++ (b':' ∷ sec))
          ≡ get_or
              (times (num.to_int hours) 3600000 (times (num.to_int minutes) 60000 (num.to_ms sec)))
              0)
secs_lem num hours minutes sec hs hd md hc mc = (
  secs-head num minutes sec hs
      ∙ ap (λ o. get_or (by_days num minutes (num.to_ms sec) o) 0) (cut_at-none b'-' minutes md)
      ∙ ap (λ o. get_or (by_hours num minutes (num.to_ms sec) o) 0) (cut_at-none b':' minutes mc),
  secs-head num (hours ++ (b':' ∷ minutes)) sec hs
      ∙ ap (λ o. get_or (by_days num (hours ++ (b':' ∷ minutes)) (num.to_ms sec) o) 0)
          (cut_at-none b'-' (hours ++ (b':' ∷ minutes)) (any-append hours minutes hd md))
      ∙ ap (λ o. get_or (by_hours num (hours ++ (b':' ∷ minutes)) (num.to_ms sec) o) 0)
          (cut_at-append b':' hours minutes hc),
)
