-- ===== src/Scenarios/Processes.antt =====
-- Examples of the theorems on the process table: two processes that are each other's parents.

use hermes_pi_manager.Manager.Processes.{Numbers, Process, Walked, mem, secs, walk, walk_from}
use hermes_pi_manager.Manager.Processes.Walk.{closed_rows, walk_from_lem, weigh}
use hermes_pi_manager.Manager.Processes.Clock.{secs-days}
use hermes_pi_manager.Base.{
  has_colon, All, List, [], any, false, keep, none, refl, some, split_last, text, true, ℕ, ◌-◌, ◌∷◌,
  ◌≡◌,
}

abbrev row : ℕ → ℕ → Process
row pid parent = record { pid = pid; parent = parent; elapsed = []; cpu_time = []; command = [] }

abbrev cyclic : List Process
cyclic = row 2 1 ∷ row 1 2 ∷ row 9 8 ∷ []

abbrev one : Process → ℕ
one p = 1

walk_from_lem_example :
    (w : Walked) × ((walk_from (λ found. false) cyclic 1 ≡ some w)
      × ((mem 1 w.seen ≡ true)
          × (All (λ p. mem p.parent w.seen ≡ true → mem p.pid w.seen ≡ true) cyclic
              × (weigh one w.found ≡ weigh one (closed_rows w.seen cyclic)))))
walk_from_lem_example = walk_from_lem cyclic 1 one

-- What that walk finds.
walked_cycle :
    walk_from (λ found. false) cyclic 1
    ≡ some (record { seen = 2 ∷ 1 ∷ []; found = row 2 1 ∷ row 1 2 ∷ [] })
unfolding walk keep any
walked_cycle = refl

-- Numbers of one digit.
abbrev digits_only : Numbers
digits_only = record {
  to_int = λ s. elim s [ c ∷ [] ↦ some (c - b'0') | _ ↦ none ];
  to_ms = λ s. some 1000;
}

secs-days_example : secs digits_only (text "1-02:03:04") ≡ 0
unfolding has_colon any
secs-days_example = secs-days digits_only (text "1") (text "04") b'0' (text "2:03") refl refl refl

-- A time of minutes and seconds.
secs_of_minutes : secs digits_only (text "2:04") ≡ 121000
unfolding secs split_last any
secs_of_minutes = refl
