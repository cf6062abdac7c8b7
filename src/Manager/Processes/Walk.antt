-- ===== src/Manager/Processes/Walk.antt =====
-- core.py, the walk over the process table: it ends, and finds every descendant.

use hermes_pi_manager.Manager.Processes.{
  walk_from, Walked, has_parent, Process, children, mem, push, walk,
}
use hermes_pi_manager.Base.{
  Option-cases, sym, ap, some, ◌==◌, ◌∙◌, All, true, ◌||◌, Bool, Bool-cases, List, [], any, arith,
  false, inl, inr, is_none, keep, length, not, refl, suc, zero, ℕ, ◌++◌, ◌+◌, ◌<◌, ◌∷◌, ◌≡◌,
}
use hermes_pi_manager.Manager.Aborts.{stop}

abbrev is_open : List ℕ → Process → Bool
is_open seen p = not (mem p.parent seen)

-- The rows whose parent has not been walked.
abbrev open_rows : List ℕ → List Process → List Process
open_rows seen rows = keep (is_open seen) rows

length-push :
    (ps : List Process) (stack : List ℕ) → length (push ps stack) ≡ length ps + length stack
length-push [] stack = omega arith
length-push (p ∷ ps) stack = omega (arith, length-push ps (p.pid ∷ stack))

-- Walking a process closes exactly the rows of its children.
open_rows-children :
    (cur : ℕ) (seen : List ℕ) (rows : List Process)
    → mem cur seen ≡ false
    → length (children cur rows) + length (open_rows (cur ∷ seen) rows)
      ≡ length (open_rows seen rows)
unfolding keep any
open_rows-children cur seen [] h = refl
open_rows-children cur seen (p ∷ rows) h = ground (arith, open_rows-children cur seen rows h)

-- With more fuel than the stack and the open rows together, the walk ends.
walk-ends :
    (stop : List Process → Bool) (rows : List Process) (fuel : ℕ) (stack seen : List ℕ)
    (found : List Process)
    → length stack + length (open_rows seen rows) < fuel
    → is_none (walk stop rows fuel stack seen found) ≡ false
unfolding walk
walk-ends stop rows zero stack seen found h = absurd (omega arith)
walk-ends stop rows (suc fuel) [] seen found h = refl
walk-ends stop rows (suc fuel) (cur ∷ stack) seen found h = elim (Bool-cases (mem cur seen)) [
  | inl old ↦ rw (old, walk) (walk-ends stop rows fuel stack seen found (omega arith))
  | inr new ↦ elim (Bool-cases (stop (found ++ children cur rows))) [
    | inl enough ↦ rw (new, walk, enough) refl
    | inr more ↦
        rw (new, walk, more)
          (walk-ends stop rows fuel (push (children cur rows) stack) (cur ∷ seen)
            (found ++ children cur rows)
            (omega
              (arith, length-push (children cur rows) stack, open_rows-children cur seen rows new)))
  ]
]

abbrev pub weigh : (Process → ℕ) → List Process → ℕ
weigh f [] = 0
weigh f (p ∷ ps) = f p + weigh f ps

-- The rows whose parent has been walked.
abbrev pub closed_rows : List ℕ → List Process → List Process
closed_rows seen rows = keep (λ p. mem p.parent seen) rows

weigh-append :
    (f : Process → ℕ) (ps qs : List Process) → weigh f (ps ++ qs) ≡ weigh f ps + weigh f qs
weigh-append f [] qs = omega arith
weigh-append f (p ∷ ps) qs = omega (arith, weigh-append f ps qs)

closed_rows-children :
    (f : Process → ℕ) (cur : ℕ) (seen : List ℕ) (rows : List Process)
    → mem cur seen ≡ false
    → weigh f (closed_rows seen rows) + weigh f (children cur rows)
      ≡ weigh f (closed_rows (cur ∷ seen) rows)
unfolding keep any
closed_rows-children f cur seen [] h = refl
closed_rows-children f cur seen (p ∷ rows) h =
    ground (arith, closed_rows-children f cur seen rows h)

-- A process that is seen, or is still on the stack.
abbrev IsKnown : List ℕ → List ℕ → ℕ → Type 0
IsKnown seen stack n = mem n seen || mem n stack ≡ true

-- The children of every walked process are known.
abbrev IsClosed : List Process → List ℕ → List ℕ → Type 0
IsClosed rows seen stack = All (λ p. mem p.parent seen ≡ true → IsKnown seen stack p.pid) rows

mem-push :
    (n : ℕ) (ps : List Process) (stack : List ℕ) → mem n stack ≡ true → mem n (push ps stack) ≡ true
unfolding any
mem-push n [] stack h = h
mem-push n (p ∷ ps) stack h = mem-push n ps (p.pid ∷ stack) (ground arith)

children-hit :
    (cur : ℕ) (p : Process) (rows : List Process)
    → has_parent cur p ≡ true
    → children cur (p ∷ rows) ≡ p ∷ children cur rows
unfolding keep
children-hit cur p rows h = ground arith

children-miss :
    (cur : ℕ) (p : Process) (rows : List Process)
    → has_parent cur p ≡ false
    → children cur (p ∷ rows) ≡ children cur rows
unfolding keep
children-miss cur p rows h = ground arith

-- The children of a process are on every stack that has those that are pushed.
children_pushed :
    (cur : ℕ) (rows : List Process) (stack onto : List ℕ)
    → ((n : ℕ) → mem n (push (children cur rows) stack) ≡ true → mem n onto ≡ true)
    → All (λ p. has_parent cur p ≡ true → mem p.pid onto ≡ true) rows
unfolding any
children_pushed cur [] stack onto keeps = tt
children_pushed cur (p ∷ rows) stack onto keeps = elim (Bool-cases (has_parent cur p)) [
  | inl hit ↦
      let later : (n : ℕ)
          → mem n (push (children cur rows) (p.pid ∷ stack)) ≡ true
          → mem n onto ≡ true =
        λ n m. keeps n (rw (children-hit cur p rows hit) m) in
      (
        λ e. later p.pid (mem-push p.pid (children cur rows) (p.pid ∷ stack) (ground arith)),
        children_pushed cur rows (p.pid ∷ stack) onto later,
      )
  | inr miss ↦ (
    λ e. absurd (ground arith),
    children_pushed cur rows stack onto (λ n m. keeps n (rw (children-miss cur p rows miss) m)),
  )
]

-- A walk of one process keeps the rows closed.
IsClosed-walk :
    (cur : ℕ) (seen stack onto : List ℕ) (rows : List Process)
    → ((n : ℕ) → mem n stack ≡ true → mem n onto ≡ true)
    → All (λ p. has_parent cur p ≡ true → mem p.pid onto ≡ true) rows
    → IsClosed rows seen (cur ∷ stack)
    → IsClosed rows (cur ∷ seen) onto
unfolding any
IsClosed-walk cur seen stack onto [] keeps pushed h = tt
IsClosed-walk cur seen stack onto (p ∷ rows) keeps (new, news) (old, olds) = (
  λ e. ground (arith, keeps p.pid, new, old),
  IsClosed-walk cur seen stack onto rows keeps news olds,
)

IsKnown-skip :
    (cur n : ℕ) (seen stack : List ℕ)
    → mem cur seen ≡ true
    → IsKnown seen (cur ∷ stack) n
    → IsKnown seen stack n
unfolding any
IsKnown-skip cur n seen stack hit k =
    let same : (cur == n) ≡ true → mem n seen ≡ true =
      λ q. let eq : n ≡ cur = ground arith in ap (λ m. mem m seen) eq ∙ hit in
    ground (arith, k, same)

IsClosed-skip :
    (cur : ℕ) (seen stack : List ℕ) (rows : List Process)
    → mem cur seen ≡ true
    → IsClosed rows seen (cur ∷ stack)
    → IsClosed rows seen stack
unfolding any
IsClosed-skip cur seen stack [] hit h = tt
IsClosed-skip cur seen stack (p ∷ rows) hit (old, olds) =
    (λ e. IsKnown-skip cur p.pid seen stack hit (old e), IsClosed-skip cur seen stack rows hit olds)

-- What a finished walk has done, seen from its state before.
record Finished (rows : List Process) (w : Walked) (seen stack : List ℕ) : Type 0 where
  pub closed : IsClosed rows w.seen []
  pub kept : (n : ℕ) → IsKnown seen stack n → mem n w.seen ≡ true
  pub weight : (f : Process → ℕ) → weigh f w.found ≡ weigh f (closed_rows w.seen rows)

walk-Finished :
    (rows : List Process) (fuel : ℕ) (stack seen : List ℕ) (found : List Process) (w : Walked)
    → walk (λ found. false) rows fuel stack seen found ≡ some w
    → IsClosed rows seen stack
    → ((f : Process → ℕ) → weigh f found ≡ weigh f (closed_rows seen rows))
    → Finished rows w seen stack
unfolding walk any
walk-Finished rows zero stack seen found w h c e = absurd (ground arith)
walk-Finished rows (suc fuel) [] seen found w h c e =
    let same : record { seen = seen; found = found } ≡ w = cc h in
    rw (sym same) (record { closed = c; kept = λ n k. ground (arith, k); weight = e })
walk-Finished rows (suc fuel) (cur ∷ stack) seen found w h c e = elim (Bool-cases (mem cur seen)) [
  | inl old ↦
      let rest : walk (λ found. false) rows fuel stack seen found ≡ some w = ground arith in
      let f =
        walk-Finished rows fuel stack seen found w rest (IsClosed-skip cur seen stack rows old c)
          e in
      record {
        closed = f.closed;
        kept = λ n k. f.kept n (IsKnown-skip cur n seen stack old k);
        weight = f.weight;
      }
  | inr new ↦
      let kids = children cur rows in
      let onto = push kids stack in
      let rest : walk (λ found. false) rows fuel onto (cur ∷ seen) (found ++ kids) ≡ some w =
        ground arith in
      let f =
        walk-Finished rows fuel onto (cur ∷ seen) (found ++ kids) w rest
          (IsClosed-walk cur seen stack onto rows (λ n. mem-push n kids stack)
            (children_pushed cur rows stack onto (λ n m. m)) c)
          (λ g.
            weigh-append g found kids
            ∙ ap (λ n. n + weigh g kids) (e g)
            ∙ closed_rows-children g cur seen rows new) in
      record {
        closed = f.closed;
        kept = λ n k. f.kept n (ground (arith, k, mem-push n kids stack));
        weight = f.weight;
      }
]

weigh-none : (f : Process → ℕ) (rows : List Process) → 0 ≡ weigh f (closed_rows [] rows)
unfolding keep any
weigh-none f [] = refl
weigh-none f (p ∷ rows) = weigh-none f rows

IsClosed-none : (stack : List ℕ) (rows : List Process) → IsClosed rows [] stack
unfolding any
IsClosed-none stack [] = tt
IsClosed-none stack (p ∷ rows) = (λ e. absurd (ground arith), IsClosed-none stack rows)

open_rows-none : (rows : List Process) → length (open_rows [] rows) ≡ length rows
unfolding keep any
open_rows-none [] = refl
open_rows-none (p ∷ rows) = ap suc (open_rows-none rows)

closed_end :
    (seen : List ℕ) (rows : List Process)
    → IsClosed rows seen []
    → All (λ p. mem p.parent seen ≡ true → mem p.pid seen ≡ true) rows
unfolding any
closed_end seen [] h = tt
closed_end seen (p ∷ rows) (h, hs) = (λ e. ground (arith, h e), closed_end seen rows hs)

-- The walk from a process ends on every table, one with cycles too. It has seen the process and, with
-- every process that it has seen, all children of that process; and any sum over the rows that it
-- found is the sum over the rows whose parent it has seen, so that no row is counted twice.
pub walk_from_lem :
    (rows : List Process) (root : ℕ) (f : Process → ℕ)
    → (w : Walked) × ((walk_from (λ found. false) rows root ≡ some w)
        × ((mem root w.seen ≡ true)
            × (All (λ p. mem p.parent w.seen ≡ true → mem p.pid w.seen ≡ true) rows
                × (weigh f w.found ≡ weigh f (closed_rows w.seen rows)))))
unfolding any
walk_from_lem rows root f =
    let result = walk_from (λ found. false) rows root in
    let ends : is_none result ≡ false =
      walk-ends (λ found. false) rows (suc (suc (length rows))) (root ∷ []) [] []
        (omega (arith, open_rows-none rows)) in
    elim (Option-cases result) [
      | inl e ↦ absurd (ground arith)
      | inr (w, e) ↦
          let done =
            walk-Finished rows (suc (suc (length rows))) (root ∷ []) [] [] w e
              (IsClosed-none (root ∷ []) rows) (λ g. weigh-none g rows) in
          (
            w,
            (
              e,
              (done.kept root (ground arith), (closed_end w.seen rows done.closed, done.weight f)),
            ),
          )
    ]
