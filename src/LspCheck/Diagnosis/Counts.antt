-- ===== src/LspCheck/Diagnosis/Counts.antt =====
-- lsp_check.py, what the result of `run` counts.
use hermes_pi_manager.LspCheck.{collect_touched_files, Workspace}
use hermes_pi_manager.Base.Json.{Python}
use hermes_pi_manager.LspCheck.Diagnosis.{
  run_on, has_live_server, if_checked, run, diagnosed, scan, visit, count, count_each, Diagnostic,
  Scan, Service, finding, is_error, is_warning, max_reported, relative,
}
use hermes_pi_manager.Base.{
  Bool-cases, false, inl, inr, true, ◌||◌, ◌∙◌, ap, arith, ltb, refl, suc, sym, zero, Bool, List,
  Option, Text, [], if◌then◌else◌, keep, leb, length, map, none, some, take, ℕ, ◌++◌, ◌+◌, ◌-◌, ◌∷◌,
  ◌≡◌,
}

-- The files reached before the deadline.
abbrev pub reached : Service → ℕ → List Text → List Text
reached svc deadline [] = []
reached svc deadline (path ∷ paths) =
    if leb deadline (svc.now path) then [] else path ∷ reached svc deadline paths

abbrev total : (Text → ℕ) → List Text → ℕ
total f [] = 0
total f (path ∷ paths) = f path + total f paths

abbrev all_of : (Text → List Text) → List Text → List Text
all_of f [] = []
all_of f (path ∷ paths) = f path ++ all_of f paths

-- One for a file that could be checked, and the diagnostics of a test among a file's.
abbrev was_checked : Option (List Diagnostic) → ℕ
was_checked none = 0
was_checked (some ds) = 1

abbrev matching : (Diagnostic → Bool) → Option (List Diagnostic) → ℕ
matching p none = 0
matching p (some ds) = length (keep p ds)

abbrev reports : Python → Text → Option (List Diagnostic) → List Text
reports py rel none = []
reports py rel (some ds) = map (finding py rel) (keep is_error ds)

abbrev counts : ℕ → ℕ → ℕ → ℕ → List Text → Bool → Scan
counts a e n u quotes cut = record {
  files = a;
  errors = e;
  warnings = n;
  unavailable = u;
  findings = take max_reported quotes;
  truncated = cut;
}

-- The result that the files `paths` make, by their diagnostics.
abbrev pub tally :
    Python → Workspace → Option Text → (Text → Option (List Diagnostic)) → List Text → Bool → Scan
tally py w cwd diags paths cut =
    counts (total (λ p. was_checked (diags p)) paths)
      (total (λ p. matching is_error (diags p)) paths)
      (total (λ p. matching is_warning (diags p)) paths)
      (total (λ p. 1 - was_checked (diags p)) paths)
      (all_of (λ p. reports py (relative w cwd p) (diags p)) paths) cut

counts-cong :
    (a b e f n o u v : ℕ) (xs ys : List Text) (cut : Bool)
    → a ≡ b
    → e ≡ f
    → n ≡ o
    → u ≡ v
    → xs ≡ ys
    → counts a e n u xs cut ≡ counts b f o v ys cut
counts-cong a b e f n o u v xs ys cut ha he hn hu hx = rw (ha, he, hn, hu, hx) refl

take-grow :
    (n : ℕ) (xs : List Text) (x : Text)
    → (if ltb (length (take n xs)) n then take n xs ++ x ∷ [] else take n xs)
      ≡ take n (xs ++ x ∷ [])
take-grow zero xs x = refl
take-grow (suc zero) [] x = refl
take-grow (suc (suc n)) [] x = ground arith
take-grow (suc n) (y ∷ xs) x = ground (arith, take-grow n xs x)

append_assoc : (xs ys zs : List Text) → (xs ++ ys) ++ zs ≡ xs ++ (ys ++ zs)
append_assoc [] ys zs = refl
append_assoc (x ∷ xs) ys zs = ap (◌∷◌ x) (append_assoc xs ys zs)

append_none : (xs : List Text) → xs ++ [] ≡ xs
append_none [] = refl
append_none (x ∷ xs) = ap (◌∷◌ x) (append_none xs)

module _ (py : Python) (rel : Text) where
  count-counts :
      (d : Diagnostic) (a e n u : ℕ) (xs : List Text) (cut : Bool)
      → count py rel d (counts a e n u xs cut)
        ≡ counts a
            (e + length (keep is_error (d ∷ [])))
            (n + length (keep is_warning (d ∷ [])))
            u
            (xs ++ map (finding py rel) (keep is_error (d ∷ [])))
            cut
  unfolding count keep
  count-counts d a e n u xs cut =
      ground (arith, append_none xs, take-grow max_reported xs (finding py rel d))

  count_each-counts :
      (ds : List Diagnostic) (a e n u : ℕ) (xs : List Text) (cut : Bool)
      → count_each py rel ds (counts a e n u xs cut)
        ≡ counts a
            (e + length (keep is_error ds))
            (n + length (keep is_warning ds))
            u
            (xs ++ map (finding py rel) (keep is_error ds))
            cut
  unfolding count_each keep
  count_each-counts [] a e n u xs cut =
      counts-cong a a e (e + 0) n (n + 0) u u xs (xs ++ []) cut refl (omega arith) (omega arith)
        refl (sym (append_none xs))
  count_each-counts (d ∷ ds) a e n u xs cut =
      let e' = e + length (keep is_error (d ∷ [])) in
      let n' = n + length (keep is_warning (d ∷ [])) in
      let xs' = xs ++ map (finding py rel) (keep is_error (d ∷ [])) in
      rw (count-counts d a e n u xs cut) (
        count_each-counts ds a e' n' u xs' cut
        ∙ counts-cong a a (e' + length (keep is_error ds)) (e + length (keep is_error (d ∷ ds)))
            (n' + length (keep is_warning ds)) (n + length (keep is_warning (d ∷ ds))) u u
            (xs' ++ map (finding py rel) (keep is_error ds))
            (xs ++ map (finding py rel) (keep is_error (d ∷ ds))) cut refl (ground arith)
            (ground arith) refl
            (append_assoc xs (map (finding py rel) (keep is_error (d ∷ [])))
                (map (finding py rel) (keep is_error ds))
              ∙ ap (◌++◌ xs) (ground arith)))

  visit-counts :
      (o : Option (List Diagnostic)) (a e n u : ℕ) (xs : List Text) (cut : Bool)
      → visit py rel o (counts a e n u xs cut)
        ≡ counts
            (a + was_checked o)
            (e + matching is_error o)
            (n + matching is_warning o)
            (u + (1 - was_checked o))
            (xs ++ reports py rel o)
            cut
  unfolding visit
  visit-counts none a e n u xs cut =
      counts-cong a (a + 0) e (e + 0) n (n + 0) (suc u) (u + 1) xs (xs ++ []) cut (omega arith)
        (omega arith) (omega arith) (omega arith) (sym (append_none xs))
  visit-counts (some ds) a e n u xs cut =
      count_each-counts ds (suc a) e n u xs cut
      ∙ counts-cong (suc a) (a + 1) (e + length (keep is_error ds)) (e + length (keep is_error ds))
          (n + length (keep is_warning ds)) (n + length (keep is_warning ds)) u (u + 0)
          (xs ++ map (finding py rel) (keep is_error ds))
          (xs ++ map (finding py rel) (keep is_error ds)) cut (omega arith) refl refl (omega arith)
          refl

module _ (py : Python) (w : Workspace) (svc : Service) (cwd : Option Text) (deadline : ℕ) where
  abbrev found : Text → List Text
  found p = reports py (relative w cwd p) (diagnosed svc deadline p)

  abbrev sum : (Option (List Diagnostic) → ℕ) → List Text → ℕ
  sum f paths = total (λ p. f (diagnosed svc deadline p)) paths

  -- Whether the deadline comes before the last file.
  abbrev pub cut_off : List Text → Bool
  cut_off [] = false
  cut_off (path ∷ paths) = leb deadline (svc.now path) || cut_off paths

  scan-counts :
      (paths : List Text) (a e n u : ℕ) (xs : List Text)
      → let hit = reached svc deadline paths in
        scan py w svc cwd deadline paths (counts a e n u xs false)
        ≡ counts
            (a + sum was_checked hit)
            (e + sum (matching is_error) hit)
            (n + sum (matching is_warning) hit)
            (u + sum (λ o. 1 - was_checked o) hit)
            (xs ++ all_of found hit)
            (cut_off paths)
  unfolding scan
  scan-counts [] a e n u xs =
      counts-cong a (a + 0) e (e + 0) n (n + 0) u (u + 0) xs (xs ++ []) false (omega arith)
        (omega arith) (omega arith) (omega arith) (sym (append_none xs))
  scan-counts (path ∷ paths) a e n u xs = elim (Bool-cases (leb deadline (svc.now path))) [
    | inl late ↦
        rw (late, scan)
          (counts-cong a (a + 0) e (e + 0) n (n + 0) u (u + 0) xs (xs ++ []) true (omega arith)
            (omega arith) (omega arith) (omega arith) (sym (append_none xs)))
    | inr early ↦
        let o = diagnosed svc deadline path in
        let hit = reached svc deadline paths in
        rw (early, scan, visit-counts py (relative w cwd path) o a e n u xs false)
          (scan-counts paths (a + was_checked o) (e + matching is_error o)
              (n + matching is_warning o) (u + (1 - was_checked o)) (xs ++ found path)
            ∙ counts-cong (a + was_checked o + sum was_checked hit)
                (a + (was_checked o + sum was_checked hit))
                (e + matching is_error o + sum (matching is_error) hit)
                (e + (matching is_error o + sum (matching is_error) hit))
                (n + matching is_warning o + sum (matching is_warning) hit)
                (n + (matching is_warning o + sum (matching is_warning) hit))
                (u + (1 - was_checked o) + sum (λ o. 1 - was_checked o) hit)
                (u + ((1 - was_checked o) + sum (λ o. 1 - was_checked o) hit))
                ((xs ++ found path) ++ all_of found hit) (xs ++ (found path ++ all_of found hit))
                (cut_off paths) (omega arith) (omega arith) (omega arith) (omega arith)
                (append_assoc xs (found path) (all_of found hit)))
  ]

run_on_lem :
    (py : Python) (w : Workspace) (svc : Service) (cwd : Option Text) (deadline : ℕ)
    (files : List Text)
    → run_on py w svc cwd deadline files
      ≡ if_checked (
          tally py w cwd
            (diagnosed svc deadline)
            (reached svc deadline files)
            (cut_off py w svc cwd deadline files))
run_on_lem py w svc cwd deadline [] = refl
run_on_lem py w svc cwd deadline (path ∷ paths) =
    let hit = reached svc deadline (path ∷ paths) in
    ground (arith, ap if_checked (scan-counts py w svc cwd deadline (path ∷ paths) 0 0 0 0 []))

-- The result of a run on a service, if at least one file could be checked, counts the files before
-- the deadline: those that could be checked and those that could not, and all errors and warnings of
-- the former; it quotes the first five errors and is marked as cut off exactly if the deadline came
-- before the last file.
pub run_lem :
    (py : Python) (w : Workspace) (svc : Service) (cwd : Option Text) (limit budget start : ℕ)
    → let files = collect_touched_files py w cwd limit in
      let deadline = start + budget in
      run py w (some svc) cwd limit budget start
      ≡ if_checked (
          tally py w cwd
            (diagnosed svc deadline)
            (reached svc deadline files)
            (cut_off py w svc cwd deadline files))
unfolding run
run_lem py w svc cwd limit budget start =
    run_on_lem py w svc cwd (start + budget) (collect_touched_files py w cwd limit)

-- A file without diagnostics counts as checked only if the service serves it and a running client
-- answers for it.
pub diagnosed-silent :
    (svc : Service) (deadline : ℕ) (path : Text)
    → diagnosed svc deadline path ≡ some []
    → (svc.enabled_for path ≡ some true) × (has_live_server svc path ≡ true)
unfolding diagnosed
diagnosed-silent svc deadline path h = ground arith
