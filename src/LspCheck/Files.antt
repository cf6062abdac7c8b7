-- ===== src/LspCheck/Files.antt =====
-- lsp_check.py, `collect_touched_files` against its description: the first `limit` distinct paths of
-- the supported names that are files.

use hermes_pi_manager.Base.Json.{Python}
use hermes_pi_manager.LspCheck.{
  collect_touched_files, touched_names, Workspace, collect, is_supported, offered, path_of,
}
use hermes_pi_manager.Base.{
  Option, length-take-le, ◌≤◌, Bool-cases, false, leb, length-append, suc, sym, zero, ◌∙◌, Bool,
  List, Text, [], ap, arith, if◌then◌else◌, inl, inr, keep, length, mem_text, none, not, refl, some,
  take, text_eq, text_eq_iff, true, ℕ, ◌&&◌, ◌++◌, ◌-◌, ◌<◌, ◌||◌, ◌∷◌, ◌≡◌,
}

abbrev unlike : Text → Text → Bool
unlike x y = not (text_eq x y)

-- Every path once, where it comes up first.
abbrev distinct : List Text → List Text
distinct [] = []
distinct (x ∷ xs) = x ∷ keep (unlike x) (distinct xs)

-- The paths of the supported names that are files, in the order of the names.
abbrev candidates : Python → Workspace → Text → List Text → List Text
candidates py w cwd [] = []
candidates py w cwd (name ∷ names) =
    if is_supported py name && w.is_file (path_of w cwd name)
    then path_of w cwd name ∷ candidates py w cwd names
    else candidates py w cwd names

abbrev unlisted : List Text → Text → Bool
unlisted out y = not (mem_text y out)

mem_text-append :
    (y x : Text) (out : List Text) → mem_text y (out ++ x ∷ []) ≡ (mem_text y out || text_eq x y)
unfolding mem_text
mem_text-append y x [] = ground arith
mem_text-append y x (z ∷ out) = ground (arith, mem_text-append y x out)

keep-keep-unlike :
    (out : List Text) (x : Text) (ys : List Text)
    → keep (unlisted out) (keep (unlike x) ys) ≡ keep (unlisted (out ++ x ∷ [])) ys
unfolding keep
keep-keep-unlike out x [] = refl
keep-keep-unlike out x (y ∷ ys) = ground (arith, mem_text-append y x out, keep-keep-unlike out x ys)

keep-keep_listed :
    (out : List Text) (x : Text) (ys : List Text)
    → mem_text x out ≡ true
    → keep (unlisted out) (keep (unlike x) ys) ≡ keep (unlisted out) ys
unfolding keep
keep-keep_listed out x [] h = refl
keep-keep_listed out x (y ∷ ys) h = ground (arith, text_eq_iff x y, keep-keep_listed out x ys h)

-- What is still to be listed behind `out`.
abbrev fresh : Python → Workspace → Text → List Text → List Text → List Text
fresh py w cwd out names = keep (unlisted out) (distinct (candidates py w cwd names))

fresh_of_offered :
    (py : Python) (w : Workspace) (cwd name : Text) (out names : List Text)
    → fresh py w cwd out (name ∷ names) ≡ elim (offered py w cwd name out) [
      | none ↦ fresh py w cwd out names
      | some path ↦ path ∷ fresh py w cwd (out ++ path ∷ []) names
    ]
unfolding keep
fresh_of_offered py w cwd name out names =
    let path = path_of w cwd name in
    let rest = distinct (candidates py w cwd names) in
    ground (arith, keep-keep-unlike out path rest, keep-keep_listed out path rest)

append_one : (out : List Text) (x : Text) (ys : List Text) → (out ++ x ∷ []) ++ ys ≡ out ++ x ∷ ys
append_one [] x ys = refl
append_one (o ∷ out) x ys = ap (◌∷◌ o) (append_one out x ys)

take_nil : (n : ℕ) → take {A = Text} n [] ≡ []
take_nil zero = refl
take_nil (suc n) = refl

append_nil : (out : List Text) → out ++ [] ≡ out
append_nil [] = refl
append_nil (o ∷ out) = ap (◌∷◌ o) (append_nil out)

module _ (py : Python) (w : Workspace) (cwd : Text) (limit : ℕ) where
  abbrev Collects : List Text → List Text → Type 0
  Collects names out =
      collect py w cwd limit names out ≡ out ++ take (limit - length out) (fresh py w cwd out names)

  collect_some :
      (names out : List Text) (path : Text)
      → length out < limit
      → (length (out ++ path ∷ []) < limit → Collects names (out ++ path ∷ []))
      → elim (leb limit (suc (length out))) [
        | true ↦ out ++ path ∷ []
        | false ↦ collect py w cwd limit names (out ++ path ∷ [])
      ]
        ≡ out ++ take (limit - length out) (path ∷ fresh py w cwd (out ++ path ∷ []) names)
  collect_some names out path h ih =
      let rest = fresh py w cwd (out ++ path ∷ []) names in
      elim (Bool-cases (leb limit (suc (length out)))) [
        | inl last ↦ let one : limit - length out ≡ 1 = ground arith in rw (last, one) refl
        | inr more ↦
            let next : limit - length out ≡ suc (limit - length (out ++ path ∷ [])) =
              ground (arith, length-append out (path ∷ [])) in
            rw (more, next)
              (ih (ground (arith, length-append out (path ∷ [])))
                ∙ append_one out path (take (limit - length (out ++ path ∷ [])) rest))
      ]

  collect_lem : (names out : List Text) → length out < limit → Collects names out
  unfolding collect keep
  collect_lem [] out h = sym (rw (take_nil (limit - length out)) (append_nil out))
  collect_lem (name ∷ names) out h =
      rw (fresh_of_offered py w cwd name out names)
        (elim (offered py w cwd name out)
          as (λ o.
            (elim o [
              | none ↦ collect py w cwd limit names out
              | some path ↦ elim (leb limit (suc (length out))) [
                | true ↦ out ++ path ∷ []
                | false ↦ collect py w cwd limit names (out ++ path ∷ [])
              ]
            ])
            ≡ out
              ++ take (limit - length out) (elim o [
                | none ↦ fresh py w cwd out names
                | some path ↦ path ∷ fresh py w cwd (out ++ path ∷ []) names
              ])) [
                | none ↦ collect_lem names out h
                | some path ↦ collect_some names out path h (collect_lem names (out ++ path ∷ []))
              ])

abbrev NoRepeat : List Text → Type 0
NoRepeat [] = Unit
NoRepeat (x ∷ xs) = (mem_text x xs ≡ false) × NoRepeat xs

mem_text-keep-false :
    (y : Text) (p : Text → Bool) (xs : List Text)
    → mem_text y xs ≡ false
    → mem_text y (keep p xs) ≡ false
unfolding keep mem_text
mem_text-keep-false y p [] h = refl
mem_text-keep-false y p (x ∷ xs) h = ground (arith, mem_text-keep-false y p xs)

mem_text-keep-unlike : (x : Text) (xs : List Text) → mem_text x (keep (unlike x) xs) ≡ false
unfolding keep mem_text
mem_text-keep-unlike x [] = refl
mem_text-keep-unlike x (y ∷ ys) =
    ground (arith, text_eq_iff y x, text_eq_iff x y, mem_text-keep-unlike x ys)

NoRepeat-keep : (p : Text → Bool) (xs : List Text) → NoRepeat xs → NoRepeat (keep p xs)
unfolding keep
NoRepeat-keep p [] h = tt
NoRepeat-keep p (x ∷ xs) h = ground (arith, mem_text-keep-false x p xs h.0, NoRepeat-keep p xs h.1)

NoRepeat-distinct : (xs : List Text) → NoRepeat (distinct xs)
NoRepeat-distinct [] = tt
NoRepeat-distinct (x ∷ xs) = (
  mem_text-keep-unlike x (distinct xs),
  NoRepeat-keep (unlike x) (distinct xs) (NoRepeat-distinct xs),
)

mem_text-take-false :
    (y : Text) (n : ℕ) (xs : List Text) → mem_text y xs ≡ false → mem_text y (take n xs) ≡ false
unfolding mem_text
mem_text-take-false y zero xs h = refl
mem_text-take-false y (suc n) [] h = refl
mem_text-take-false y (suc n) (x ∷ xs) h = ground (arith, mem_text-take-false y n xs)

NoRepeat-take : (n : ℕ) (xs : List Text) → NoRepeat xs → NoRepeat (take n xs)
unfolding mem_text
NoRepeat-take zero xs h = tt
NoRepeat-take (suc n) [] h = tt
NoRepeat-take (suc n) (x ∷ xs) h = (mem_text-take-false x n xs h.0, NoRepeat-take n xs h.1)

keep_all : (xs : List Text) → keep (unlisted []) xs ≡ xs
unfolding keep mem_text
keep_all [] = refl
keep_all (x ∷ xs) = ap (◌∷◌ x) (keep_all xs)

abbrev pub touched : Python → Workspace → Option Text → List Text
touched py w none = []
touched py w (some []) = []
touched py w (some (c ∷ s)) =
    if w.is_dir (c ∷ s) then distinct (candidates py w (c ∷ s) (touched_names py w (c ∷ s))) else []

NoRepeat-touched : (py : Python) (w : Workspace) (cwd : Option Text) → NoRepeat (touched py w cwd)
NoRepeat-touched py w none = tt
NoRepeat-touched py w (some []) = tt
NoRepeat-touched py w (some (c ∷ s)) =
    elim (w.is_dir (c ∷ s))
      as (λ b.
        NoRepeat
          (if b then distinct (candidates py w (c ∷ s) (touched_names py w (c ∷ s))) else [])) [
            | true ↦ NoRepeat-distinct (candidates py w (c ∷ s) (touched_names py w (c ∷ s)))
            | false ↦ tt
          ]

-- With a limit of at least one, the touched files are the first `limit` distinct paths of the
-- supported names that git reports and that are files; without a directory there are none.
pub collect_touched_files_lem :
    (py : Python) (w : Workspace) (cwd : Option Text) (limit : ℕ)
    → 1 ≤ limit
    → collect_touched_files py w cwd limit ≡ take limit (touched py w cwd)
unfolding collect_touched_files
collect_touched_files_lem py w none limit h = sym (take_nil limit)
collect_touched_files_lem py w (some []) limit h = sym (take_nil limit)
collect_touched_files_lem py w (some (c ∷ s)) limit h =
    let names = touched_names py w (c ∷ s) in
    let found = distinct (candidates py w (c ∷ s) names) in
    let all_free : limit - length {A = Text} [] ≡ limit = omega arith in
    elim (Bool-cases (w.is_dir (c ∷ s))) [
      | inl there ↦ rw there (
          collect_lem py w (c ∷ s) limit names [] (omega arith)
          ∙ rw (keep_all found, all_free) refl)
      | inr gone ↦ rw gone (sym (take_nil limit))
    ]

-- With a limit of at least one, at most `limit` files are listed, each of them once.
pub collect_touched_files-bounded :
    (py : Python) (w : Workspace) (cwd : Option Text) (limit : ℕ)
    → 1 ≤ limit
    → (length (collect_touched_files py w cwd limit) ≤ limit)
      × NoRepeat (collect_touched_files py w cwd limit)
collect_touched_files-bounded py w cwd limit h = rw (collect_touched_files_lem py w cwd limit h) (
  length-take-le limit (touched py w cwd),
  NoRepeat-take limit (touched py w cwd) (NoRepeat-touched py w cwd),
)
