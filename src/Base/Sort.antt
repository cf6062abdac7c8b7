-- ===== src/Base/Sort.antt =====
-- ORDER BY … LIMIT: insertion sort by a Boolean order, and the keys of the rows it keeps.
use mathlib.Core.Path.{◌≡◌, refl, ap, ◌∙◌}
use mathlib.Core.Bool.{true, Bool, false, ◌||◌}
use mathlib.Core.Option.{none, some}
use mathlib.Core.List.{List, [], ◌∷◌, map}
use Prim.Native.Nat.{◌+◌, ℕ, zero, suc, ◌≤◌}
use native.Mathlib.Omega.{arith}
use hermes_pi_manager.Base.Tests.{if◌then◌else◌}
use hermes_pi_manager.Base.Lists.{length, take, keep, All}
use hermes_pi_manager.Base.Texts.{Text, text_eq, text_eq_iff}
use hermes_pi_manager.Base.Tables.{select, Distinct}

-- `x in ids`, and SQL's `x IN (ids)`.
unfoldable pub mem_text : Text → List Text → Bool
mem_text k [] = false
mem_text k (j ∷ js) = text_eq j k || mem_text k js

module _ {ℓ} {A : Type ℓ} (before : A → A → Bool) where
  insert_by : A → List A → List A
  insert_by x [] = x ∷ []
  insert_by x (y ∷ ys) = if before y x then y ∷ insert_by x ys else x ∷ y ∷ ys

  unfoldable pub sort_by : List A → List A
  unfolding insert_by
  sort_by [] = []
  sort_by (x ∷ xs) = insert_by x (sort_by xs)

  length-insert_by : (x : A) (xs : List A) → length (insert_by x xs) ≡ suc (length xs)
  unfolding insert_by
  length-insert_by x [] = refl
  length-insert_by x (y ∷ ys) = ground (arith, length-insert_by x ys)

  pub length-sort_by : (xs : List A) → length (sort_by xs) ≡ length xs
  unfolding sort_by
  length-sort_by [] = refl
  length-sort_by (x ∷ xs) = length-insert_by x (sort_by xs) ∙ ap suc (length-sort_by xs)

  module _ {κ} (P : A → Type κ) where
    All-insert_by : (x : A) (xs : List A) → P x → All P xs → All P (insert_by x xs)
    unfolding insert_by
    All-insert_by x [] h hs = (h, tt)
    All-insert_by x (y ∷ ys) h hs = ground (arith, All-insert_by x ys h hs.1)

    pub All-sort_by : (xs : List A) → All P xs → All P (sort_by xs)
    unfolding sort_by
    All-sort_by [] h = tt
    All-sort_by (x ∷ xs) h = All-insert_by x (sort_by xs) h.0 (All-sort_by xs h.1)

  module _ (key : A → Text) where
    mem_text-insert_by :
        (k : Text) (x : A) (xs : List A)
        → mem_text k (map key (insert_by x xs)) ≡ (text_eq (key x) k || mem_text k (map key xs))
    unfolding insert_by mem_text
    mem_text-insert_by k x [] = refl
    mem_text-insert_by k x (y ∷ ys) = ground (arith, mem_text-insert_by k x ys)

    -- Sorting keeps the keys.
    pub mem_text-sort_by :
        (k : Text) (xs : List A) → mem_text k (map key (sort_by xs)) ≡ mem_text k (map key xs)
    unfolding sort_by mem_text
    mem_text-sort_by k [] = refl
    mem_text-sort_by k (x ∷ xs) =
        mem_text-insert_by k x (sort_by xs) ∙ ap (◌||◌ (text_eq (key x) k)) (mem_text-sort_by k xs)

module _ {ℓ} {A : Type ℓ} (key : A → Text) where
  pub mem_text-take :
      (k : Text) (n : ℕ) (xs : List A)
      → mem_text k (map key xs) ≡ false
      → mem_text k (map key (take n xs)) ≡ false
  unfolding mem_text
  mem_text-take k zero xs h = refl
  mem_text-take k (suc n) [] h = refl
  mem_text-take k (suc n) (x ∷ xs) h = ground (arith, mem_text-take k n xs)

  pub take_all : (n : ℕ) (xs : List A) → length xs ≤ n → take n xs ≡ xs
  take_all zero [] h = refl
  take_all zero (x ∷ xs) h = absurd (omega arith)
  take_all (suc n) [] h = refl
  take_all (suc n) (x ∷ xs) h = ap (◌∷◌ x) (take_all n xs (omega arith))

  mem_text-keep-none :
      (k : Text) (p : A → Bool) (rows : List A)
      → select key k rows ≡ none
      → mem_text k (map key (keep p rows)) ≡ false
  unfolding mem_text keep select
  mem_text-keep-none k p [] h = refl
  mem_text-keep-none k p (x ∷ xs) h = ground (arith, mem_text-keep-none k p xs)

  -- On a primary key, a key is among those that a WHERE clause keeps exactly if its row meets it.
  pub mem_text-keep :
      (k : Text) (p : A → Bool) (rows : List A)
      → Distinct key rows
      → mem_text k (map key (keep p rows))
        ≡ elim (select key k rows) [ none ↦ false | some r ↦ p r ]
  unfolding mem_text keep select
  mem_text-keep k p [] d = refl
  mem_text-keep k p (x ∷ xs) d =
      ground (arith, text_eq_iff (key x) k, mem_text-keep-none k p xs, mem_text-keep k p xs d.1)

  -- The keys that a query with WHERE, ORDER BY and LIMIT returns are those of rows that meet WHERE.
  pub mem_text-query :
      (before : A → A → Bool) (k : Text) (n : ℕ) (p : A → Bool) (rows : List A) (r : A)
      → Distinct key rows
      → select key k rows ≡ some r
      → p r ≡ false
      → mem_text k (map key (take n (sort_by before (keep p rows)))) ≡ false
  mem_text-query before k n p rows r d s h =
      mem_text-take k n (sort_by before (keep p rows))
        (ground (arith, mem_text-sort_by before key k (keep p rows), mem_text-keep k p rows d))

  length-keep_or :
      (p q : A → Bool) (rows : List A)
      → length (keep (λ r. p r || q r) rows) ≤ length (keep p rows) + length (keep q rows)
  unfolding keep
  length-keep_or p q [] = omega arith
  length-keep_or p q (x ∷ xs) = ground (arith, length-keep_or p q xs)

  length-keep_absent :
      (k : Text) (rows : List A)
      → select key k rows ≡ none
      → length (keep (λ r. text_eq k (key r)) rows) ≡ 0
  unfolding keep select
  length-keep_absent k [] h = refl
  length-keep_absent k (x ∷ xs) h =
      ground (arith, text_eq_iff k (key x), text_eq_iff (key x) k, length-keep_absent k xs)

  length-keep_key :
      (k : Text) (rows : List A)
      → Distinct key rows
      → length (keep (λ r. text_eq k (key r)) rows) ≤ 1
  unfolding keep
  length-keep_key k [] d = omega arith
  length-keep_key k (x ∷ xs) d =
      ground (arith, text_eq_iff k (key x), length-keep_absent k xs, length-keep_key k xs d.1)

  length-keep-false : (rows : List A) → length (keep (λ _. false) rows) ≡ 0
  unfolding keep
  length-keep-false [] = refl
  length-keep-false (x ∷ xs) = length-keep-false xs

  -- On a primary key, `WHERE key IN (ids)` meets at most as many rows as there are ids.
  pub length-keep_ids :
      (ids : List Text) (rows : List A)
      → Distinct key rows
      → length (keep (λ r. mem_text (key r) ids) rows) ≤ length ids
  unfolding mem_text
  length-keep_ids [] rows d = omega (arith, length-keep-false rows)
  length-keep_ids (i ∷ is) rows d = omega (
    arith,
    length-keep_or (λ r. text_eq i (key r)) (λ r. mem_text (key r) is) rows,
    length-keep_key i rows d,
    length-keep_ids is rows d,
  )

  select-keep-none :
      (k : Text) (p : A → Bool) (rows : List A)
      → select key k rows ≡ none
      → select key k (keep p rows) ≡ none
  unfolding select keep
  select-keep-none k p [] h = refl
  select-keep-none k p (x ∷ xs) h = ground (arith, select-keep-none k p xs)

  -- A SELECT by key among the rows that meet a further condition.
  pub select-keep :
      (k : Text) (p : A → Bool) (rows : List A)
      → Distinct key rows
      → select key k (keep p rows)
        ≡ elim (select key k rows) [ none ↦ none | some r ↦ if p r then some r else none ]
  unfolding select keep
  select-keep k p [] d = refl
  select-keep k p (x ∷ xs) d =
      ground (arith, text_eq_iff (key x) k, select-keep-none k p xs, select-keep k p xs d.1)

  pub Distinct-keep :
      (p : A → Bool) (rows : List A) → Distinct key rows → Distinct key (keep p rows)
  unfolding keep
  Distinct-keep p [] d = tt
  Distinct-keep p (x ∷ xs) d = ground (arith, select-keep-none (key x) p xs, Distinct-keep p xs d.1)

  pub mem_text-select :
      (k : Text) (rows : List A)
      → mem_text k (map key rows) ≡ elim (select key k rows) [ none ↦ false | some r ↦ true ]
  unfolding mem_text select
  mem_text-select k [] = refl
  mem_text-select k (x ∷ xs) = ground (arith, mem_text-select k xs)
