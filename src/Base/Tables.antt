-- ===== src/Base/Tables.antt =====
-- Tables as lists of rows, with the statements that the registry issues: SELECT by key,
-- UPDATE … WHERE, and the count of the rows that a WHERE clause meets.
use Prim.Native.Nat.{ℕ, ◌+◌}
use mathlib.Core.Path.{◌≡◌, refl}
use mathlib.Core.Bool.{Bool, ◌&&◌}
use mathlib.Core.Option.{Option, none, some}
use mathlib.Core.Option
use mathlib.Core.List.{List, [], ◌∷◌, ◌++◌}
use native.Mathlib.Omega.{arith}
use hermes_pi_manager.Base.Tests.{if◌then◌else◌}
use hermes_pi_manager.Base.Texts.{Text, text_eq, text_eq_iff}

module _ {ℓ} {A : Type ℓ} where
  unfoldable pub update_where : (A → Bool) → (A → A) → List A → List A
  update_where p f [] = []
  update_where p f (r ∷ rs) = (if p r then f r else r) ∷ update_where p f rs

  unfoldable pub count_where : (A → Bool) → List A → ℕ
  count_where p [] = 0
  count_where p (r ∷ rs) = (if p r then 1 else 0) + count_where p rs

module _ {ℓ} {A : Type ℓ} (key : A → Text) where
  -- SELECT * … WHERE key = ?, on a primary key.
  unfoldable pub select : Text → List A → Option A
  select k [] = none
  select k (r ∷ rs) = if text_eq (key r) k then some r else select k rs

  -- The row with the key, if it also meets a condition.
  abbrev pub has_key : Text → (A → Bool) → A → Bool
  has_key k c r = text_eq (key r) k && c r

  -- The constraint PRIMARY KEY.
  abbrev pub Distinct : List A → Type ℓ
  Distinct [] = Unit
  Distinct (r ∷ rs) = (select (key r) rs ≡ none) × Distinct rs

  abbrev pub KeepsKey : (A → A) → Type ℓ
  KeepsKey f = (r : A) → key (f r) ≡ key r

module _ {ℓ} {A : Type ℓ} (key : A → Text) where
  -- A SELECT after an UPDATE of the row with key `k`, under the further condition `c`.
  pub select-update_where :
      (j k : Text) (c : A → Bool) (f : A → A) (rows : List A)
      → KeepsKey key f
      → select key j (update_where (has_key key k c) f rows) ≡ (
          if text_eq j k
          then Option.map (λ r. if c r then f r else r) (select key j rows)
          else select key j rows)
  unfolding select update_where
  select-update_where j k c f [] h = ground arith
  select-update_where j k c f (r ∷ rs) h = ground (
    arith,
    h r,
    text_eq_iff (key r) k,
    text_eq_iff (key r) j,
    text_eq_iff j k,
    select-update_where j k c f rs h,
  )

  -- A SELECT after an UPDATE whose WHERE clause says nothing of the key.
  pub select-update_all :
      (j : Text) (c : A → Bool) (f : A → A) (rows : List A)
      → KeepsKey key f
      → select key j (update_where c f rows)
        ≡ Option.map (λ r. if c r then f r else r) (select key j rows)
  unfolding select update_where
  select-update_all j c f [] h = refl
  select-update_all j c f (r ∷ rs) h = ground (arith, h r, select-update_all j c f rs h)

  none_of_select :
      (k : Text) (c : A → Bool) (rows : List A)
      → select key k rows ≡ none
      → count_where (has_key key k c) rows ≡ 0
  unfolding select count_where
  none_of_select k c [] h = refl
  none_of_select k c (r ∷ rs) h = ground (arith, none_of_select k c rs)

  -- The row count of such an UPDATE: one if the row is there and meets the condition.
  pub count_where-has_key :
      (k : Text) (c : A → Bool) (rows : List A)
      → Distinct key rows
      → count_where (has_key key k c) rows
        ≡ elim (select key k rows) [ none ↦ 0 | some r ↦ if c r then 1 else 0 ]
  unfolding select count_where
  count_where-has_key k c [] h = refl
  count_where-has_key k c (r ∷ rs) h =
      ground (arith, text_eq_iff (key r) k, none_of_select k c rs, count_where-has_key k c rs h.1)

  pub Distinct-update_where :
      (p : A → Bool) (f : A → A) (rows : List A)
      → KeepsKey key f
      → Distinct key rows
      → Distinct key (update_where p f rows)
  unfolding update_where
  Distinct-update_where p f [] h d = tt
  Distinct-update_where p f (r ∷ rs) h d =
      ground (arith, h r, select-update_all (key r) p f rs h, Distinct-update_where p f rs h d.1)

  pub select-append :
      (k : Text) (xs ys : List A)
      → select key k (xs ++ ys)
        ≡ elim (select key k xs) [ none ↦ select key k ys | some r ↦ some r ]
  unfolding select
  select-append k [] ys = refl
  select-append k (x ∷ xs) ys = ground (arith, select-append k xs ys)

  -- An INSERT of a new key, at the end.
  pub Distinct-insert :
      (rows : List A) (r : A)
      → Distinct key rows
      → select key (key r) rows ≡ none
      → Distinct key (rows ++ r ∷ [])
  unfolding select
  Distinct-insert [] r d h = (refl, tt)
  Distinct-insert (x ∷ xs) r d h = ground (
    arith,
    text_eq_iff (key x) (key r),
    text_eq_iff (key r) (key x),
    select-append (key x) xs (r ∷ []),
    Distinct-insert xs r d.1,
  )

  pub select-key : (k : Text) (rows : List A) (r : A) → select key k rows ≡ some r → key r ≡ k
  unfolding select
  select-key k [] r h = cc
  select-key k (x ∷ xs) r h = ground (arith, text_eq_iff (key x) k, select-key k xs r)
