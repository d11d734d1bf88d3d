-- ===== src/Base/Table.antt =====
-- Rows of an SQL table with a text primary key. A query without ORDER BY promises no order, so
-- the list's own order means nothing.
use Prim.Native.Nat.{ℕ, suc, ◌≤◌}
use Prim.Native.String.{String}
use mathlib.Core.Path.{◌≡◌, refl, subst}
use mathlib.Core.Bool.{Bool}
use mathlib.Core.Option.{Option, none, some, some-injective}
use mathlib.Core.List.{List, [], ◌∷◌}
use native.Mathlib.Omega.{arith}
use text.Mathlib.Text.{◌==◌}
use text.Mathlib.TextEquality.{eq_iff}
use mira_bridge.Base.Tests.{if◌then◌else◌, is_some, Bool-cases}
use mathlib.Core.Logic.{inl, inr}
use mira_bridge.Base.Lists.{count_by, sum_by, All}

module _ {ℓ} {R : Type ℓ} where
  -- SELECT ... WHERE key = k
  unfoldable pub find : (R → String) → String → List R → Option R
  find key k [] = none
  find key k (r ∷ rows) = if key r == k then some r else find key k rows

  -- UPDATE ... WHERE p
  unfoldable pub update : (R → Bool) → (R → R) → List R → List R
  update p f [] = []
  update p f (r ∷ rows) = (if p r then f r else r) ∷ update p f rows

  -- DELETE ... WHERE p
  unfoldable pub delete : (R → Bool) → List R → List R
  delete p [] = []
  delete p (r ∷ rows) = let rest = delete p rows in if p r then rest else r ∷ rest

  -- INSERT OR REPLACE
  unfoldable pub replace : (R → String) → R → List R → List R
  unfolding delete
  replace key r rows = r ∷ delete (λ q. key q == key r) rows

  -- INSERT: `none` when the primary key is taken.
  unfoldable pub insert : (R → String) → R → List R → Option (List R)
  unfolding find
  insert key r rows = if is_some (find key (key r) rows) then none else some (r ∷ rows)

module _ {ℓ} {R : Type ℓ} (key : R → String) where
  pub find-delete :
      (k j : String) (rows : List R)
      → find key j (delete (λ q. key q == k) rows) ≡ (if k == j then none else find key j rows)
  unfolding find delete
  find-delete k j [] = ground arith
  find-delete k j (r ∷ rows) =
      ground (arith, find-delete k j rows, eq_iff (key r) k, eq_iff (key r) j, eq_iff k j)

  pub find-replace :
      (r : R) (j : String) (rows : List R)
      → find key j (replace key r rows) ≡ (if key r == j then some r else find key j rows)
  unfolding find replace
  find-replace r j rows = ground (arith, find-delete (key r) j rows)

  abbrev pub touched : (R → Bool) → (R → R) → Option R → Option R
  touched p f none = none
  touched p f (some r) = some (if p r then f r else r)

  pub find-update :
      (p : R → Bool) (f : R → R) (j : String) (rows : List R)
      → ((r : R) → key (f r) ≡ key r)
      → find key j (update p f rows) ≡ touched p f (find key j rows)
  unfolding find update
  find-update p f j [] keeps = refl
  find-update p f j (r ∷ rows) keeps = ground (arith, find-update p f j rows keeps, keeps r)

  pub find_key : (k : String) (rows : List R) (r : R) → find key k rows ≡ some r → key r ≡ k
  unfolding find
  find_key k [] r h = cc
  find_key k (q ∷ rows) r h = ground (arith, find_key k rows r, eq_iff (key q) k)

  pub find-All {κ} :
      (P : R → Type κ) (k : String) (rows : List R) (r : R)
      → All P rows
      → find key k rows ≡ some r
      → P r
  unfolding find
  find-All P k [] r hs h = cc
  find-All P k (q ∷ rows) r hs h = elim (Bool-cases (key q == k)) [
    | inl e ↦ subst P (some-injective q r (rw e at h)) hs.0
    | inr e ↦ find-All P k rows r hs.1 (rw e at h)
  ]

module _ {ℓ} {R : Type ℓ} where
  pub sum_by-delete-le :
      (f : R → ℕ) (p : R → Bool) (rows : List R) → sum_by f (delete p rows) ≤ sum_by f rows
  unfolding delete
  sum_by-delete-le f p [] = omega arith
  sum_by-delete-le f p (r ∷ rows) = ground (arith, sum_by-delete-le f p rows)

  pub count_by-delete-le :
      (q p : R → Bool) (rows : List R) → count_by q (delete p rows) ≤ count_by q rows
  unfolding delete
  count_by-delete-le q p [] = omega arith
  count_by-delete-le q p (r ∷ rows) = ground (arith, count_by-delete-le q p rows)

  pub All-delete {κ} :
      (P : R → Type κ) (p : R → Bool) (rows : List R) → All P rows → All P (delete p rows)
  unfolding delete
  All-delete P p [] hs = tt
  All-delete P p (r ∷ rows) hs = ground (arith, All-delete P p rows hs.1)

-- No two rows share a primary key.
abbrev pub UniqueKeys {ℓ} : {R : Type ℓ} → (R → String) → List R → Type ℓ
UniqueKeys key [] = Unit
UniqueKeys key (r ∷ rows) = (find key (key r) rows ≡ none) × UniqueKeys key rows

module _ {ℓ} {R : Type ℓ} (key : R → String) where
  -- An update by an absent key changes nothing.
  pub update-absent :
      (k : String) (f : R → R) (rows : List R)
      → find key k rows ≡ none
      → update (λ r. key r == k) f rows ≡ rows
  unfolding find update
  update-absent k f [] h = refl
  update-absent k f (r ∷ rows) h = ground (arith, update-absent k f rows)

  pub UniqueKeys-update :
      (p : R → Bool) (f : R → R) (rows : List R)
      → ((r : R) → key (f r) ≡ key r)
      → UniqueKeys key rows
      → UniqueKeys key (update p f rows)
  unfolding update
  UniqueKeys-update p f [] keeps u = tt
  UniqueKeys-update p f (r ∷ rows) keeps u = (
    ground (arith, keeps r, find-update key p f (key r) rows keeps),
    UniqueKeys-update p f rows keeps u.1,
  )

  -- An update by a key changes a count by at most the one row it writes.
  pub count_by-update :
      (q : R → Bool) (k : String) (f : R → R) (rows : List R)
      → UniqueKeys key rows
      → count_by q (update (λ r. key r == k) f rows) ≤ suc (count_by q rows)
  unfolding update
  count_by-update q k f [] u = omega arith
  count_by-update q k f (r ∷ rows) u = elim (Bool-cases (key r == k)) [
    | inl e ↦
        rw
          (
            e,
            update-absent k f rows
                (subst (λ t. find key t rows ≡ none) ((eq_iff (key r) k).0 e) u.0),
          )
          (ground arith)
    | inr e ↦ rw e (ground (arith, count_by-update q k f rows u.1))
  ]
