-- ===== src/Base/Keys.antt =====
-- Unique keys through selections and sorting, and the place of a row in a list with unique keys.
use Prim.Native.String.{String}
use mathlib.Core.Path.{◌≡◌, refl, subst, ap, ◌∙◌}
use mathlib.Core.Logic.{inl, inr}
use mathlib.Core.Bool.{Bool, true, false}
use mathlib.Core.Option.{none, some}
use mathlib.Core.List.{List, [], ◌∷◌, ◌++◌}
use native.Mathlib.Omega.{arith}
use text.Mathlib.Text.{◌==◌}
use text.Mathlib.TextEquality.{eq_iff}
use mira_bridge.Base.Tests.{if◌then◌else◌, is_some, Bool-cases}
use mira_bridge.Base.Lists.{filter_by, All}
use mira_bridge.Base.Sort.{insert_by, sort_by}
use mira_bridge.Base.Table.{find, delete, UniqueKeys}

module _ {ℓ} {R : Type ℓ} (key : R → String) where
  absent-filter_by :
      (p : R → Bool) (k : String) (rows : List R)
      → find key k rows ≡ none
      → find key k (filter_by p rows) ≡ none
  unfolding find
  absent-filter_by p k [] h = refl
  absent-filter_by p k (r ∷ rows) h = ground (arith, absent-filter_by p k rows)

  pub UniqueKeys-filter_by :
      (p : R → Bool) (rows : List R) → UniqueKeys key rows → UniqueKeys key (filter_by p rows)
  UniqueKeys-filter_by p [] u = tt
  UniqueKeys-filter_by p (r ∷ rows) u = elim (Bool-cases (p r)) [
    | inl e ↦ rw e (absent-filter_by p (key r) rows u.0, UniqueKeys-filter_by p rows u.1)
    | inr e ↦ rw e (UniqueKeys-filter_by p rows u.1)
  ]

  find-insert_by :
      (le : R → R → Bool) (k : String) (r : R) (rows : List R)
      → (key r == k) ≡ false
      → find key k rows ≡ none
      → find key k (insert_by le r rows) ≡ none
  unfolding find insert_by
  find-insert_by le k r [] h a = ground arith
  find-insert_by le k r (q ∷ rows) h a = ground (arith, find-insert_by le k r rows)

  absent-sort_by :
      (le : R → R → Bool) (k : String) (rows : List R)
      → find key k rows ≡ none
      → find key k (sort_by le rows) ≡ none
  unfolding find sort_by
  absent-sort_by le k [] h = refl
  absent-sort_by le k (r ∷ rows) h = elim (Bool-cases (key r == k)) [
    | inl e ↦ cc (rw e at h)
    | inr e ↦ find-insert_by le k r (sort_by le rows) e (absent-sort_by le k rows (rw e at h))
  ]

  found-insert_by :
      (le : R → R → Bool) (k : String) (r : R) (rows : List R)
      → (find key (key r) rows ≡ none)
      → find key k (insert_by le r rows) ≡ find key k (r ∷ rows)
  unfolding find insert_by
  found-insert_by le k r [] a = refl
  found-insert_by le k r (q ∷ rows) a = ground (
    arith,
    found-insert_by le k r rows,
    eq_iff (key r) k,
    eq_iff (key q) k,
    eq_iff (key q) (key r),
  )

  -- Sorting rows with unique keys does not change what is found.
  pub find-sort_by :
      (le : R → R → Bool) (k : String) (rows : List R)
      → UniqueKeys key rows
      → find key k (sort_by le rows) ≡ find key k rows
  unfolding find sort_by
  find-sort_by le k [] u = refl
  find-sort_by le k (r ∷ rows) u =
      found-insert_by le k r (sort_by le rows) (absent-sort_by le (key r) rows u.0)
      ∙ ap (λ t. if key r == k then some r else t) (find-sort_by le k rows u.1)

  UniqueKeys-insert_by :
      (le : R → R → Bool) (r : R) (rows : List R)
      → find key (key r) rows ≡ none
      → UniqueKeys key rows
      → UniqueKeys key (insert_by le r rows)
  unfolding find insert_by
  UniqueKeys-insert_by le r [] a u = (refl, tt)
  UniqueKeys-insert_by le r (q ∷ rows) a u = elim (Bool-cases (key q == key r)) [
    | inl e ↦ cc (rw e at a)
    | inr e ↦ elim (Bool-cases (le r q)) [
      | inl l ↦ rw l (a, u)
      | inr g ↦ rw g (
        find-insert_by le (key q) r rows
            (ground (arith, eq_iff (key q) (key r), eq_iff (key r) (key q))) u.0,
        UniqueKeys-insert_by le r rows (rw e at a) u.1,
      )
    ]
  ]

  absent-delete :
      (p : R → Bool) (k : String) (rows : List R)
      → find key k rows ≡ none
      → find key k (delete p rows) ≡ none
  unfolding find delete
  absent-delete p k [] h = refl
  absent-delete p k (r ∷ rows) h = ground (arith, absent-delete p k rows)

  pub UniqueKeys-delete :
      (p : R → Bool) (rows : List R) → UniqueKeys key rows → UniqueKeys key (delete p rows)
  unfolding delete
  UniqueKeys-delete p [] u = tt
  UniqueKeys-delete p (r ∷ rows) u = elim (Bool-cases (p r)) [
    | inl e ↦ rw e (UniqueKeys-delete p rows u.1)
    | inr e ↦ rw e (absent-delete p (key r) rows u.0, UniqueKeys-delete p rows u.1)
  ]

  pub UniqueKeys-sort_by :
      (le : R → R → Bool) (rows : List R) → UniqueKeys key rows → UniqueKeys key (sort_by le rows)
  unfolding sort_by
  UniqueKeys-sort_by le [] u = tt
  UniqueKeys-sort_by le (r ∷ rows) u =
      UniqueKeys-insert_by le r (sort_by le rows) (absent-sort_by le (key r) rows u.0)
        (UniqueKeys-sort_by le rows u.1)

  find-middle :
      (pre : List R) (r : R) (post : List R) → is_some (find key (key r) (pre ++ r ∷ post)) ≡ true
  unfolding find
  find-middle [] r post = ground (arith, eq_iff (key r) (key r))
  find-middle (q ∷ pre) r post = ground (arith, find-middle pre r post)

  -- A row's key does not stand before the row.
  pub absent_before :
      (pre : List R) (r : R) (post : List R)
      → UniqueKeys key (pre ++ r ∷ post)
      → find key (key r) pre ≡ none
  unfolding find
  absent_before [] r post u = refl
  absent_before (q ∷ pre) r post u = elim (Bool-cases (key q == key r)) [
    | inl e ↦ cc (
      find-middle pre r post,
      subst (λ k. find key k (pre ++ r ∷ post) ≡ none) ((eq_iff (key q) (key r)).0 e) u.0,
    )
    | inr e ↦ rw e (absent_before pre r post u.1)
  ]

module _ {ℓ} {R : Type ℓ} (key : R → String) where
  -- The other rows of a table that has no row of a key.
  pub absent-All :
      (k : String) (rows : List R) → find key k rows ≡ none → All (λ r. (key r == k) ≡ false) rows
  unfolding find
  absent-All k [] h = tt
  absent-All k (r ∷ rows) h = elim (Bool-cases (key r == k)) [
    | inl e ↦ cc (rw e at h)
    | inr e ↦ (e, absent-All k rows (rw e at h))
  ]

  find-later :
      (r : R) (rows part : List R)
      → All (λ q. (key q == key r) ≡ false) part
      → All (λ q. find key (key q) rows ≡ some q) part
      → All (λ q. find key (key q) (r ∷ rows) ≡ some q) part
  unfolding find
  find-later r rows [] others found = tt
  find-later r rows (q ∷ part) others found = (
    ground (arith, others.0, found.0, eq_iff (key r) (key q), eq_iff (key q) (key r)),
    find-later r rows part others.1 found.1,
  )

  -- With unique keys every row is found under its key.
  pub UniqueKeys-find :
      (rows : List R) → UniqueKeys key rows → All (λ q. find key (key q) rows ≡ some q) rows
  unfolding find
  UniqueKeys-find [] u = tt
  UniqueKeys-find (r ∷ rows) u = (
    ground (arith, eq_iff (key r) (key r)),
    find-later r rows rows (absent-All (key r) rows u.0) (UniqueKeys-find rows u.1),
  )

module _ {ℓ κ} {R : Type ℓ} (P : R → Type κ) where
  All-insert_by :
      (le : R → R → Bool) (r : R) (rows : List R) → P r → All P rows → All P (insert_by le r rows)
  unfolding insert_by
  All-insert_by le r [] h hs = (h, tt)
  All-insert_by le r (q ∷ rows) h hs = elim (Bool-cases (le r q)) [
    | inl e ↦ rw e (h, hs)
    | inr e ↦ rw e (hs.0, All-insert_by le r rows h hs.1)
  ]

  pub All-sort_by : (le : R → R → Bool) (rows : List R) → All P rows → All P (sort_by le rows)
  unfolding sort_by
  All-sort_by le [] hs = tt
  All-sort_by le (r ∷ rows) hs =
      All-insert_by le r (sort_by le rows) hs.0 (All-sort_by le rows hs.1)
