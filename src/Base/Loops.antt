-- ===== src/Base/Loops.antt =====
-- Loops over selected rows, and invariants of actions.
use mathlib.Core.List.{List, [], ◌∷◌}
use mira_bridge.Base.Lists.{All}
use mira_bridge.Base.Actions.{Result, ok, err, Exec, continue}

module _ {S E A : Type 0} where
  -- for (const row of rows) step(row)
  unfoldable pub each : (A → Exec S E (Unit {0})) → List A → Exec S E (Unit {0})
  each step [] s = (ok tt, s)
  each step (row ∷ rows) s = continue (λ _. each step rows) (step row s).0 (step row s).1

  -- for (const row of select()) step(row): the rows are read before the first step.
  unfoldable pub for_rows : (S → List A) → (A → Exec S E (Unit {0})) → Exec S E (Unit {0})
  unfolding each
  for_rows select step s = each step (select s) s

-- Whatever an action returns or throws, it keeps `I`.
abbrev pub Keeps : {S E A : Type 0} → (S → Type 0) → Exec S E A → Type 0
Keeps {S = S} I m = (s : S) → I s → I (m s).1

module _ {S E A B : Type 0} (I : S → Type 0) where
  keeps_continue :
      (f : A → Exec S E B)
      → ((a : A) → Keeps I (f a))
      → (r : Result E A) (s : S) → I s
      → I (continue f r s).1
  keeps_continue f k (ok a) s h = k a s h
  keeps_continue f k (err e) s h = h

  pub Keeps-bind :
      (m : Exec S E A) (f : A → Exec S E B)
      → Keeps I m
      → ((a : A) → Keeps I (f a))
      → Keeps I (λ s. continue f (m s).0 (m s).1)
  Keeps-bind m f km kf s h = keeps_continue f kf (m s).0 (m s).1 (km s h)

module _ {S E A : Type 0} (I : S → Type 0) where
  pub Keeps-each :
      (P : A → Type 0) (step : A → Exec S E (Unit {0}))
      → ((a : A) → P a → Keeps I (step a))
      → (rows : List A) → All P rows
      → Keeps I (each step rows)
  unfolding each
  Keeps-each P step k [] ps s h = h
  Keeps-each P step k (row ∷ rows) ps s h =
      keeps_continue I (λ _. each step rows) (λ _. Keeps-each P step k rows ps.1) (step row s).0
        (step row s).1 (k row ps.0 s h)

  pub Keeps-for_rows :
      (P : A → Type 0) (select : S → List A) (step : A → Exec S E (Unit {0}))
      → ((s : S) → I s → All P (select s))
      → ((a : A) → P a → Keeps I (step a))
      → Keeps I (for_rows select step)
  unfolding for_rows
  Keeps-for_rows P select step all k s h = Keeps-each P step k (select s) (all s h) s h
