-- ===== src/Base/Actions.antt =====
-- Results of operations that may throw, actions on a state that may throw, and transactions.
use mathlib.Core.Path.{◌≡◌, refl}
use mathlib.Core.Bool.{Bool, true, false}

-- What an operation returns or throws.
pub data Result {ℓ κ} (E : Type ℓ) (A : Type κ) : Type (ℓ ⊔ κ) where
  ok : A → Result E A
  err : E → Result E A

-- An action on a mutable state. What was written before a throw stays written.
abbrev pub Exec : Type 0 → Type 0 → Type 0 → Type 0
Exec S E A = S → Result E A × S

module _ {S E A : Type 0} where
  abbrev pub pure : A → Exec S E A
  pure a s = (ok a, s)

  abbrev pub throw : E → Exec S E A
  throw e s = (err e, s)

  abbrev pub gets : (S → A) → Exec S E A
  gets f s = (ok (f s), s)

  abbrev pub lift : Result E A → Exec S E A
  lift r s = (r, s)

abbrev pub modify : {S E : Type 0} → (S → S) → Exec S E (Unit {0})
modify f s = (ok tt, f s)

abbrev pub require : {S E : Type 0} → Bool → E → Exec S E (Unit {0})
require true e s = (ok tt, s)
require false e s = (err e, s)

module _ {S E A B : Type 0} where
  abbrev pub continue : (A → Exec S E B) → Result E A → S → Result E B × S
  continue f (ok a) s = f a s
  continue f (err e) s = (err e, s)

  infixl 10 ◌>>=◌ ◌>>◌
  abbrev pub ◌>>=◌ : Exec S E A → (A → Exec S E B) → Exec S E B
  ◌>>=◌ m f s = continue f (m s).0 (m s).1

  abbrev pub ◌>>◌ : Exec S E A → Exec S E B → Exec S E B
  ◌>>◌ m n s = continue (λ _. n) (m s).0 (m s).1

module _ {S E A : Type 0} where
  abbrev pub commit_or_rollback : S → Result E A → S → Result E A × S
  commit_or_rollback before (ok a) after = (ok a, after)
  commit_or_rollback before (err e) after = (err e, before)

  -- BEGIN IMMEDIATE; the body; COMMIT, or ROLLBACK when the body throws.
  abbrev pub transaction : Exec S E A → Exec S E A
  transaction m s = commit_or_rollback s (m s).0 (m s).1

  -- A transaction that throws leaves the state as it was.
  pub transaction_rolls_back :
      (m : Exec S E A) (s : S) (e : E) → (transaction m s).0 ≡ err e → (transaction m s).1 ≡ s
  transaction_rolls_back m s e h = go (m s).0 (m s).1 h
    where
      go :
          (r : Result E A) (t : S)
          → (commit_or_rollback s r t).0 ≡ err e
          → (commit_or_rollback s r t).1 ≡ s
      go (ok a) t k = cc
      go (err e') t k = refl
