-- ===== src/Transfers/Commit/Finally.antt =====
-- The clean-up of `finally`, and a row of which a claim may have changed other columns.
use mira_bridge.Base.{
  Bool, true, false, if◌then◌else◌, Result, ok, err, pure, throw, continue, ◌≡◌, refl,
}
use mira_bridge.State.Rows.{TransferRow}
use mira_bridge.Transfers.{World, Action, Failure, raised, crashed}
use mira_bridge.Transfers.Ends.{Ends}
use mira_bridge.Transfers.Commit.{finally_after, finally_do}

pub chosen :
    {X : Type 0} (field : TransferRow → X) (f : TransferRow → TransferRow) (t : TransferRow)
    (b : Bool)
    → field (f t) ≡ field t
    → field (if b then f t else t) ≡ field t
chosen field f t true h = h
chosen field f t false h = refl

pub finally-Ends :
    {A : Type 0} (Q E : World → Type 0) (m : Action A) (f : Action (Unit {0})) (w : World)
    → Ends (λ _. Q) E (m w)
    → ((v : World) → Q v → Ends (λ _. Q) E (f v))
    → ((v : World) → E v → Ends (λ _. E) E (f v))
    → Ends (λ _. Q) E (finally_do m f w)
unfolding Ends
finally-Ends {A = A} Q E m f w h g k = by_result (m w).0 h
  where
    after :
        (r : Result Failure (Unit {0})) (v : World) (x : A)
        → Ends (λ _. Q) E (r, v)
        → Ends (λ _. Q) E (continue (λ _. pure x) r v)
    after (ok a) v x j = j
    after (err e) v x j = j

    again :
        (r : Result Failure (Unit {0})) (v : World) (e : Failure)
        → Ends (λ _. E) E (r, v)
        → Ends (λ (_ : A). Q) E (continue (λ _. throw e) r v)
    again (ok a) v e j = j
    again (err e') v e j = j

    by_result :
        (r : Result Failure A)
        → Ends (λ _. Q) E (r, (m w).1)
        → Ends (λ _. Q) E (finally_after f r (m w).1)
    by_result (ok x) j = after (f (m w).1).0 (f (m w).1).1 x (g (m w).1 j)
    by_result (err crashed) j = j
    by_result (err (raised e)) j = again (f (m w).1).0 (f (m w).1).1 (raised e) (k (m w).1 j)
