-- ===== src/Transfers/Runs.antt =====
-- packages/windows-worker/src/transfers.ts: actions none of whose calls fails.
use mira_bridge.Base.{
  String, Option, none, some, [], ◌≡◌, refl, sym, inl, inr, subst, ◌>>◌, continue, if_true,
  if_false, Bool-cases, ok, Result, ◌==◌,
}
use mira_bridge.Protocol.Errors.{Thrown}
use mira_bridge.State.Rows.{TransferRow}
use mira_bridge.State.Transfers.{remove_transfer}
use mira_bridge.Transfers.{World, Action, Failure, rm, on_db, perform}
use mira_bridge.Transfers.Recovery.{clear, clear_up}

-- An action that returns and leaves no outcomes, so that what follows it cannot fail either.
abbrev pub Runs : Result Failure (Unit {0}) × World → Type 0
Runs r = (r.0 ≡ ok tt) × (r.1.outcomes ≡ [])

pub perform-Runs :
    (f : World → Result Thrown World) (w v : World)
    → w.outcomes ≡ []
    → f (record w { outcomes = [] }) ≡ ok v
    → v.outcomes ≡ []
    → Runs (perform f w)
unfolding perform
perform-Runs f w v calm does after = rw (calm, does) (refl, after)

pub then-Runs :
    (m n : Action (Unit {0})) (w : World)
    → Runs (m w)
    → ((v : World) → v.outcomes ≡ [] → Runs (n v))
    → Runs ((m >> n) w)
then-Runs m n w h g = subst (λ r. Runs (continue (λ _. n) r (m w).1)) (sym h.0) (g (m w).1 h.1)

module _ (to_lower : String → String) where
  clear-Runs : (d p : Option String) (w : World) → w.outcomes ≡ [] → Runs (clear to_lower d p w)
  unfolding clear rm
  clear-Runs d none w calm = (refl, calm)
  clear-Runs none (some p) w calm = perform-Runs _ w _ calm refl refl
  clear-Runs (some d) (some p) w calm = elim (Bool-cases (to_lower p == to_lower d)) [
    | inl y ↦ subst Runs (sym (if_true (to_lower p == to_lower d) _ _ y)) (refl, calm)
    | inr n ↦
        subst Runs (sym (if_false (to_lower p == to_lower d) _ _ n))
          (perform-Runs _ w _ calm refl refl)
  ]

  pub clear_up-Runs : (t : TransferRow) (w : World) → w.outcomes ≡ [] → Runs (clear_up to_lower t w)
  unfolding clear_up on_db
  clear_up-Runs t w calm =
      then-Runs (clear to_lower t.destination_path t.staging_path) _ w
        (clear-Runs t.destination_path t.staging_path w calm)
        (λ v k.
          then-Runs (clear to_lower t.destination_path t.temporary_path) _ v
            (clear-Runs t.destination_path t.temporary_path v k)
            (λ u j.
              then-Runs (on_db (remove_transfer t.transfer_id)) _ u (perform-Runs _ u _ j refl refl)
                (λ x l. perform-Runs _ x _ l refl refl)))
