-- ===== src/Transfers/Restarts.antt =====
-- An installation whose process ends anywhere, and the recoveries of the processes after it, each of
-- which may end anywhere too.
use mira_bridge.Base.{
  String, false, Option, none, some, List, [], ◌∷◌, ◌≡◌, refl, sym, ◌∙◌, ◌⊎◌, inl, inr, subst, ok,
  err, Result,
}
use mira_bridge.State.Rows.{TransferRow, installed}
use mira_bridge.State.Transfers.{get_transfer}
use mira_bridge.Transfers.{Node, World, Outcome, Failure, node_at}
use mira_bridge.Transfers.Recovery.{is_installed, recover_or_remove}
use mira_bridge.Transfers.Restored.{Safe, Recovered, recover_or_remove-Ends}
use mira_bridge.Transfers.Install.{Install, install_path}
use mira_bridge.Transfers.Ends.{Ends}
use mira_bridge.Transfers.Install.Steps.{At-later, Apart, Phased}
use mira_bridge.Transfers.Install.Kept.{Kept, unmoved, away, doubtful, created, placed, Pending}
use mira_bridge.Transfers.Install.Crash.{Staged, install_path-Kept}

-- The next process recovers the transfer, if its row is still there; its calls have these outcomes.
unfoldable pub restart : (String → String) → String → List Outcome → World → World
unfolding recover_or_remove
restart to_lower id outcomes w = elim (get_transfer id w.db) [
  | none ↦ w
  | some t ↦ (recover_or_remove to_lower t (record w { outcomes = outcomes })).1
]

unfoldable pub restarts : (String → String) → String → List (List Outcome) → World → World
unfolding restart
restarts to_lower id [] w = w
restarts to_lower id (outcomes ∷ rest) w =
    restarts to_lower id rest (restart to_lower id outcomes w)

module _ (to_lower : String → String) (i : Install) (a : Apart i) (old : Option Node)
    (new : Node) where
  pub Kept-later :
      (w : World) (os : List Outcome)
      → Kept i old new w
      → Kept i old new (record w { outcomes = os })
  Kept-later w os (unmoved s p x h) = unmoved s p x (At-later i old none s (Pending p) w os h)
  Kept-later w os (away n s e h) =
      away n s e (At-later i none (some n) s (Pending (some i.backup)) w os h)
  Kept-later w os (doubtful n s e h) =
      doubtful n s e (At-later i (some new) (some n) s (Pending (some i.backup)) w os h)
  Kept-later w os (created s h) = created s (At-later i (some new) none s (Pending none) w os h)
  Kept-later w os (placed b s p x h) =
      placed b s p x (At-later i (some new) b s (Phased installed p) w os h)

  Ends-Safe :
      (r : Result Failure (Unit {0}) × World)
      → Ends (λ _. Recovered to_lower i a old new) (Safe to_lower i a old new) r
      → Safe to_lower i a old new r.1
  unfolding Ends
  Ends-Safe r h = by_result r.0 h
    where
      by_result :
          (x : Result Failure (Unit {0}))
          → Ends (λ _. Recovered to_lower i a old new) (Safe to_lower i a old new) (x, r.1)
          → Safe to_lower i a old new r.1
      by_result (ok v) k = inr k
      by_result (err e) k = k

  restart-Safe :
      (os : List Outcome) (w : World)
      → Safe to_lower i a old new w
      → Safe to_lower i a old new (restart to_lower i.transfer_id os w)
  unfolding restart
  restart-Safe os w (inl k) = by_row (get_transfer i.transfer_id w.db) refl
    where
      by_row :
          (r : Option TransferRow)
          → get_transfer i.transfer_id w.db ≡ r
          → Safe to_lower i a old new (elim r as (λ _. World) [
            | none ↦ w
            | some t ↦ (recover_or_remove to_lower t (record w { outcomes = os })).1
          ])
      by_row none e = inl k
      by_row (some t) e = Ends-Safe _ (
          recover_or_remove-Ends to_lower i a old new (record w { outcomes = os }) t e
            (Kept-later w os k))
  restart-Safe os w (inr (inl f)) =
      subst
        (λ r. Safe to_lower i a old new (elim r as (λ _. World) [
          | none ↦ w
          | some t ↦ (recover_or_remove to_lower t (record w { outcomes = os })).1
        ]))
        (sym f.0) (inr (inl f))
  restart-Safe os w (inr (inr f)) =
      subst
        (λ r. Safe to_lower i a old new (elim r as (λ _. World) [
          | none ↦ w
          | some t ↦ (recover_or_remove to_lower t (record w { outcomes = os })).1
        ]))
        (sym f.0) (inr (inr f))

  pub restarts-Safe :
      (oss : List (List Outcome)) (w : World)
      → Safe to_lower i a old new w
      → Safe to_lower i a old new (restarts to_lower i.transfer_id oss w)
  unfolding restarts
  restarts-Safe [] w h = h
  restarts-Safe (os ∷ oss) w h =
      restarts-Safe oss (restart to_lower i.transfer_id os w) (restart-Safe os w h)

  -- Either the old node is in its place, or only the backup holds it, or the new node is in its place.
  abbrev pub Whole : World → Type 0
  Whole w =
      (node_at i.destination w.files ≡ old)
      ⊎ ((node_at i.destination w.files ≡ none) × (node_at i.backup w.files ≡ old)
          ⊎ (node_at i.destination w.files ≡ some new))

  Safe-Whole : (w : World) → Safe to_lower i a old new w → Whole w
  Safe-Whole w (inl (unmoved s p x h)) = inl h.at_destination
  Safe-Whole w (inl (away n s e h)) = inr (inl (h.at_destination, h.at_backup ∙ sym e))
  Safe-Whole w (inl (doubtful n s e h)) = inr (inr h.at_destination)
  Safe-Whole w (inl (created s h)) = inr (inr h.at_destination)
  Safe-Whole w (inl (placed b s p x h)) = inr (inr h.at_destination)
  Safe-Whole w (inr (inl f)) = inl f.1
  Safe-Whole w (inr (inr f)) = inr (inr f.1)

  -- For an installation whose three paths are apart, which starts with the new node staged, no backup and a
  -- row before the commit point, and whose rollback phase is before it too: whatever calls of it fail and
  -- wherever its process ends, and wherever then the processes end that recover it, the destination holds
  -- the old node or the new one, or it is empty and the backup holds the old node.
  pub install_path-Whole :
      (w : World) (oss : List (List Outcome))
      → is_installed i.rollback_phase ≡ false
      → Staged i old new w
      → Whole (restarts to_lower i.transfer_id oss (install_path i w).1)
  install_path-Whole w oss early h =
      Safe-Whole _
        (restarts-Safe oss (install_path i w).1 (inl (install_path-Kept i a new early old w h)))
