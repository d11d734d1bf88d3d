-- ===== src/Transfers/Settles.antt =====
-- The recovery none of whose calls fails, of an installation and recoveries that have ended anywhere.
use mira_bridge.Base.{
  String, false, Option, none, some, List, [], ◌≡◌, refl, sym, ap, ◌∙◌, ◌⊎◌, inl, inr, subst, ◌>>◌,
  pure, ok, err, Result,
}
use mathlib.Core.Option.{some-injective}
use mira_bridge.State.Rows.{TransferRow, installed}
use mira_bridge.State.Transfers.{get_transfer}
use mira_bridge.Transfers.{
  Node, World, Outcome, Action, Failure, failed, node_at, rename, rm, moved,
}
use mira_bridge.Transfers.Recovery.{is_installed, exists_some, settle, clear_up, recover_or_remove}
use mira_bridge.Transfers.Ends.{Ends}
use mira_bridge.Transfers.Install.{Install, install_path}
use mira_bridge.Transfers.Install.Steps.{At, Apart, Phased}
use mira_bridge.Transfers.Install.Kept.{Kept, unmoved, away, doubtful, created, placed, Pending}
use mira_bridge.Transfers.Install.Crash.{Staged, install_path-Kept}
use mira_bridge.Transfers.Branches.{
  backup_named, settle_idle, settle_back, settle_refuses, settle_drops, settle_in,
}
use mira_bridge.Transfers.Restored.{Safe, Recovered, there, no_backup, recover_or_remove-Ends}
use mira_bridge.Transfers.Restarts.{restarts, restarts-Safe, Kept-later}
use mira_bridge.Transfers.Runs.{Runs, perform-Runs, then-Runs, clear_up-Runs}

module _ (to_lower : String → String) where
  module _ (i : Install) (a : Apart i) (old : Option Node) (new : Node) (w : World)
      (calm : w.outcomes ≡ []) where
    -- The recovery refuses to choose: both nodes are there, and it has changed nothing.
    abbrev pub Refuses : TransferRow → Type 0
    Refuses t =
        (recover_or_remove to_lower t w ≡ (err failed, w))
        × ((is_installed t.phase ≡ false)
            × ((node_at i.destination w.files ≡ some new) × (node_at i.backup w.files ≡ old)))

    abbrev Settles : TransferRow → Type 0
    Settles t = Runs (recover_or_remove to_lower t w) ⊎ Refuses t

    planned :
        (t : TransferRow) (m : Action (Unit {0}))
        → settle
            (is_installed t.phase)
            (exists_some t.destination_path w)
            (exists_some t.backup_path w)
            t.backup_path
            t.destination_path
          ≡ m
        → Runs (m w)
        → Settles t
    unfolding recover_or_remove
    planned t m e h = inl (
        subst (λ n. Runs ((n >> clear_up to_lower t) w)) (sym e)
          (then-Runs m (clear_up to_lower t) w h (clear_up-Runs to_lower t)))

    Settles-unmoved :
        (s : Option Node) (p : Option String)
        → (p ≡ none) ⊎ (p ≡ some i.backup)
        → (h : At i old none s (Pending p) w) → Settles h.row
    Settles-unmoved s p x h =
        planned h.row (pure tt)
          (settle_idle _ _ _ _ _ h.keeps.0 (
            no_backup to_lower i a old new w none p h.row.backup_path x h.keeps.1 h.at_backup refl))
          (refl, calm)

    Settles-created :
        (s : Option Node) (h : At i (some new) none s (Pending none) w) → Settles h.row
    Settles-created s h =
        planned h.row (pure tt)
          (settle_idle _ _ _ _ _ h.keeps.0 (
            no_backup to_lower i a old new w none none h.row.backup_path (inl refl) h.keeps.1
              h.at_backup refl))
          (refl, calm)

    Settles-away :
        (n : Node) (s : Option Node) (h : At i none (some n) s (Pending (some i.backup)) w)
        → Settles h.row
    unfolding rename
    Settles-away n s h =
        planned h.row (rename i.backup i.destination)
          (settle_back _ _ _ _ _ i.backup i.destination h.keeps.0
            (there to_lower i a old new w none (some n) s (Pending (some i.backup)) h)
            (backup_named i h.row (some n) w h.keeps.1 h.at_backup) h.keeps.1 h.bound)
          (perform-Runs _ w _ calm
            (ap (moved i.backup i.destination (record w { outcomes = [] })) h.at_backup) refl)

    Settles-doubtful :
        (n : Node) (s : Option Node)
        → old ≡ some n
        → (h : At i (some new) (some n) s (Pending (some i.backup)) w) → Settles h.row
    unfolding recover_or_remove
    Settles-doubtful n s o h = inr (
      ap (λ m. (m >> clear_up to_lower h.row) w)
          (settle_refuses _ _ _ _ _ h.keeps.0
            (there to_lower i a old new w (some new) (some n) s (Pending (some i.backup)) h)
            (backup_named i h.row (some n) w h.keeps.1 h.at_backup)),
      (h.keeps.0, (h.at_destination, h.at_backup ∙ sym o)),
    )

    Settles-placed :
        (b s : Option Node) (p : Option String)
        → (p ≡ none) ⊎ (p ≡ some i.backup)
        → (h : At i (some new) b s (Phased installed p) w) → Settles h.row
    unfolding rm
    Settles-placed none s p x h =
        planned h.row (pure tt)
          (settle_in _ _ _ _ _ (ap is_installed h.keeps.0)
            (there to_lower i a old new w (some new) none s (Phased installed p) h)
            (no_backup to_lower i a old new w none p h.row.backup_path x h.keeps.1 h.at_backup
              refl))
          (refl, calm)
    Settles-placed (some n) s p (inl y) h =
        planned h.row (pure tt)
          (settle_in _ _ _ _ _ (ap is_installed h.keeps.0)
            (there to_lower i a old new w (some new) (some n) s (Phased installed p) h)
            (ap (λ q. exists_some q w) (h.keeps.1 ∙ y)))
          (refl, calm)
    Settles-placed (some n) s p (inr y) h =
        planned h.row (rm i.backup)
          (settle_drops _ _ _ _ _ i.backup (ap is_installed h.keeps.0)
            (there to_lower i a old new w (some new) (some n) s (Phased installed p) h)
            (backup_named i h.row (some n) w (h.keeps.1 ∙ y) h.at_backup) (h.keeps.1 ∙ y))
          (perform-Runs _ w _ calm refl refl)

    settles :
        (t : TransferRow) → get_transfer i.transfer_id w.db ≡ some t → Kept i old new w → Settles t
    settles t h (unmoved s p x k) =
        subst Settles (some-injective k.row t (sym k.stored ∙ h)) (Settles-unmoved s p x k)
    settles t h (away n s o k) =
        subst Settles (some-injective k.row t (sym k.stored ∙ h)) (Settles-away n s k)
    settles t h (doubtful n s o k) =
        subst Settles (some-injective k.row t (sym k.stored ∙ h)) (Settles-doubtful n s o k)
    settles t h (created s k) =
        subst Settles (some-injective k.row t (sym k.stored ∙ h)) (Settles-created s k)
    settles t h (placed b s p x k) =
        subst Settles (some-injective k.row t (sym k.stored ∙ h)) (Settles-placed b s p x k)

-- The world with no failing calls to come.
abbrev pub calmed : World → World
calmed w = record w { outcomes = [] }

module _ (to_lower : String → String) (i : Install) (a : Apart i) (old : Option Node)
    (new : Node) where
  Recovered-then :
      (w : World) (r : Result Failure (Unit {0}) × World)
      → Ends (λ _. Recovered to_lower i a old new) (Safe to_lower i a old new) r
      → r.0 ≡ ok tt
      → Recovered to_lower i a old new r.1
  unfolding Ends
  Recovered-then w r h e =
      subst (λ x. Ends (λ _. Recovered to_lower i a old new) (Safe to_lower i a old new) (x, r.1)) e
        h

  -- An installation whose three paths are apart and whose rollback phase is before the commit point starts
  -- with the new node staged, no backup and a row before that point; any of its calls may fail, its process
  -- may end anywhere, and so may any number of recoveries after it. If the row is still there, a recovery
  -- none of whose calls fails then returns with the row removed and the old or the new node at the
  -- destination, or it refuses and changes nothing, where the new node is at the destination, the old one in
  -- the backup and the row not yet marked as installed.
  pub recover_or_remove_settles :
      (w : World) (oss : List (List Outcome)) (t : TransferRow)
      → is_installed i.rollback_phase ≡ false
      → Staged i old new w
      → get_transfer i.transfer_id (restarts to_lower i.transfer_id oss (install_path i w).1).db
        ≡ some t
      → let v = calmed (restarts to_lower i.transfer_id oss (install_path i w).1) in
        ((recover_or_remove to_lower t v).0 ≡ ok tt)
          × Recovered to_lower i a old new (recover_or_remove to_lower t v).1
        ⊎ Refuses to_lower i a old new v refl t
  recover_or_remove_settles w oss t early h found = by_state (
      restarts-Safe to_lower i a old new oss (install_path i w).1
        (inl (install_path-Kept i a new early old w h)))
    where
      u : World
      u = restarts to_lower i.transfer_id oss (install_path i w).1

      settled :
          Settles to_lower i a old new (calmed u) refl t
          → ((recover_or_remove to_lower t (calmed u)).0 ≡ ok tt
              → Recovered to_lower i a old new (recover_or_remove to_lower t (calmed u)).1)
          → ((recover_or_remove to_lower t (calmed u)).0 ≡ ok tt)
              × Recovered to_lower i a old new (recover_or_remove to_lower t (calmed u)).1
            ⊎ Refuses to_lower i a old new (calmed u) refl t
      settled (inl runs) f = inl (runs.0, f runs.0)
      settled (inr r) f = inr r

      by_state :
          Safe to_lower i a old new u
          → ((recover_or_remove to_lower t (calmed u)).0 ≡ ok tt)
              × Recovered to_lower i a old new (recover_or_remove to_lower t (calmed u)).1
            ⊎ Refuses to_lower i a old new (calmed u) refl t
      by_state (inl k) =
          settled
            (settles to_lower i a old new (calmed u) refl t found
              (Kept-later to_lower i a old new u [] k))
            (Recovered-then (calmed u) (recover_or_remove to_lower t (calmed u)) (
              recover_or_remove-Ends to_lower i a old new (calmed u) t found
                (Kept-later to_lower i a old new u [] k)))
      by_state (inr (inl f)) = cc (f.0, found)
      by_state (inr (inr f)) = cc (f.0, found)
