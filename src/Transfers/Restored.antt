-- ===== src/Transfers/Restored.antt =====
-- The recovery of an installation, from each of the places where it may have ended.
use mira_bridge.Base.{
  String, true, false, Option, none, some, ◌≡◌, refl, sym, ap, ◌∙◌, ◌⊎◌, inl, inr, subst, ◌>>◌,
  is_some,
}
use mathlib.Core.Option.{some-injective}
use mira_bridge.State.Rows.{TransferRow, installed}
use mira_bridge.State.Transfers.{get_transfer}
use mira_bridge.Transfers.{Node, World, failed, node_at, rename, rm}
use mira_bridge.Transfers.Recovery.{is_installed, exists_some, clear_up, recover_or_remove}
use mira_bridge.Transfers.Restart.{Finished, steady}
use mira_bridge.Transfers.Install.{Install}
use mira_bridge.Transfers.Ends.{Ends, throw-Ends, Ends-map}
use mira_bridge.Transfers.Install.Steps.{At, Apart, Phased, rename-restore-Ends, rm-backup-Ends}
use mira_bridge.Transfers.Install.Kept.{Kept, unmoved, away, doubtful, created, placed, Pending}
use mira_bridge.Transfers.Branches.{
  Read, read, unread, backup_named, settle_idle, settle_back, settle_refuses, settle_drops,
  settle_in, Left, skipped, called,
}

module _ (to_lower : String → String) (i : Install) (a : Apart i) where
  -- What a recovery may leave when it fails in its turn.
  abbrev pub Safe : Option Node → Node → World → Type 0
  Safe old new v = Kept i old new v ⊎ (Finished i old v ⊎ Finished i (some new) v)

  abbrev pub Recovered : Option Node → Node → World → Type 0
  Recovered old new v = Finished i old v ⊎ Finished i (some new) v

  module _ (old : Option Node) (new : Node) (w : World) where
    abbrev Recovers : TransferRow → Type 0
    Recovers t = Ends (λ _. Recovered old new) (Safe old new) (recover_or_remove to_lower t w)

    pub there :
        (d b s : Option Node) (P : TransferRow → Type 0) (h : At i d b s P w)
        → exists_some h.row.destination_path w ≡ is_some d
    there d b s P h = ap (λ p. exists_some p w) h.bound ∙ ap is_some h.at_destination

    pub no_backup :
        (b : Option Node) (p bp : Option String)
        → (p ≡ none) ⊎ (p ≡ some i.backup)
        → bp ≡ p
        → node_at i.backup w.files ≡ b
        → b ≡ none
        → exists_some bp w ≡ false
    no_backup b p bp (inl e) k h none_there = ap (λ q. exists_some q w) (k ∙ e)
    no_backup b p bp (inr e) k h none_there =
        ap (λ q. exists_some q w) (k ∙ e) ∙ ap is_some (h ∙ none_there)

    recover-unmoved :
        (s : Option Node) (p : Option String) (x : (p ≡ none) ⊎ (p ≡ some i.backup))
        (h : At i old none s (Pending p) w)
        → Recovers h.row
    recover-unmoved s p x h =
        Ends-map (λ _. Finished i old) (λ _. Recovered old new) _ (Safe old new) _ (λ _ v k. inl k)
          left
          (skipped to_lower i a old none s (Pending p) w h (
            settle_idle _ _ _ _ _ h.keeps.0
              (no_backup none p h.row.backup_path x h.keeps.1 h.at_backup refl)))
      where
        left : (v : World) → Left to_lower i a old none h.row (Pending p) v → Safe old new v
        left v (inl (steady b' s' f k e)) =
            inl (unmoved s' p x (unread i old none b' s' (Pending p) h.row v (f refl) k))
        left v (inr k) = inr (inl k)

    recover-created :
        (s : Option Node) (h : At i (some new) none s (Pending none) w) → Recovers h.row
    recover-created s h =
        Ends-map (λ _. Finished i (some new)) (λ _. Recovered old new) _ (Safe old new) _
          (λ _ v k. inr k) left
          (skipped to_lower i a (some new) none s (Pending none) w h (
            settle_idle _ _ _ _ _ h.keeps.0
              (no_backup none none h.row.backup_path (inl refl) h.keeps.1 h.at_backup refl)))
      where
        left :
            (v : World) → Left to_lower i a (some new) none h.row (Pending none) v → Safe old new v
        left v (inl (steady b' s' f k e)) =
            inl (created s' (unread i (some new) none b' s' (Pending none) h.row v (f refl) k))
        left v (inr k) = inr (inr k)

    recover-away :
        (n : Node) (s : Option Node)
        → old ≡ some n
        → (h : At i none (some n) s (Pending (some i.backup)) w) → Recovers h.row
    recover-away n s o h =
        Ends-map (λ _. Finished i (some n)) (λ _. Recovered old new) _ (Safe old new) _
          (λ _ v k. inl (subst (λ d. Finished i d v) (sym o) k)) left
          (called to_lower i a none (some n) s (some n) none s (Pending (some i.backup)) w h
            (rename i.backup i.destination)
            (settle_back _ _ _ _ _ i.backup i.destination h.keeps.0
              (there none (some n) s (Pending (some i.backup)) h)
              (backup_named i h.row (some n) w h.keeps.1 h.at_backup) h.keeps.1 h.bound)
            (rename-restore-Ends i none (some n) s (Read (Pending (some i.backup)) h.row) w a n refl
              (read i none (some n) s (Pending (some i.backup)) w h)))
      where
        left :
            (v : World)
            → At i none (some n) s (Read (Pending (some i.backup)) h.row) v
              ⊎ Left to_lower i a (some n) none h.row (Pending (some i.backup)) v
            → Safe old new v
        left v (inl k) = inl (
            away n s o (unread i none (some n) (some n) s (Pending (some i.backup)) h.row v refl k))
        left v (inr (inl (steady b' s' f k e))) = inl (
            unmoved s' (some i.backup) (inr refl) (
              subst (λ d. At i d none s' (Pending (some i.backup)) v) (sym o)
                (unread i (some n) none b' s' (Pending (some i.backup)) h.row v (f refl) k)))
        left v (inr (inr k)) = inr (inl (subst (λ d. Finished i d v) (sym o) k))

    recover-doubtful :
        (n : Node) (s : Option Node)
        → old ≡ some n
        → (h : At i (some new) (some n) s (Pending (some i.backup)) w) → Recovers h.row
    unfolding recover_or_remove
    recover-doubtful n s o h =
        subst (λ m. Ends (λ _. Recovered old new) (Safe old new) ((m >> clear_up to_lower h.row) w))
          (sym (
            settle_refuses _ _ _ _ _ h.keeps.0
              (there (some new) (some n) s (Pending (some i.backup)) h)
              (backup_named i h.row (some n) w h.keeps.1 h.at_backup)))
          (throw-Ends (λ _. Recovered old new) (Safe old new) failed w (inl (doubtful n s o h)))

    recover-placed :
        (b s : Option Node) (p : Option String)
        → (p ≡ none) ⊎ (p ≡ some i.backup)
        → (h : At i (some new) b s (Phased installed p) w) → Recovers h.row
    recover-placed b s p x h = by_backup b h x
      where
        inside :
            (b : Option Node) (h : At i (some new) b s (Phased installed p) w)
            → is_installed h.row.phase ≡ true
        inside b h = ap is_installed h.keeps.0

        left :
            (b : Option Node) (t : TransferRow) (v : World)
            → Left to_lower i a (some new) b t (Phased installed p) v
            → Safe old new v
        left b t v (inl (steady b' s' f k e)) =
            inl (placed b' s' p x (unread i (some new) b' b' s' (Phased installed p) t v refl k))
        left b t v (inr k) = inr (inr k)

        nothing :
            (b : Option Node) (h : At i (some new) b s (Phased installed p) w)
            → exists_some h.row.backup_path w ≡ false
            → Recovers h.row
        nothing b h e =
            Ends-map (λ _. Finished i (some new)) (λ _. Recovered old new) _ (Safe old new) _
              (λ _ v k. inr k) (left b h.row)
              (skipped to_lower i a (some new) b s (Phased installed p) w h
                (settle_in _ _ _ _ _ (inside b h) (there (some new) b s (Phased installed p) h) e))

        dropped :
            (n : Node) (h : At i (some new) (some n) s (Phased installed p) w)
            → p ≡ some i.backup
            → Recovers h.row
        dropped n h q =
            Ends-map (λ _. Finished i (some new)) (λ _. Recovered old new) _ (Safe old new) _
              (λ _ v k. inr k) gone
              (called to_lower i a (some new) (some n) s (some new) none s (Phased installed p) w h
                (rm i.backup)
                (settle_drops _ _ _ _ _ i.backup (inside (some n) h)
                  (there (some new) (some n) s (Phased installed p) h)
                  (backup_named i h.row (some n) w (h.keeps.1 ∙ q) h.at_backup) (h.keeps.1 ∙ q))
                (rm-backup-Ends i (some new) (some n) s (Read (Phased installed p) h.row) w a
                  (read i (some new) (some n) s (Phased installed p) w h)))
          where
            gone :
                (v : World)
                → At i (some new) (some n) s (Read (Phased installed p) h.row) v
                  ⊎ Left to_lower i a (some new) none h.row (Phased installed p) v
                → Safe old new v
            gone v (inl k) = inl (
                placed (some n) s p x
                  (unread i (some new) (some n) (some n) s (Phased installed p) h.row v refl k))
            gone v (inr k) = left none h.row v k

        by_backup :
            (b : Option Node) (h : At i (some new) b s (Phased installed p) w)
            → (p ≡ none) ⊎ (p ≡ some i.backup)
            → Recovers h.row
        by_backup none h y =
            nothing none h (no_backup none p h.row.backup_path y h.keeps.1 h.at_backup refl)
        by_backup (some n) h (inl y) =
            nothing (some n) h (ap (λ q. exists_some q w) (h.keeps.1 ∙ y))
        by_backup (some n) h (inr y) = dropped n h y

    -- The recovery of a stored row where an installation with its paths apart may have ended, with any outcomes
    -- of its own calls: if it returns, the row is removed and the old or the new node is at the
    -- destination; if not, what is left is again a place where the installation may have ended, or it is as after
    -- a recovery that returns.
    pub recover_or_remove-Ends :
        (t : TransferRow)
        → get_transfer i.transfer_id w.db ≡ some t
        → Kept i old new w
        → Ends (λ _. Recovered old new) (Safe old new) (recover_or_remove to_lower t w)
    recover_or_remove-Ends t h (unmoved s p x k) =
        subst Recovers (some-injective k.row t (sym k.stored ∙ h)) (recover-unmoved s p x k)
    recover_or_remove-Ends t h (away n s o k) =
        subst Recovers (some-injective k.row t (sym k.stored ∙ h)) (recover-away n s o k)
    recover_or_remove-Ends t h (doubtful n s o k) =
        subst Recovers (some-injective k.row t (sym k.stored ∙ h)) (recover-doubtful n s o k)
    recover_or_remove-Ends t h (created s k) =
        subst Recovers (some-injective k.row t (sym k.stored ∙ h)) (recover-created s k)
    recover_or_remove-Ends t h (placed b s p x k) =
        subst Recovers (some-injective k.row t (sym k.stored ∙ h)) (recover-placed b s p x k)
