-- ===== src/Transfers/Branches.antt =====
-- The branches of a recovery, and what follows each of them.
use mira_bridge.Base.{
  String, Bool, true, false, Option, some, ◌≡◌, refl, sym, ap, ◌∙◌, ◌⊎◌, inl, inr, subst, ◌>>◌,
  throw, pure, is_some,
}
use mira_bridge.State.Rows.{TransferRow}
use mira_bridge.Transfers.{Node, World, Action, failed, node_at, rename, rm}
use mira_bridge.Transfers.Recovery.{is_installed, exists_some, settle, clear_up, recover_or_remove}
use mira_bridge.Transfers.Restart.{Finished, Steady, steady, clear_up-Ends}
use mira_bridge.Transfers.Install.{Install}
use mira_bridge.Transfers.Ends.{Ends, Ends-map, then-Ends}
use mira_bridge.Transfers.Install.Steps.{At, Apart}

-- A row of which something holds, and which is the one that was read.
abbrev pub Read : (TransferRow → Type 0) → TransferRow → TransferRow → Type 0
Read P t r = P r × (r ≡ t)

pub read :
    (i : Install) (d b s : Option Node) (P : TransferRow → Type 0) (w : World) (h : At i d b s P w)
    → At i d b s (Read P h.row) w
read i d b s P w h = record {
  row = h.row;
  stored = h.stored;
  bound = h.bound;
  keeps = (h.keeps, refl);
  at_destination = h.at_destination;
  at_backup = h.at_backup;
  at_staging = h.at_staging;
}

pub unread :
    (i : Install) (d b b' s : Option Node) (P : TransferRow → Type 0) (t : TransferRow) (w : World)
    → b' ≡ b
    → At i d b' s (Read P t) w
    → At i d b s P w
unread i d b b' s P t w e h = record {
  row = h.row;
  stored = h.stored;
  bound = h.bound;
  keeps = h.keeps.0;
  at_destination = h.at_destination;
  at_backup = h.at_backup ∙ e;
  at_staging = h.at_staging;
}

-- Whether the backup of the row exists.
pub backup_named :
    (i : Install) (t : TransferRow) (b : Option Node) (w : World)
    → t.backup_path ≡ some i.backup
    → node_at i.backup w.files ≡ b
    → exists_some t.backup_path w ≡ is_some b
backup_named i t b w e h = ap (λ p. exists_some p w) e ∙ ap is_some h

pub settle_idle :
    (c de be : Bool) (bp dp : Option String)
    → c ≡ false
    → be ≡ false
    → settle c de be bp dp ≡ pure tt
unfolding settle
settle_idle c de be bp dp h k = rw (h, k) refl

pub settle_back :
    (c de be : Bool) (bp dp : Option String) (b d : String)
    → c ≡ false
    → de ≡ false
    → be ≡ true
    → bp ≡ some b
    → dp ≡ some d
    → settle c de be bp dp ≡ rename b d
unfolding settle
settle_back c de be bp dp b d h k l m n = rw (h, k, l, m, n) refl

pub settle_refuses :
    (c de be : Bool) (bp dp : Option String)
    → c ≡ false
    → de ≡ true
    → be ≡ true
    → settle c de be bp dp ≡ throw failed
unfolding settle
settle_refuses c de be bp dp h k l = rw (h, k, l) refl

pub settle_drops :
    (c de be : Bool) (bp dp : Option String) (b : String)
    → c ≡ true
    → de ≡ true
    → be ≡ true
    → bp ≡ some b
    → settle c de be bp dp ≡ rm b
unfolding settle
settle_drops c de be bp dp b h k l m = rw (h, k, l, m) refl

pub settle_in :
    (c de be : Bool) (bp dp : Option String)
    → c ≡ true
    → de ≡ true
    → be ≡ false
    → settle c de be bp dp ≡ pure tt
unfolding settle
settle_in c de be bp dp h k l = rw (h, k, l) refl

module _ (to_lower : String → String) (i : Install) (a : Apart i) where
  -- What a failure of the recovery leaves.
  abbrev pub Left :
      Option Node → Option Node → TransferRow → (TransferRow → Type 0) → World → Type 0
  Left d b t P v = Steady i d b t (Read P t) v ⊎ Finished i d v

  -- The branches do nothing.
  pub skipped :
      (d b s : Option Node) (P : TransferRow → Type 0) (w : World) (h : At i d b s P w)
      → settle
          (is_installed h.row.phase)
          (exists_some h.row.destination_path w)
          (exists_some h.row.backup_path w)
          h.row.backup_path
          h.row.destination_path
        ≡ pure tt
      → Ends (λ _. Finished i d) (Left d b h.row P) (recover_or_remove to_lower h.row w)
  unfolding recover_or_remove read
  skipped d b s P w h e =
      subst (λ m. Ends (λ _. Finished i d) (Left d b h.row P) ((m >> clear_up to_lower h.row) w))
        (sym e)
        (clear_up-Ends i d b h.row (Read P h.row) to_lower w
          (steady b s (λ q. q) (read i d b s P w h) refl))

  -- The branches make one call, which changes what stands at the destination and in the backup.
  pub called :
      (d b s d' b' s' : Option Node) (P : TransferRow → Type 0) (w : World) (h : At i d b s P w)
      (m : Action (Unit {0}))
      → settle
          (is_installed h.row.phase)
          (exists_some h.row.destination_path w)
          (exists_some h.row.backup_path w)
          h.row.backup_path
          h.row.destination_path
        ≡ m
      → Ends (λ _. At i d' b' s' (Read P h.row)) (At i d b s (Read P h.row)) (m w)
      → Ends
          (λ _. Finished i d')
          (λ v. At i d b s (Read P h.row) v ⊎ Left d' b' h.row P v)
          (recover_or_remove to_lower h.row w)
  unfolding recover_or_remove
  called d b s d' b' s' P w h m e k =
      subst
        (λ m.
          Ends (λ _. Finished i d') (λ v. At i d b s (Read P h.row) v ⊎ Left d' b' h.row P v)
            ((m >> clear_up to_lower h.row) w))
        (sym e)
        (then-Ends (At i d' b' s' (Read P h.row)) (At i d b s (Read P h.row)) (λ _. Finished i d')
          (λ v. At i d b s (Read P h.row) v ⊎ Left d' b' h.row P v) m (clear_up to_lower h.row) w k
          (λ v j. inl j)
          (λ v j.
            Ends-map (λ _. Finished i d') (λ _. Finished i d') (Left d' b' h.row P) _ _ (λ _ u l. l)
              (λ u l. inr l)
              (clear_up-Ends i d' b' h.row (Read P h.row) to_lower v
                (steady b' s' (λ q. q) j j.keeps.1))))
