-- ===== src/Transfers/Install/Kept.antt =====
-- What stands between an installation and the loss of a file: wherever it ends, the old node is at the
-- destination or in the backup that the row names, or the new node is at the destination.
use mira_bridge.Base.{
  String, Bool, false, Option, none, some, ◌≡◌, refl, ap, ◌∙◌, ◌⊎◌, inl, ◌>>◌, ◌&&◌, not, pure,
  throw,
}
use mira_bridge.State.Rows.{TransferRow, Phase, committing, installed}
use mira_bridge.Transfers.{Node, World, raised, failed, node_at, rename, exists, catch_failure}
use mira_bridge.Transfers.Recovery.{is_installed}
use mira_bridge.Transfers.Install.{
  Install, on_phase, before_install, move_away, prepare, note_backup, refuse_appeared, replace,
  roll_back, clean_backup, install_over,
}
use mira_bridge.Transfers.Ends.{
  Ends, Ends-fails, if-Ends, throw-Ends, pure-Ends, then-Ends, catch-Ends,
}
use mira_bridge.Transfers.Install.Steps.{
  At, Phased, Apart, before_install-Ends, on_phase-Ends, rename-staging-Ends,
}

-- The backup path of the row, before the commit point.
abbrev pub Pending : Option String → TransferRow → Type 0
Pending backup t = (is_installed t.phase ≡ false) × (t.backup_path ≡ backup)

pub data Kept (i : Install) (old : Option Node) (new : Node) (w : World) : Type 0 where
  -- The destination is as it was.
  unmoved :
      (s : Option Node) (p : Option String)
      → (p ≡ none) ⊎ (p ≡ some i.backup)
      → At i old none s (Pending p) w
      → Kept i old new w
  -- The old node is in the backup only.
  away :
      (n : Node) (s : Option Node)
      → old ≡ some n
      → At i none (some n) s (Pending (some i.backup)) w
      → Kept i old new w
  -- The new node has been moved in and the row does not say so yet.
  doubtful :
      (n : Node) (s : Option Node)
      → old ≡ some n
      → At i (some new) (some n) s (Pending (some i.backup)) w
      → Kept i old new w
  -- There was nothing, and the new node has been moved in.
  created : (s : Option Node) → At i (some new) none s (Pending none) w → Kept i old new w
  -- The row says that the new node is in.
  placed :
      (b s : Option Node) (p : Option String)
      → (p ≡ none) ⊎ (p ≡ some i.backup)
      → At i (some new) b s (Phased installed p) w
      → Kept i old new w

At-weaker :
    (i : Install) (d b s : Option Node) (P Q : TransferRow → Type 0) (w : World)
    → ((t : TransferRow) → P t → Q t)
    → At i d b s P w
    → At i d b s Q w
At-weaker i d b s P Q w f h = record {
  row = h.row;
  stored = h.stored;
  bound = h.bound;
  keeps = f h.row h.keeps;
  at_destination = h.at_destination;
  at_backup = h.at_backup;
  at_staging = h.at_staging;
}

-- A phase before the commit point.
pub Pending-Phased :
    (i : Install) (d b s : Option Node) (phase : Phase) (p : Option String) (w : World)
    → is_installed phase ≡ false
    → At i d b s (Phased phase p) w
    → At i d b s (Pending p) w
Pending-Phased i d b s phase p w early h =
    At-weaker i d b s _ _ w (λ t k. (ap is_installed k.0 ∙ early, k.1)) h

module _ (i : Install) (a : Apart i) (new : Node) where
  -- The installation where nothing stands at the destination.
  abbrev pub Fresh : World → Type 0
  Fresh = At i none none (some new) (Pending none)

  fresh_kept : (w : World) → Fresh w → Kept i none new w
  fresh_kept w h = unmoved (some new) none (inl refl) h

  abbrev pub Done : Option Node → Option String → World → Type 0
  Done b p = At i (some new) b none (Phased installed p)

  prepare-Fresh : (w : World) → Fresh w → Ends (λ _. Fresh) (Kept i none new) (prepare i false w)
  unfolding prepare move_away Ends
  prepare-Fresh w h =
      then-Ends Fresh Fresh (λ _. Fresh) (Kept i none new) (before_install i) _ w
        (before_install-Ends i none none (some new) (Pending none) w h) fresh_kept
        (λ v k.
          then-Ends (At i none none (some new) (Phased committing none)) Fresh (λ _. Fresh)
            (Kept i none new) (on_phase i committing (some i.staging) none) _ v
            (on_phase-Ends i none none (some new) (Pending none) v committing (some i.staging) none
              k)
            fresh_kept (λ u j. Pending-Phased i none none (some new) committing none u refl j))

  refuse_appeared-Ends :
      (P : World → Type 0) (w : World) → P w → Ends (λ _. P) P (refuse_appeared i w)
  unfolding refuse_appeared Ends
  refuse_appeared-Ends P w h =
      if-Ends (λ _. P) P (not i.overwrite && exists i.destination w) (throw failed w) (pure tt w)
        (λ _. h) (λ _. h)

  -- The end of an installation: the new node is in, and the backup is removed or named as pending.
  abbrev pub Installed : Option Node → Bool → World → Type 0
  Installed old pending w =
      (node_at i.destination w.files ≡ some new)
      × ((pending ≡ false → node_at i.backup w.files ≡ none) × Kept i old new w)

  -- The part of the installation that moves the staged node in.
  module _ (old b : Option Node) (p : Option String)
      (start_kept : (w : World) → At i none b (some new) (Pending p) w → Kept i old new w)
      (moved_kept : (w : World) → At i (some new) b none (Pending p) w → Kept i old new w) where
    abbrev pub Start : World → Type 0
    Start = At i none b (some new) (Pending p)

    place :
        (w : World)
        → Start w
        → Ends
            (λ _. Done b p)
            (Kept i old new)
            ((rename i.staging i.destination >> on_phase i installed none p) w)
    place w h =
        then-Ends (At i (some new) b none (Pending p)) Start (λ _. Done b p) (Kept i old new)
          (rename i.staging i.destination) (on_phase i installed none p) w
          (rename-staging-Ends i none b (some new) (Pending p) w a new refl h) start_kept
          (λ v k.
            Ends-fails (λ _. Done b p) _ (Kept i old new) _ moved_kept
              (on_phase-Ends i (some new) b none (Pending p) v installed none p k))

    pub checked_place :
        (w : World)
        → Start w
        → Ends
            (λ _. Done b p)
            (Kept i old new)
            ((before_install i
                >> (refuse_appeared i
                    >> (rename i.staging i.destination >> on_phase i installed none p)))
              w)
    checked_place w h =
        then-Ends Start Start (λ _. Done b p) (Kept i old new) (before_install i) _ w
          (before_install-Ends i none b (some new) (Pending p) w h) start_kept
          (λ v k.
            then-Ends Start Start (λ _. Done b p) (Kept i old new) (refuse_appeared i) _ v
              (refuse_appeared-Ends Start v k) start_kept place)

  created_kept : (w : World) → At i (some new) none none (Pending none) w → Kept i none new w
  created_kept w h = created none h

  pub install-Fresh :
      (w : World) → Fresh w → Ends (Installed none) (Kept i none new) (install_over i false w)
  unfolding install_over replace note_backup roll_back clean_backup
  install-Fresh w h =
      then-Ends Fresh (Kept i none new) (Installed none) (Kept i none new) (prepare i false) _ w
        (prepare-Fresh w h) (λ v k. k)
        (λ v k.
          then-Ends (Done none none) (Kept i none new) (Installed none) (Kept i none new)
            (catch_failure (replace i false) (roll_back i false)) (clean_backup i false) v
            (catch-Ends (λ _. Done none none) (Kept i none new) (replace i false)
              (roll_back i false) v (checked_place none none none fresh_kept created_kept v k)
              (λ e u j. throw-Ends (λ _. Done none none) (Kept i none new) (raised e) u j))
            (λ u j. j)
            (λ u j.
              pure-Ends (Installed none) (Kept i none new) false u
                (j.at_destination, (λ _. j.at_backup, placed none none none (inl refl) j))))
