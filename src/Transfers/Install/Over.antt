-- ===== src/Transfers/Install/Over.antt =====
-- The installation over an existing node: the node goes to the backup, and the handler of `try` puts it
-- back where nothing stands at the destination.
use mira_bridge.Base.{
  String, true, false, Option, none, some, ◌≡◌, refl, sym, ap, ◌⊎◌, inl, inr, subst, ◌>>◌, pure,
  throw, is_some,
}
use mira_bridge.Protocol.Errors.{Thrown}
use mira_bridge.State.Rows.{committing, backed_up, installed}
use mira_bridge.Transfers.{Node, World, raised, failed, rename, rm, exists, catch_failure}
use mira_bridge.Transfers.Recovery.{is_installed}
use mira_bridge.Transfers.Install.{
  Install, on_phase, before_install, move_away, prepare, note_backup, replace, roll_back,
  clean_backup, install_over,
}
use mira_bridge.Transfers.Ends.{
  Ends, Ends-map, Ends-fails, if-Ends, throw-Ends, pure-Ends, then-Ends, catch-Ends,
}
use mira_bridge.Transfers.Install.Steps.{
  At, Phased, Apart, before_install-Ends, on_phase-Ends, rename-backup-Ends, rename-restore-Ends,
  rm-backup-Ends,
}
use mira_bridge.Transfers.Install.Kept.{
  Kept, unmoved, away, doubtful, created, placed, Pending, Done, Installed, checked_place,
  Pending-Phased,
}

module _ (i : Install) (a : Apart i) (new n : Node) where
  abbrev KeptOld : World → Type 0
  KeptOld = Kept i (some n) new

  abbrev named : Option String
  named = some i.backup

  away_kept : (s : Option Node) (w : World) → At i none (some n) s (Pending named) w → KeptOld w
  away_kept s w h = away n s refl h

  doubtful_kept :
      (s : Option Node) (w : World) → At i (some new) (some n) s (Pending named) w → KeptOld w
  doubtful_kept s w h = doubtful n s refl h

  unmoved_kept : (s : Option Node) (w : World) → At i (some n) none s (Pending named) w → KeptOld w
  unmoved_kept s w h = unmoved s named (inr refl) h

  begun_kept : (w : World) → At i (some n) none (some new) (Pending none) w → KeptOld w
  begun_kept w h = unmoved (some new) none (inl refl) h

  abbrev pub Begun : World → Type 0
  Begun = At i (some n) none (some new) (Pending none)

  abbrev Gone : World → Type 0
  Gone = At i none (some n) (some new) (Pending named)

  prepare_old : (w : World) → Begun w → Ends (λ _. Gone) KeptOld (prepare i true w)
  unfolding prepare move_away
  prepare_old w h =
      then-Ends Begun Begun (λ _. Gone) KeptOld (before_install i) _ w
        (before_install-Ends i (some n) none (some new) (Pending none) w h) begun_kept
        (λ v k.
          then-Ends (At i (some n) none (some new) (Phased committing named)) Begun (λ _. Gone)
            KeptOld (on_phase i committing (some i.staging) named) _ v
            (on_phase-Ends i (some n) none (some new) (Pending none) v committing (some i.staging)
              named k)
            begun_kept
            (λ u j.
              Ends-fails (λ _. Gone) _ KeptOld _ (unmoved_kept (some new))
                (rename-backup-Ends i (some n) none (some new) (Pending named) u a n refl
                  (Pending-Phased i (some n) none (some new) committing named u refl j))))

  replace_old :
      (w : World) → Gone w → Ends (λ _. Done i a new (some n) named) KeptOld (replace i true w)
  unfolding replace note_backup
  replace_old w h =
      then-Ends (At i none (some n) (some new) (Phased backed_up named)) Gone
        (λ _. Done i a new (some n) named) KeptOld (on_phase i backed_up (some i.staging) named) _ w
        (on_phase-Ends i none (some n) (some new) (Pending named) w backed_up (some i.staging) named
          h)
        (away_kept (some new))
        (λ v k.
          checked_place i a new (some n) (some n) named (away_kept (some new)) (doubtful_kept none)
            v (Pending-Phased i none (some n) (some new) backed_up named v refl k))

  -- A clean-up that is still pending.
  abbrev Uncleaned : World → Type 0
  Uncleaned = Installed i a new (some n) true

  uncleaned :
      (b : Option Node) (p : Option String) (w : World)
      → (p ≡ none) ⊎ (p ≡ named)
      → Done i a new b p w
      → Uncleaned w
  uncleaned b p w x h = (h.at_destination, (λ q. cc q, placed b none p x h))

  remove_backup :
      (w : World)
      → Done i a new (some n) named w
      → Ends
          (λ _. Done i a new none none)
          Uncleaned
          ((rm i.backup >> on_phase i installed none none) w)
  remove_backup w h =
      then-Ends (Done i a new none named) (Done i a new (some n) named)
        (λ _. Done i a new none none) Uncleaned (rm i.backup) (on_phase i installed none none) w
        (rm-backup-Ends i (some new) (some n) none (Phased installed named) w a h)
        (λ v. uncleaned (some n) named v (inr refl))
        (λ v k.
          Ends-fails (λ _. Done i a new none none) (Done i a new none named) Uncleaned _
            (λ u. uncleaned none named u (inr refl))
            (on_phase-Ends i (some new) none none (Phased installed named) v installed none none k))

  clean_old :
      (w : World)
      → Done i a new (some n) named w
      → Ends (Installed i a new (some n)) KeptOld (clean_backup i true w)
  unfolding clean_backup
  clean_old w h =
      Ends-fails (Installed i a new (some n)) Uncleaned KeptOld _ (λ v k. k.1.1)
        (catch-Ends (Installed i a new (some n)) Uncleaned
          (rm i.backup >> on_phase i installed none none >> pure false) (λ _. pure true) w
          (then-Ends (Done i a new none none) Uncleaned (Installed i a new (some n)) Uncleaned
            (rm i.backup >> on_phase i installed none none) (pure false) w (remove_backup w h)
            (λ v k. k)
            (λ v k.
              pure-Ends (Installed i a new (some n)) Uncleaned false v
                (k.at_destination, (λ _. k.at_backup, placed none none none (inl refl) k))))
          (λ e v k. pure-Ends (Installed i a new (some n)) Uncleaned true v k))

  module _ (early : is_installed i.rollback_phase ≡ false) where
    restored_kept :
        (s : Option Node) (w : World)
        → At i (some n) none s (Phased i.rollback_phase none) w
        → KeptOld w
    restored_kept s w h =
        unmoved s none (inl refl) (Pending-Phased i (some n) none s i.rollback_phase none w early h)

    restore :
        (s : Option Node) (w : World)
        → At i none (some n) s (Pending named) w
        → Ends
            (λ _. KeptOld)
            KeptOld
            ((rename i.backup i.destination >> on_phase i i.rollback_phase (some i.staging) none) w)
    restore s w h =
        then-Ends (At i (some n) none s (Pending named)) (At i none (some n) s (Pending named))
          (λ _. KeptOld) KeptOld (rename i.backup i.destination) _ w
          (rename-restore-Ends i none (some n) s (Pending named) w a n refl h) (away_kept s)
          (λ v k.
            Ends-map _ (λ _. KeptOld) _ KeptOld _ (λ _. restored_kept s) (unmoved_kept s)
              (on_phase-Ends i (some n) none s (Pending named) v i.rollback_phase (some i.staging)
                none k))

    -- The handler puts the backup back where nothing stands at the destination.
    roll_back_old :
        (Q : Unit {0} → World → Type 0) (e : Thrown) (w : World)
        → KeptOld w
        → Ends Q KeptOld (roll_back i true (raised e) w)
    unfolding roll_back
    roll_back_old Q e w h =
        if-Ends Q KeptOld (exists i.destination w) (throw (raised e) w) _
          (λ _. throw-Ends Q KeptOld (raised e) w h)
          (λ absent.
            then-Ends KeptOld KeptOld Q KeptOld
              (catch_failure
                (rename i.backup i.destination >> on_phase i i.rollback_phase (some i.staging) none)
                (λ _. throw failed))
              (throw (raised e)) w
              (catch-Ends (λ _. KeptOld) KeptOld
                (rename i.backup i.destination >> on_phase i i.rollback_phase (some i.staging) none)
                (λ _. throw failed) w (missing h absent)
                (λ t v k. throw-Ends (λ _. KeptOld) KeptOld failed v k))
              (λ v k. k) (λ v k. throw-Ends Q KeptOld (raised e) v k))
      where
        missing :
            KeptOld w
            → exists i.destination w ≡ false
            → Ends
                (λ _. KeptOld)
                KeptOld
                ((rename i.backup i.destination
                    >> on_phase i i.rollback_phase (some i.staging) none)
                  w)
        missing (unmoved s p x k) absent = absurd (cc (ap is_some k.at_destination, absent))
        missing (away m s e k) absent =
            restore s w (subst (λ o. At i none o s (Pending named) w) (sym e) k)
        missing (doubtful m s e k) absent = absurd (cc (ap is_some k.at_destination, absent))
        missing (created s k) absent = absurd (cc (ap is_some k.at_destination, absent))
        missing (placed b s p x k) absent = absurd (cc (ap is_some k.at_destination, absent))

    pub install_old :
        (w : World) → Begun w → Ends (Installed i a new (some n)) KeptOld (install_over i true w)
    unfolding install_over
    install_old w h =
        then-Ends Gone KeptOld (Installed i a new (some n)) KeptOld (prepare i true) _ w
          (prepare_old w h) (λ v k. k)
          (λ v k.
            then-Ends (Done i a new (some n) named) KeptOld (Installed i a new (some n)) KeptOld
              (catch_failure (replace i true) (roll_back i true)) (clean_backup i true) v
              (catch-Ends (λ _. Done i a new (some n) named) KeptOld (replace i true)
                (roll_back i true) v (replace_old v k)
                (roll_back_old (λ _. Done i a new (some n) named)))
              (λ u j. j) clean_old)
