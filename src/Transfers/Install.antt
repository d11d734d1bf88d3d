-- ===== src/Transfers/Install.antt =====
-- `installPath`: the staged node takes the place of the destination, which is kept as a backup until
-- then.
pub mod Steps
pub mod Kept
pub mod Over
pub mod Crash
use mira_bridge.Base.{
  String, Bool, true, false, Option, none, some, ◌&&◌, not, if◌then◌else◌, ok, pure, throw,
  continue, ◌>>=◌, ◌>>◌,
}
use mira_bridge.State.Rows.{Phase, committing, backed_up, installed, Time}
use mira_bridge.State.Transfers.{set_transfer_recovery}
use mira_bridge.Transfers.{
  World, Action, Failure, raised, crashed, failed, exists, perform, rename, rm, on_db,
  catch_failure,
}

-- The arguments, with the backup's path, which `randomUUID` makes, and the transfer of `onPhase`.
pub record Install : Type 0 where
  pub transfer_id : String
  pub staging : String
  pub destination : String
  pub backup : String
  pub overwrite : Bool
  pub rollback_phase : Phase
  pub now : Time

module _ (i : Install) where
  -- `onPhase`
  unfoldable pub on_phase : Phase → Option String → Option String → Action (Unit {0})
  unfolding on_db
  on_phase phase staging_path backup_path =
      on_db (set_transfer_recovery i.transfer_id phase staging_path backup_path i.now)

  -- `beforeInstall`, a check that changes nothing and may throw.
  unfoldable pub before_install : Action (Unit {0})
  unfolding perform
  before_install = perform (λ w. ok w)

  abbrev backup_if : Bool → Option String
  backup_if there = if there then some i.backup else none

  move_away : Bool → Action (Unit {0})
  unfolding rename
  move_away false = pure tt
  move_away true = rename i.destination i.backup

  -- The body of `try` up to `backedUp = true`.
  unfoldable pub prepare : Bool → Action (Unit {0})
  unfolding before_install on_phase move_away
  prepare there = do
    before_install
    on_phase committing (some i.staging) (backup_if there)
    move_away there

  note_backup : Bool → Action (Unit {0})
  unfolding on_phase
  note_backup false = pure tt
  note_backup true = on_phase backed_up (some i.staging) (some i.backup)

  pub refuse_appeared : Action (Unit {0})
  refuse_appeared w =
      if not i.overwrite && exists i.destination w then throw failed w else pure tt w

  -- The rest of that body.
  unfoldable pub replace : Bool → Action (Unit {0})
  unfolding note_backup before_install refuse_appeared rename on_phase
  replace there = do
    note_backup there
    before_install
    refuse_appeared
    rename i.staging i.destination
    on_phase installed none (backup_if there)

  -- The `catch` of the body, where `backedUp` is the argument.
  unfoldable pub roll_back : Bool → Failure → Action (Unit {0})
  unfolding rename on_phase
  roll_back false e w = throw e w
  roll_back true e w =
      if exists i.destination w
      then throw e w
      else (catch_failure
              (rename i.backup i.destination >> on_phase i.rollback_phase (some i.staging) none)
              (λ _. throw failed)
            >> throw e)
          w

  -- Whether the clean-up of the backup is pending.
  unfoldable pub clean_backup : Bool → Action Bool
  unfolding rm on_phase
  clean_backup false = pure false
  clean_backup true =
      catch_failure (rm i.backup >> on_phase installed none none >> pure false) (λ _. pure true)

  pub install_over : Bool → Action Bool
  unfolding prepare replace roll_back clean_backup
  install_over there = do
    prepare there
    catch_failure (replace there) (roll_back there)
    clean_backup there

  unfoldable pub install_path : Action Bool
  unfolding install_over
  install_path w =
      if exists i.destination w && not i.overwrite
      then throw failed w
      else install_over (exists i.destination w) w
