-- ===== src/Transfers/Recovery.antt =====
-- What is done with the transfers that an ended process has left: `recoverOrRemove`, `finish` and the
-- first loop of `cleanupStale`.
use mira_bridge.Base.{
  ℕ, String, Bool, true, false, Option, none, some, List, [], ◌∷◌, ◌==◌, ◌&&◌, not, if◌then◌else◌,
  leb, is_some, pure, throw, ◌>>◌,
}
use mira_bridge.Protocol.Errors.{bridge, bridge_error, resource_changed}
use mira_bridge.State.Rows.{TransferRow, Phase, installed, receiving, Time}
use mira_bridge.State.Transfers.{
  get_transfer, all_transfers, remove_transfer, abandon_transfer_owner,
}
use mira_bridge.State.Reservations.{release_storage_reservation}
use mira_bridge.Transfers.{World, Action, raised, failed, exists, rename, rm, on_db, catch_failure}

abbrev pub is_installed : Phase → Bool
is_installed phase = elim phase [ installed ↦ true | _ ↦ false ]

abbrev is_receiving : Phase → Bool
is_receiving phase = elim phase [ receiving ↦ true | _ ↦ false ]

abbrev pub exists_some : Option String → World → Bool
exists_some none w = false
exists_some (some p) w = exists p w

move_back : Option String → Option String → Action (Unit {0})
unfolding rename
move_back (some backup) (some destination) = rename backup destination
move_back _ _ = pure tt

drop_backup : Option String → Action (Unit {0})
unfolding rm
drop_backup none = pure tt
drop_backup (some backup) = rm backup

-- The branches: whether the phase is `installed`, whether the destination and the backup exist, and
-- the paths of the backup and the destination.
unfoldable pub settle : Bool → Bool → Bool → Option String → Option String → Action (Unit {0})
unfolding move_back drop_backup
settle is_in destination_exists backup_exists backup_path destination_path =
    if is_in
    then if not destination_exists && (backup_exists && is_some destination_path)
      then move_back backup_path destination_path
      else if not destination_exists && not backup_exists
      then throw failed
      else if backup_exists
      then drop_backup backup_path
      else pure tt
    else if backup_exists
    then if destination_exists then throw failed else move_back backup_path destination_path
    else pure tt

module _ (to_lower : String → String) where
  abbrev names : Option String → String → Bool
  names none p = false
  names (some d) p = to_lower p == to_lower d

  -- One turn of the loop over the staging and the temporary path.
  unfoldable pub clear : Option String → Option String → Action (Unit {0})
  unfolding rm
  clear destination none w = pure tt w
  clear destination (some p) w = if names destination p then pure tt w else rm p w

  -- What follows the branches.
  unfoldable pub clear_up : TransferRow → Action (Unit {0})
  unfolding clear on_db
  clear_up t = do
    clear t.destination_path t.staging_path
    clear t.destination_path t.temporary_path
    on_db (remove_transfer t.transfer_id)
    on_db (release_storage_reservation t.transfer_id)

  unfoldable pub recover_or_remove : TransferRow → Action (Unit {0})
  unfolding settle clear_up
  recover_or_remove t w =
      (settle (is_installed t.phase) (exists_some t.destination_path w)
            (exists_some t.backup_path w) t.backup_path t.destination_path
          >> clear_up t)
        w

  module _ (alive : ℕ → Option Time → Bool) (now : Time) where
    -- Whether the process that owns a transfer runs; an owner of process id 0 is never stored.
    abbrev owner_runs : TransferRow → Bool
    owner_runs t = elim t.owner_pid [ none ↦ false | some pid ↦ alive pid t.owner_started_at ]

    abandon : TransferRow → Action (Unit {0})
    unfolding on_db
    abandon t = elim t.owner_pid [
      | none ↦ pure tt
      | some pid ↦ on_db (abandon_transfer_owner t.transfer_id pid now)
    ]

    finish_row : Option TransferRow → Action Bool
    unfolding recover_or_remove abandon
    finish_row none = pure false
    finish_row (some t) =
        if owner_runs t
        then throw (raised (bridge (bridge_error resource_changed (some true))))
        else abandon t >> recover_or_remove t >> pure true

    -- `finish`: whether a transfer has been removed.
    unfoldable pub finish_transfer : String → Action Bool
    unfolding finish_row
    finish_transfer id w = finish_row (get_transfer id w.db) w

    -- One turn of the loop of `cleanupStale`; an error of the recovery is only reported.
    unfoldable pub clean_row : Time → TransferRow → Action (Unit {0})
    unfolding abandon recover_or_remove
    clean_row cutoff t =
        if owner_runs t
        then pure tt
        else abandon t
          >> (if is_receiving t.phase && leb cutoff t.updated_at
              then pure tt
              else catch_failure (recover_or_remove t) (λ _. pure tt))

    clean_rows : Time → List TransferRow → Action (Unit {0})
    unfolding clean_row
    clean_rows cutoff [] = pure tt
    clean_rows cutoff (t ∷ ts) = clean_row cutoff t >> clean_rows cutoff ts

    unfoldable pub cleanup_stale : Time → Action (Unit {0})
    unfolding clean_rows
    cleanup_stale cutoff w = clean_rows cutoff (all_transfers w.db) w
