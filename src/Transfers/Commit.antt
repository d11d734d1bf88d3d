-- ===== src/Transfers/Commit.antt =====
-- `commitPush` for a file: the ownership, the tests and the installation. The hash is a parameter, and so
-- are the path policy's answer, what installs a directory, and what identifies the process.
pub mod Finally
pub mod Verified
use mira_bridge.Base.{
  ℕ, String, Bool, true, false, Option, none, some, ◌==◌, ◌&&◌, not, eqb, is_some, if◌then◌else◌,
  Result, ok, err, pure, throw, continue, ◌>>=◌, ◌>>◌,
}
use mira_bridge.Protocol.Errors.{Thrown, other, bridge, bridge_error, resource_changed}
use mira_bridge.State.Rows.{Database, TransferRow, push, file, directory, receiving, Time}
use mira_bridge.State.Transfers.{
  get_transfer, claim_transfer_owner, clear_transfer_owner, remove_transfer,
}
use mira_bridge.State.Reservations.{release_storage_reservation}
use mira_bridge.Transfers.{
  Bytes, Node, plain, folder, World, Action, Failure, raised, crashed, failed, perform, exists,
  node_at, on_db,
}
use mira_bridge.Transfers.Chunks.{require_transfer}
use mira_bridge.Transfers.Install.{Install, install_path}

-- try ... finally: the end of the process skips the clean-up.
abbrev pub finally_after :
    {A : Type 0} → Action (Unit {0}) → Result Failure A → World → Result Failure A × World
finally_after f (ok a) w = continue (λ _. pure a) (f w).0 (f w).1
finally_after f (err crashed) w = (err crashed, w)
finally_after f (err (raised e)) w = continue (λ _. throw (raised e)) (f w).0 (f w).1

abbrev pub finally_do : {A : Type 0} → Action A → Action (Unit {0}) → Action A
finally_do m f w = finally_after f (m w).0 (m w).1

-- What a call takes from outside: the new identifiers, the process and the time.
pub record Committer : Type 0 where
  pub owner : String
  pub pid : ℕ
  pub started_at : Time
  pub backup : String
  pub now : Time

module _ (sha256 : Bytes → String) (resolve : String → Result Thrown String)
    (commit_directory : TransferRow → String → Action Bool) (c : Committer) where
  abbrev pub install_of : TransferRow → String → String → Install
  install_of t temporary destination = record {
    transfer_id = t.transfer_id;
    staging = temporary;
    destination = destination;
    backup = c.backup;
    overwrite = t.overwrite;
    rollback_phase = receiving;
    now = c.now;
  }

  -- `hashFile` and the test on its result.
  abbrev pub verify : TransferRow → Option Node → Action (Unit {0})
  verify t none w = throw (raised (other (some "ENOENT"))) w
  verify t (some (folder entries)) w = throw (raised (other (some "EISDIR"))) w
  verify t (some (plain content)) w =
      if sha256 content == t.sha256 then pure tt w else throw failed w

  -- Opening the file, `sync` and closing it.
  unfoldable pub sync_file : Action (Unit {0})
  unfolding perform
  sync_file = perform (λ w. ok w)

  abbrev pub forget_unless : TransferRow → Bool → Action (Unit {0})
  forget_unless t true = pure tt
  forget_unless t false =
      on_db (remove_transfer t.transfer_id) >> on_db (release_storage_reservation t.transfer_id)

  -- The branch of a file, whether the clean-up of the backup is pending.
  unfoldable pub commit_file : TransferRow → String → String → Action Bool
  unfolding sync_file install_path on_db
  commit_file t temporary destination w =
      if not t.overwrite && exists destination w
      then throw failed w
      else (sync_file
            >> (install_path (install_of t temporary destination)
                >>= (λ pending. forget_unless t pending >> pure pending)))
          w

  abbrev pub by_kind : TransferRow → String → String → Action Bool
  by_kind t temporary destination = elim t.kind [
    | file ↦ commit_file t temporary destination
    | directory ↦ commit_directory t destination
  ]

  abbrev pub at_resolved : TransferRow → String → Result Thrown String → Action Bool
  at_resolved t temporary (err e) = throw (raised e)
  at_resolved t temporary (ok destination) = by_kind t temporary destination

  unfoldable pub commit_owned : TransferRow → Option String → Option String → Action Bool
  unfolding commit_file
  commit_owned t (some temporary) (some destination) w =
      if not (eqb t.transferred t.size)
      then throw failed w
      else (verify t (node_at temporary w.files) >> at_resolved t temporary (resolve destination)) w
  commit_owned t _ _ w = throw failed w

  -- The clean-up of `finally`.
  unfoldable pub disown : String → Action (Unit {0})
  unfolding on_db
  disown id w =
      if is_some (get_transfer id w.db)
      then on_db (clear_transfer_owner id c.owner c.now) w
      else pure tt w

  abbrev pub claim_of : String → Database → Bool × Database
  claim_of id db = claim_transfer_owner id c.owner c.pid c.started_at c.now db

  -- `commitPush`
  unfoldable pub commit_push : String → Action Bool
  unfolding on_db commit_owned disown require_transfer
  commit_push id w =
      continue
        (λ t.
          on_db (λ db. (claim_of id db).1)
          >> (if (claim_of id w.db).0
              then finally_do (commit_owned t t.temporary_path t.destination_path) (disown id)
              else throw (raised (bridge (bridge_error resource_changed (some true))))))
        (require_transfer id push w) w
