-- ===== src/Transfers/Begin.antt =====
-- `beginPush`. What the path policy answers, the capacity check (which ensureStorageCapacity of storage.ts
-- makes) and the name of the temporary file are parameters.
pub mod Begun
use mira_bridge.Base.{
  ℕ, String, Bool, true, false, Option, none, some, [], ◌&&◌, not, is_some, if◌then◌else◌, Result,
  ok, err, pure, throw, continue, ◌>>=◌, ◌>>◌,
}
use mira_bridge.Protocol.Errors.{Thrown, other}
use mira_bridge.State.Rows.{Database, TransferRow, StateError, push, file, receiving, Time}
use mira_bridge.State.Transfers.{put_transfer}
use mira_bridge.State.Reservations.{release_storage_reservation}
use mira_bridge.Transfers.{
  Node, plain, World, Action, Failure, raised, failed, perform, exists, node_at, put, rm, on_db,
  catch_failure,
}

-- The arguments, with the identifier that `createScopedId` makes and the time.
pub record PushRequest : Type 0 where
  pub node_id : String
  pub destination_path : String
  pub size : ℕ
  pub sha256 : String
  pub overwrite : Bool
  pub transfer_id : String
  pub now : Time

abbrev pub created : String → World → Option Node → Result Thrown World
created p w none = ok (record w { files = put p (plain []) w.files })
created p w (some node) = err (other (some "EEXIST"))

-- `open(path, "wx")` and closing it.
unfoldable pub create_file : String → Action (Unit {0})
unfolding perform
create_file p = perform (λ w. created p w (node_at p w.files))

abbrev pub stored_row : World → Result StateError (Unit {0}) × Database → Result Thrown World
stored_row w r = elim r.0 [ ok x ↦ ok (record w { db = r.1 }) | err e ↦ err (other none) ]

unfoldable pub put_row : TransferRow → Action (Unit {0})
unfolding perform put_transfer
put_row row = perform (λ w. stored_row w (put_transfer row w.db))

-- The `try` with its `catch`.
unfoldable pub begin_row : TransferRow → String → Action (Unit {0})
unfolding create_file put_row rm on_db
begin_row row temporary =
    catch_failure (create_file temporary >> put_row row)
      (λ e. rm temporary >> (on_db (release_storage_reservation row.transfer_id) >> throw e))

abbrev pub push_row : PushRequest → String → String → TransferRow
push_row q destination temporary = record {
  transfer_id = q.transfer_id;
  node_id = q.node_id;
  direction = push;
  kind = file;
  source_path = none;
  destination_path = some destination;
  temporary_path = some temporary;
  size = q.size;
  sha256 = q.sha256;
  transferred = 0;
  overwrite = q.overwrite;
  manifest_json = none;
  manifest_sha256 = none;
  phase = receiving;
  staging_path = none;
  backup_path = none;
  owner_id = none;
  owner_pid = none;
  owner_started_at = none;
  created_at = q.now;
  updated_at = q.now;
}

module _ (resolve : String → Result Thrown String)
    (reserve : String → Database → Result Thrown Database)
    (temporary_of : String → String → String) where
  -- `resolveAbsolute(dirname(destination), true)`, which changes nothing and may throw.
  unfoldable pub resolve_parent : Action (Unit {0})
  unfolding perform
  resolve_parent = perform (λ w. ok w)

  abbrev pub reserved : World → Result Thrown Database → Result Thrown World
  reserved w (ok db) = ok (record w { db = db })
  reserved w (err e) = err e

  unfoldable pub ensure_capacity : String → Action (Unit {0})
  unfolding perform
  ensure_capacity id = perform (λ w. reserved w (reserve id w.db))

  unfoldable pub begin_absent : PushRequest → String → Action String
  unfolding ensure_capacity begin_row
  begin_absent q destination w =
      if not q.overwrite && exists destination w
      then throw failed w
      else (ensure_capacity q.transfer_id
            >> (begin_row (push_row q destination (temporary_of destination q.transfer_id))
                  (temporary_of destination q.transfer_id)
                >> pure q.transfer_id))
          w

  abbrev pub begin_at : PushRequest → Result Thrown String → Action String
  begin_at q (err e) = throw (raised e)
  begin_at q (ok destination) = resolve_parent >> begin_absent q destination

  -- `beginPush`
  unfoldable pub begin_push : PushRequest → Action String
  unfolding begin_absent resolve_parent
  begin_push q = begin_at q (resolve q.destination_path)
