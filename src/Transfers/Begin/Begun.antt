-- ===== src/Transfers/Begin/Begun.antt =====
-- A begun upload is registered as a whole or not at all.
use mira_bridge.Base.{
  String, Option, none, some, [], ◌∷◌, ◌&&◌, not, is_some, if◌then◌else◌, if_true, Result, ok, err,
  pure, throw, ◌>>◌, ◌≡◌, refl, sym, ap, ◌∙◌, subst, arith, eq_iff, ◌==◌,
}
use mira_bridge.Base.Table
use mira_bridge.Protocol.Errors.{Thrown}
use mira_bridge.State.Rows.{Database, TransferRow}
use mira_bridge.State.Transfers.{transfer_key, get_transfer, put_transfer}
use mira_bridge.State.Reservations.{release_storage_reservation}
use mira_bridge.Transfers.{Node, plain, World, raised, failed, exists, node_at, rm, on_db, later}
use mira_bridge.Transfers.Files.{node_at-put_same}
use mira_bridge.Transfers.Ends.{
  Ends, then-Ends, catch-Ends, throw-Ends, pure-Ends, if-Ends, perform-Ends, Settled,
}
use mira_bridge.Transfers.Chunks.Stored.{Receives}
use mira_bridge.Transfers.Begin.{
  PushRequest, created, create_file, stored_row, put_row, begin_row, push_row, resolve_parent,
  reserved, ensure_capacity, begin_absent, begin_at, begin_push,
}

-- No transfer has the identifier.
abbrev pub Unregistered : String → World → Type 0
Unregistered id w = get_transfer id w.db ≡ none

module _ (row : TransferRow) (p : String) where
  abbrev Empty : World → Type 0
  Empty w = Unregistered row.transfer_id w × (node_at p w.files ≡ some (plain []))

  abbrev Registered : World → Type 0
  Registered w =
      (get_transfer row.transfer_id w.db ≡ some row) × (node_at p w.files ≡ some (plain []))

  create_file-Ends :
      (w : World)
      → Unregistered row.transfer_id w
      → Ends (λ _. Empty) (Unregistered row.transfer_id) (create_file p w)
  unfolding create_file
  create_file-Ends w h =
      perform-Ends Empty (Unregistered row.transfer_id) _ w h (by_node (node_at p w.files))
    where
      by_node :
          (n : Option Node) → Settled Empty (created p (record w { outcomes = later w.outcomes }) n)
      by_node none = (h, node_at-put_same p (plain []) w.files)
      by_node (some n) = tt

  abbrev with_row : Database → Database
  with_row db = record db { transfers = row ∷ db.transfers }

  put_transfer_fresh :
      (db : Database)
      → get_transfer row.transfer_id db ≡ none
      → put_transfer row db ≡ (ok tt, with_row db)
  unfolding put_transfer get_transfer Table.insert
  put_transfer_fresh db h =
      let inserted : Table.insert transfer_key row db.transfers ≡ some (row ∷ db.transfers) =
        (ap (λ o. if is_some o then none else some (row ∷ db.transfers)) h) in
      rw (inserted, put_transfer) refl

  get_transfer-with_row : (db : Database) → get_transfer row.transfer_id (with_row db) ≡ some row
  unfolding get_transfer Table.find
  get_transfer-with_row db =
      if_true (row.transfer_id == row.transfer_id) _ _
        (ground (arith, eq_iff row.transfer_id row.transfer_id))

  put_row-Ends :
      (w : World) → Empty w → Ends (λ _. Registered) (Unregistered row.transfer_id) (put_row row w)
  unfolding put_row
  put_row-Ends w h = perform-Ends Registered (Unregistered row.transfer_id) _ w h.0 (
      subst (λ r. Settled Registered (stored_row (record w { outcomes = later w.outcomes }) r))
        (sym (put_transfer_fresh w.db h.0)) (get_transfer-with_row w.db, h.1))

  begin_row-Ends :
      (w : World)
      → Unregistered row.transfer_id w
      → Ends (λ _. Registered) (Unregistered row.transfer_id) (begin_row row p w)
  unfolding begin_row rm on_db release_storage_reservation get_transfer
  begin_row-Ends w h =
      catch-Ends (λ _. Registered) (Unregistered row.transfer_id) (create_file p >> put_row row)
        (λ e. rm p >> (on_db (release_storage_reservation row.transfer_id) >> throw e)) w
        (then-Ends Empty (Unregistered row.transfer_id) (λ _. Registered)
          (Unregistered row.transfer_id) (create_file p) (put_row row) w (create_file-Ends w h)
          (λ v k. k) put_row-Ends)
        (λ e v k.
          then-Ends (Unregistered row.transfer_id) (Unregistered row.transfer_id) (λ _. Registered)
            (Unregistered row.transfer_id) (rm p) _ v
            (perform-Ends (Unregistered row.transfer_id) (Unregistered row.transfer_id) _ v k k)
            (λ u j. j)
            (λ u j.
              then-Ends (Unregistered row.transfer_id) (Unregistered row.transfer_id)
                (λ _. Registered) (Unregistered row.transfer_id)
                (on_db (release_storage_reservation row.transfer_id)) (throw (raised e)) u
                (perform-Ends (Unregistered row.transfer_id) (Unregistered row.transfer_id) _ u j j)
                (λ x l. l)
                (λ x l.
                  throw-Ends (λ _. Registered) (Unregistered row.transfer_id) (raised e) x l)))

module _ (resolve : String → Result Thrown String)
    (reserve : String → Database → Result Thrown Database) (temporary_of : String → String → String)
    (q : PushRequest) where
  abbrev Fresh : World → Type 0
  Fresh = Unregistered q.transfer_id

  -- A capacity check leaves the transfers as they are.
  abbrev pub KeepsTransfers : Type 0
  KeepsTransfers =
      (id : String) (db db' : Database) → reserve id db ≡ ok db' → db'.transfers ≡ db.transfers

  ensure-Ends :
      KeepsTransfers
      → (w : World) → Fresh w
      → Ends (λ _. Fresh) Fresh (ensure_capacity resolve reserve temporary_of q.transfer_id w)
  unfolding ensure_capacity get_transfer
  ensure-Ends keeps w h =
      perform-Ends Fresh Fresh _ w h (by_answer (reserve q.transfer_id w.db) refl)
    where
      by_answer :
          (r : Result Thrown Database)
          → reserve q.transfer_id w.db ≡ r
          → Settled Fresh
              (reserved resolve reserve temporary_of (record w { outcomes = later w.outcomes }) r)
      by_answer (ok db) e =
          ap (λ l. Table.find transfer_key q.transfer_id l) (keeps q.transfer_id w.db db e) ∙ h
      by_answer (err e) f = tt

  abbrev Registers : String → World → Type 0
  Registers d v =
      Receives q.transfer_id (temporary_of d q.transfer_id) q.size [] v
      × (node_at (temporary_of d q.transfer_id) v.files ≡ some (plain []))

  begin_absent-Ends :
      KeepsTransfers
      → (d : String) (w : World) → Fresh w
      → Ends (λ _. Registers d) Fresh (begin_absent resolve reserve temporary_of q d w)
  unfolding begin_absent
  begin_absent-Ends keeps d w h =
      if-Ends (λ _. Registers d) Fresh (not q.overwrite && exists d w) (throw failed w) _
        (λ _. throw-Ends (λ _. Registers d) Fresh failed w h)
        (λ _.
          then-Ends Fresh Fresh (λ _. Registers d) Fresh
            (ensure_capacity resolve reserve temporary_of q.transfer_id) _ w (ensure-Ends keeps w h)
            (λ v k. k)
            (λ v k.
              then-Ends (Registered row p) Fresh (λ _. Registers d) Fresh (begin_row row p)
                (pure q.transfer_id) v (begin_row-Ends row p v k) (λ u j. j)
                (λ u j.
                  pure-Ends (λ _. Registers d) Fresh q.transfer_id u
                    (
                      (record {
                        row = row;
                        stored = j.0;
                        temporary = refl;
                        sized = refl;
                        counted = refl;
                        fits = omega arith;
                        rest = [];
                        held = j.1;
                      }),
                      j.1,
                    ))))
    where
      p : String
      p = temporary_of d q.transfer_id

      row : TransferRow
      row = push_row q d (temporary_of d q.transfer_id)

  -- The start of an upload under a fresh identifier, when the path resolves and the capacity check leaves the
  -- transfers as they are, whatever calls fail and wherever the process ends: if it returns, the
  -- transfer is registered with an empty temporary file that receives its first chunk at 0; if not,
  -- no transfer is registered.
  pub begin_push-Ends :
      (d : String) (w : World)
      → KeepsTransfers
      → resolve q.destination_path ≡ ok d
      → Unregistered q.transfer_id w
      → Ends
          (λ _ v.
            Receives q.transfer_id (temporary_of d q.transfer_id) q.size [] v
            × (node_at (temporary_of d q.transfer_id) v.files ≡ some (plain [])))
          (Unregistered q.transfer_id)
          (begin_push resolve reserve temporary_of q w)
  unfolding begin_push resolve_parent
  begin_push-Ends d w keeps answers h =
      subst (λ r. Ends (λ _. Registers d) Fresh (begin_at resolve reserve temporary_of q r w))
        (sym answers)
        (then-Ends Fresh Fresh (λ _. Registers d) Fresh
          (resolve_parent resolve reserve temporary_of)
          (begin_absent resolve reserve temporary_of q d) w
          (perform-Ends Fresh Fresh (λ v. ok v) w h h) (λ v k. k) (begin_absent-Ends keeps d))
