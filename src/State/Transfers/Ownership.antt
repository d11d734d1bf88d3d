-- ===== src/State/Transfers/Ownership.antt =====
-- A transfer has one owner at a time.
use mira_bridge.Base.{
  ℕ, ◌≡◌, refl, ◌∙◌, String, Bool, true, false, none, some, List, [], ◌∷◌, ◌==◌, ◌&&◌, arith,
  eq_iff, if◌then◌else◌, is_none, any,
}
use mira_bridge.Base.Table
use mira_bridge.State.Rows.{TransferRow, Database, Time}
use mira_bridge.State.Transfers.{
  transfer_key, get_transfer, claim_transfer_owner, clear_transfer_owner, claimable,
  update_transfers, owned_by,
}

find-update_transfers :
    (p : TransferRow → Bool) (f : TransferRow → TransferRow) (id : String) (db : Database)
    → ((t : TransferRow) → transfer_key (f t) ≡ transfer_key t)
    → get_transfer id (update_transfers p f db)
      ≡ Table.touched transfer_key p f (get_transfer id db)
unfolding get_transfer
find-update_transfers p f id db keeps = Table.find-update transfer_key p f id db.transfers keeps

-- A row that is found and has no owner can be claimed.
any-found :
    (id : String) (rows : List TransferRow) (t : TransferRow)
    → Table.find transfer_key id rows ≡ some t
    → is_none t.owner_id && is_none t.owner_pid ≡ true
    → any (claimable id) rows ≡ true
unfolding Table.find
any-found id [] t h free = cc
any-found id (r ∷ rows) t h free = ground (arith, any-found id rows t)

-- No row that a claim has written, and none that it has left alone, can be claimed again.
any-claimed :
    (id owner : String) (pid : ℕ) (started_at now : Time) (rows : List TransferRow)
    → any
        (claimable id)
        (Table.update (claimable id) (owned_by (some owner) (some pid) (some started_at) now) rows)
      ≡ false
unfolding Table.update
any-claimed id owner pid started_at now [] = refl
any-claimed id owner pid started_at now (t ∷ rows) =
    ground (arith, any-claimed id owner pid started_at now rows)

update-none :
    (p : TransferRow → Bool) (f : TransferRow → TransferRow) (rows : List TransferRow)
    → any p rows ≡ false
    → Table.update p f rows ≡ rows
unfolding Table.update
update-none p f [] h = refl
update-none p f (t ∷ rows) h = ground (arith, update-none p f rows)

module _ (id owner : String) (pid : ℕ) (started_at now : Time) (db : Database) (t : TransferRow)
    (found : get_transfer id db ≡ some t)
    (free : is_none t.owner_id && is_none t.owner_pid ≡ true) where
  -- The database after the claim.
  abbrev held : Database
  held = (claim_transfer_owner id owner pid started_at now db).1

  get_transfer-held :
      get_transfer id held ≡ some (owned_by (some owner) (some pid) (some started_at) now t)
  unfolding claim_transfer_owner
  get_transfer-held =
      find-update_transfers (claimable id) (owned_by (some owner) (some pid) (some started_at) now)
        id db (λ r. refl)
      ∙ rw found (
          ground (
            arith,
            eq_iff t.transfer_id id,
            Table.find_key transfer_key id db.transfers t (unfold get_transfer in found),
          ))

  claim-held :
      (other : String) (pid' : ℕ) (started_at' later : Time)
      → claim_transfer_owner id other pid' started_at' later held ≡ (false, held)
  unfolding claim_transfer_owner
  claim-held other pid' started_at' later =
      let taken : any (claimable id) held.transfers ≡ false =
        any-claimed id owner pid started_at now db.transfers in
      let same : Table.update (claimable id)
            (owned_by (some other) (some pid') (some started_at') later) held.transfers
          ≡ held.transfers =
        update-none (claimable id) (owned_by (some other) (some pid') (some started_at') later)
          held.transfers taken in
      λ i. (taken i, record held { transfers = same i })

  get_transfer-clear :
      (other : String) (later : Time)
      → get_transfer id (clear_transfer_owner id other later held)
        ≡ some (
            if owner == other
            then owned_by none none none later t
            else owned_by (some owner) (some pid) (some started_at) now t)
  unfolding clear_transfer_owner
  get_transfer-clear other later =
      find-update_transfers _ (owned_by none none none later) id held (λ r. refl)
      ∙ rw get_transfer-held (
          ground (
            arith,
            eq_iff t.transfer_id id,
            Table.find_key transfer_key id db.transfers t (unfold get_transfer in found),
          ))

-- Claiming a transfer that is stored and has no owner succeeds and stores the owner; from then on
-- every other claim of it is refused and changes nothing; `clearTransferOwner` frees it for that
-- owner and for nobody else.
pub claim_transfer_owner_excludes :
    (id owner other : String) (pid pid' : ℕ) (started_at started_at' now later : Time)
    (db : Database) (t : TransferRow)
    → get_transfer id db ≡ some t
    → is_none t.owner_id && is_none t.owner_pid ≡ true
    → let held = (claim_transfer_owner id owner pid started_at now db).1 in
      ((claim_transfer_owner id owner pid started_at now db).0 ≡ true)
      × (get_transfer id held
          ≡ some (record t {
            owner_id = some owner;
            owner_pid = some pid;
            owner_started_at = some started_at;
            updated_at = now;
          }))
      × (claim_transfer_owner id other pid' started_at' later held ≡ (false, held))
      × (get_transfer id (clear_transfer_owner id other later held) ≡ (
          if owner == other
          then some (record t {
            owner_id = none;
            owner_pid = none;
            owner_started_at = none;
            updated_at = later;
          })
          else get_transfer id held))
claim_transfer_owner_excludes id owner other pid pid' started_at started_at' now later db t found
      free =
    (
      unfold claim_transfer_owner get_transfer in any-found id db.transfers t found free,
      get_transfer-held id owner pid started_at now db t found free,
      claim-held id owner pid started_at now db t found free other pid' started_at' later,
      ground (
        arith,
        get_transfer-clear id owner pid started_at now db t found free other later,
        get_transfer-held id owner pid started_at now db t found free,
      ),
    )
