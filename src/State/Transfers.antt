-- ===== src/State/Transfers.antt =====
-- The transfer statements of packages/windows-worker/src/state.ts.
pub mod Ownership
use mira_bridge.Base.{
  ℕ, String, Bool, true, false, Option, none, some, List, ◌==◌, ◌&&◌, filter_by, sort_by, any, ltb,
  leb, if◌then◌else◌, is_none, holds_text, holds_number, throw, pure, Exec,
}
use mira_bridge.Base.Table
use mira_bridge.State.Rows.{TransferRow, Phase, Database, Call, StateError, constraint_failed, Time}

abbrev pub transfer_key : TransferRow → String
transfer_key t = t.transfer_id

unfoldable pub put_transfer : TransferRow → Call (Unit {0})
put_transfer t db = elim (Table.insert transfer_key t db.transfers) [
  | none ↦ throw constraint_failed db
  | some rows ↦ pure tt (record db { transfers = rows })
]

unfoldable pub get_transfer : String → Database → Option TransferRow
get_transfer id db = Table.find transfer_key id db.transfers

-- UPDATE transfers SET ... WHERE p
abbrev pub update_transfers :
    (TransferRow → Bool) → (TransferRow → TransferRow) → Database → Database
update_transfers p f db = record db { transfers = Table.update p f db.transfers }

unfoldable pub update_transferred : String → ℕ → Time → Database → Database
update_transferred id transferred now db =
    update_transfers (λ t. t.transfer_id == id)
      (λ t. record t { transferred = transferred; updated_at = now }) db

unfoldable pub set_transfer_recovery :
    String → Phase → Option String → Option String → Time → Database → Database
set_transfer_recovery id phase staging_path backup_path now db =
    update_transfers (λ t. t.transfer_id == id)
      (λ t. record t {
        phase = phase;
        staging_path = staging_path;
        backup_path = backup_path;
        updated_at = now;
      })
      db

-- transfer_id=? AND owner_id IS NULL AND owner_pid IS NULL
abbrev pub claimable : String → TransferRow → Bool
claimable id t = (t.transfer_id == id) && (is_none t.owner_id && is_none t.owner_pid)

abbrev pub owned_by : Option String → Option ℕ → Option Time → Time → TransferRow → TransferRow
owned_by id pid started_at now t = record t {
  owner_id = id;
  owner_pid = pid;
  owner_started_at = started_at;
  updated_at = now;
}

-- The primary key makes `changes` 0 or 1: 1 when a row fits the WHERE clause.
unfoldable pub claim_transfer_owner : String → String → ℕ → Time → Time → Database → Bool × Database
claim_transfer_owner id owner_id pid started_at now db = (
  any (claimable id) db.transfers,
  update_transfers (claimable id) (owned_by (some owner_id) (some pid) (some started_at) now) db,
)

unfoldable pub clear_transfer_owner : String → String → Time → Database → Database
clear_transfer_owner id owner_id now db =
    update_transfers (λ t. (t.transfer_id == id) && holds_text t.owner_id owner_id)
      (owned_by none none none now) db

unfoldable pub abandon_transfer_owner : String → ℕ → Time → Database → Database
abandon_transfer_owner id pid now db =
    update_transfers (λ t. (t.transfer_id == id) && holds_number t.owner_pid pid)
      (owned_by none none none now) db

unfoldable pub remove_transfer : String → Database → Database
remove_transfer id db = record db {
  transfers = Table.delete (λ t. t.transfer_id == id) db.transfers;
}

-- COALESCE(updated_at, created_at) < ?: `updated_at` is NOT NULL.
unfoldable pub stale_transfers : Time → Database → List TransferRow
stale_transfers cutoff db = filter_by (λ t. ltb t.updated_at cutoff) db.transfers

unfoldable pub all_transfers : Database → List TransferRow
all_transfers db = sort_by (λ a b. leb a.created_at b.created_at) db.transfers
