-- ===== src/State/Scans.antt =====
-- The recycle-bin scans of packages/windows-worker/src/state.ts.
use mira_bridge.Base.{
  String, Option, none, some, List, ◌==◌, filter_by, sort_by, ltb, leb, throw, pure,
}
use mira_bridge.Base.Table
use mira_bridge.State.Rows.{RecycleScanRow, Database, Call, constraint_failed, Time}

abbrev pub scan_key : RecycleScanRow → String
scan_key s = s.scan_id

unfoldable pub put_recycle_scan : RecycleScanRow → Call (Unit {0})
put_recycle_scan s db = elim (Table.insert scan_key s db.recycle_scans) [
  | none ↦ throw constraint_failed db
  | some rows ↦ pure tt (record db { recycle_scans = rows })
]

unfoldable pub get_recycle_scan : String → Database → Option RecycleScanRow
get_recycle_scan id db = Table.find scan_key id db.recycle_scans

unfoldable pub remove_recycle_scan : String → Database → Database
remove_recycle_scan id db = record db {
  recycle_scans = Table.delete (λ s. s.scan_id == id) db.recycle_scans;
}

unfoldable pub expired_recycle_scans : Time → Database → List RecycleScanRow
expired_recycle_scans cutoff db =
    sort_by (λ a b. leb a.expires_at b.expires_at)
      (filter_by (λ s. ltb s.expires_at cutoff) db.recycle_scans)
