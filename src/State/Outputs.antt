-- ===== src/State/Outputs.antt =====
-- The output statements of packages/windows-worker/src/state.ts.
use mira_bridge.Base.{
  String, Bool, true, Option, none, some, List, ◌==◌, ◌&&◌, filter_by, sort_by, ltb, leb, is_none,
  throw, pure,
}
use mira_bridge.Base.Table
use mira_bridge.State.Rows.{OutputRow, Database, Call, constraint_failed, Time}

abbrev pub output_key : OutputRow → String
output_key o = o.output_ref

unfoldable pub put_output : OutputRow → Call (Unit {0})
put_output o db = elim (Table.insert output_key o db.outputs) [
  | none ↦ throw constraint_failed db
  | some rows ↦ pure tt (record db { outputs = rows })
]

unfoldable pub get_output : String → Database → Option OutputRow
get_output ref db = Table.find output_key ref db.outputs

abbrev created_before : Option Time → OutputRow → Bool
created_before none o = true
created_before (some cutoff) o = ltb o.created_at cutoff

unfoldable pub unpruned_outputs : Option Time → Database → List OutputRow
unpruned_outputs cutoff db =
    sort_by (λ a b. leb a.created_at b.created_at)
      (filter_by (λ o. is_none o.pruned_at && created_before cutoff o) db.outputs)

unfoldable pub mark_output_pruned : String → Time → String → Database → Database
mark_output_pruned ref now reason db = record db {
  outputs =
      Table.update (λ o. (o.output_ref == ref) && is_none o.pruned_at)
        (λ o. record o { pruned_at = some now; prune_reason = some reason }) db.outputs;
}

unfoldable pub expired_output_metadata : Time → Database → List OutputRow
expired_output_metadata cutoff db =
    sort_by (λ a b. leb a.created_at b.created_at)
      (filter_by (λ o. ltb o.created_at cutoff) db.outputs)

unfoldable pub delete_output : String → Database → Database
delete_output ref db = record db { outputs = Table.delete (λ o. o.output_ref == ref) db.outputs }
