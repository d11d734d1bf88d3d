-- ===== src/State/Workspaces.antt =====
-- The workspace statements of packages/windows-worker/src/state.ts.
use mira_bridge.Base.{
  String, Bool, Option, none, some, List, ◌==◌, ◌&&◌, not, filter_by, sort_by, any, ltb, leb, throw,
  pure,
}
use mira_bridge.Base.Table
use mira_bridge.State.Rows.{WorkspaceRow, JobRow, Database, Call, constraint_failed, Time}

abbrev pub workspace_key : WorkspaceRow → String
workspace_key w = w.workspace_id

unfoldable pub put_workspace : WorkspaceRow → Call (Unit {0})
put_workspace w db = elim (Table.insert workspace_key w db.workspaces) [
  | none ↦ throw constraint_failed db
  | some rows ↦ pure tt (record db { workspaces = rows })
]

-- A row that is found is marked as used; the caller gets it as it was.
unfoldable pub get_workspace : String → Time → Database → Option WorkspaceRow × Database
get_workspace id now db = elim (Table.find workspace_key id db.workspaces) [
  | none ↦ (none, db)
  | some w ↦ (
    some w,
    record db {
      workspaces =
          Table.update (λ v. v.workspace_id == id) (λ v. record v { last_used_at = now })
            db.workspaces;
    },
  )
]

-- EXISTS (SELECT 1 FROM jobs WHERE jobs.workspace_id = workspaces.workspace_id)
abbrev pub has_jobs : List JobRow → WorkspaceRow → Bool
has_jobs jobs w = any (λ (job : JobRow). job.spec.workspace_id == w.workspace_id) jobs

unfoldable pub expired_workspaces : Time → Database → List WorkspaceRow
expired_workspaces cutoff db =
    sort_by (λ a b. leb a.last_used_at b.last_used_at)
      (filter_by (λ w. ltb w.last_used_at cutoff && not (has_jobs db.jobs w)) db.workspaces)

unfoldable pub delete_workspace : String → Database → Database
delete_workspace id db = record db {
  workspaces = Table.delete (λ w. w.workspace_id == id) db.workspaces;
}
