-- ===== src/Transfers.antt =====
-- packages/windows-worker/src/transfers.ts: the files that a transfer touches, and its calls that may
-- fail. What stands at a path is one node, a folder with all that is beneath it. Every call of the
-- file system or of the database takes the next outcome: it succeeds, it throws, or the process is
-- killed before it. A path is the text that the row has; links and rights are left out.
pub mod Files
pub mod Ends
pub mod Install
pub mod Recovery
pub mod Restart
pub mod Branches
pub mod Restored
pub mod Restarts
pub mod Runs
pub mod Settles
pub mod Manifest
pub mod Begin
pub mod Chunks
pub mod Commit
use mira_bridge.Base.{
  ℕ, String, Bool, true, false, Option, none, some, List, [], ◌∷◌, ◌==◌, Result, ok, err, Exec,
  is_some,
}
use mira_bridge.Base.Table
use mira_bridge.Protocol.Errors.{BridgeError, bridge_error, transfer_failed, Thrown, bridge, other}
use mira_bridge.State.Rows.{Database, Time}

abbrev pub Bytes : Type 0
Bytes = List ℕ

-- A file, or a directory with the files beneath it by their relative paths.
pub data Node : Type 0 where
  plain : Bytes → Node
  folder : List (String × Bytes) → Node

pub record Entry : Type 0 where
  pub path : String
  pub node : Node

abbrev pub entry_path : Entry → String
entry_path e = e.path

abbrev pub node_of : Option Entry → Option Node
node_of none = none
node_of (some e) = some e.node

unfoldable pub node_at : String → List Entry → Option Node
node_at p files = node_of (Table.find entry_path p files)

unfoldable pub put : String → Node → List Entry → List Entry
put p node files = Table.replace entry_path (record { path = p; node = node }) files

-- `rm(path, { recursive: true, force: true })`
unfoldable pub remove : String → List Entry → List Entry
remove p files = Table.delete (λ e. e.path == p) files

pub data Outcome : Type 0 where
  succeeds crashes : Outcome
  fails : Thrown → Outcome

-- What ends an action: an error that the code can catch, or the end of the process.
pub data Failure : Type 0 where
  raised : Thrown → Failure
  crashed : Failure

-- With no outcomes left every call succeeds.
pub record World : Type 0 where
  pub db : Database
  pub files : List Entry
  pub outcomes : List Outcome

abbrev pub Action : Type 0 → Type 0
Action A = Exec World Failure A

abbrev pub next : List Outcome → Outcome
next [] = succeeds
next (o ∷ os) = o

abbrev pub later : List Outcome → List Outcome
later [] = []
later (o ∷ os) = os

abbrev pub settled : World → Result Thrown World → Result Failure (Unit {0}) × World
settled w (ok after) = (ok tt, after)
settled w (err e) = (err (raised e), w)

abbrev pub on_outcome : Outcome → (World → Result Thrown World) → Action (Unit {0})
on_outcome succeeds f w = settled w (f w)
on_outcome (fails e) f w = (err (raised e), w)
on_outcome crashes f w = (err crashed, w)

-- A call that changes the world at once or not at all.
unfoldable pub perform : (World → Result Thrown World) → Action (Unit {0})
perform f w = on_outcome (next w.outcomes) f (record w { outcomes = later w.outcomes })

abbrev pub failed : Failure
failed = raised (bridge (bridge_error transfer_failed none))

-- `exists(path)` never throws.
abbrev pub exists : String → World → Bool
exists p w = is_some (node_at p w.files)

-- `rename(source, target)` replaces what stands at the target.
abbrev pub moved : String → String → World → Option Node → Result Thrown World
moved source target w none = err (other (some "ENOENT"))
moved source target w (some node) =
    ok (record w { files = put target node (remove source w.files) })

unfoldable pub rename : String → String → Action (Unit {0})
unfolding perform
rename source target = perform (λ w. moved source target w (node_at source w.files))

unfoldable pub rm : String → Action (Unit {0})
unfolding perform
rm p = perform (λ w. ok (record w { files = remove p w.files }))

unfoldable pub on_db : (Database → Database) → Action (Unit {0})
unfolding perform
on_db f = perform (λ w. ok (record w { db = f w.db }))

abbrev pub on_failure :
    {A : Type 0} → (Failure → Action A) → Result Failure A → World → Result Failure A × World
on_failure h (ok a) w = (ok a, w)
on_failure h (err crashed) w = (err crashed, w)
on_failure h (err (raised e)) w = h (raised e) w

-- try ... catch: the end of the process is not caught.
abbrev pub catch_failure : {A : Type 0} → Action A → (Failure → Action A) → Action A
catch_failure m h w = on_failure h (m w).0 (m w).1
