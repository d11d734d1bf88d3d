-- ===== src/Tests/Commit.antt =====
-- The commit of an uploaded file over an old one.
use mira_bridge.Base.{
  String, ◌≡◌, none, Bool, true, false, some, [], ◌∷◌, refl, ok, eqb, length, if◌then◌else◌, pure,
  Result,
}
use mira_bridge.Base.Table
use mira_bridge.Protocol.Errors.{Thrown}
use mira_bridge.State.Rows.{TransferRow, push, empty}
use mira_bridge.State.Transfers.{
  get_transfer, claim_transfer_owner, remove_transfer, set_transfer_recovery,
}
use mira_bridge.State.Reservations.{release_storage_reservation}
use mira_bridge.Transfers.{
  Failure, Bytes, Node, plain, World, Action, succeeds, crashes, node_at, put, remove,
}
use mira_bridge.Transfers.Ends.{Ends}
use mira_bridge.Transfers.Install.Steps.{Apart}
use mira_bridge.Transfers.Commit.{Committer, commit_push}
use mira_bridge.Transfers.Commit.Verified.{
  the_install, Verified, Intact, Uploaded, commit_push-Ends,
}
use mira_bridge.Tests.Samples.{free_transfer}

abbrev uploaded : TransferRow
uploaded = record free_transfer {
  direction = push;
  destination_path = some "a.txt";
  temporary_path = some "new.part";
  size = 1;
  transferred = 1;
  overwrite = true;
}

abbrev waiting : World
waiting = record {
  db = record empty { transfers = uploaded ∷ [] };
  files =
      record { path = "a.txt"; node = plain (1 ∷ 1 ∷ []) }
      ∷ record { path = "new.part"; node = plain (2 ∷ []) }
      ∷ [];
  outcomes = succeeds ∷ succeeds ∷ succeeds ∷ succeeds ∷ succeeds ∷ crashes ∷ [];
}

abbrev committer : Committer
committer = record { owner = "w"; pid = 4; started_at = 1; backup = "old.bak"; now = 9 }

-- A hash that tells files of one byte from others.
abbrev hash : Bytes → String
hash b = if eqb (length b) 1 then "s" else "other"

abbrev resolve : String → Result Thrown String
resolve d = ok d

abbrev no_directory : TransferRow → String → Action Bool
no_directory t d = pure false

abbrev old : Node
old = plain (1 ∷ 1 ∷ [])

paths-Apart : Apart (
    the_install hash resolve no_directory committer uploaded "new.part" "a.txt" (some old) (2 ∷ []))
paths-Apart = record { staged = λ e. cc e; saved = λ e. cc e; between = λ e. cc e }

waiting-Uploaded :
    Uploaded hash resolve no_directory committer uploaded "new.part" "a.txt"
      (some old)
      (2 ∷ [])
      paths-Apart
      waiting
unfolding get_transfer node_at Table.find
waiting-Uploaded = record {
  found = refl;
  pushed = refl;
  of_file = refl;
  temporary = refl;
  target = refl;
  early = refl;
  no_backup = refl;
  resolved = refl;
  at_destination = refl;
  at_backup = refl;
  at_temporary = refl;
}

commit_push-Ends_example :
    Ends
      (λ _ v.
        Verified hash resolve no_directory committer uploaded "new.part" "a.txt"
          (some old)
          (2 ∷ [])
          v.files)
      (λ v.
        Intact hash resolve no_directory committer uploaded "new.part" "a.txt"
          (some old)
          (2 ∷ [])
          v.files)
      (commit_push hash resolve no_directory committer "t" waiting)
commit_push-Ends_example =
    commit_push-Ends hash resolve no_directory committer uploaded "new.part" "a.txt" (some old)
      (2 ∷ []) paths-Apart waiting waiting-Uploaded

-- With no failing call the commit returns, the new bytes are in place, and row and backup are gone.
abbrev after_commit : Result Failure Bool × World
after_commit =
    commit_push hash resolve no_directory committer "t" (record waiting { outcomes = [] })

commit_returns :
    (after_commit.0 ≡ ok false)
    × (node_at "a.txt" after_commit.1.files ≡ some (plain (2 ∷ [])))
    × (node_at "old.bak" after_commit.1.files ≡ none)
    × (get_transfer "t" after_commit.1.db ≡ none)
unfolding commit_push get_transfer Table.find claim_transfer_owner node_at put Table.replace remove
    release_storage_reservation remove_transfer set_transfer_recovery Table.update
commit_returns = (refl, refl, refl, refl)
