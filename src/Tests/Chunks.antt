-- ===== src/Tests/Chunks.antt =====
-- Uploads and downloads of concrete files.
use mira_bridge.Base.{some, List, [], ◌∷◌, ◌++◌, ◌≡◌, refl, ok, arith}
use mira_bridge.Base.Table
use mira_bridge.State.Rows.{push, empty}
use mira_bridge.State.Transfers.{get_transfer}
use mira_bridge.Transfers.{plain, World, succeeds, crashes, node_at}
use mira_bridge.Transfers.Chunks.Stored.{Receives}
use mira_bridge.Transfers.Chunks.Upload.{Attempt, uploads, all_acknowledged, uploads-Receives}
use mira_bridge.Transfers.Chunks.Download.{Offers, read_all, read_all-content}
use mira_bridge.Tests.Samples.{free_transfer}

abbrev uploading : World
uploading = record {
  db = record empty {
    transfers = record free_transfer { direction = push; temporary_path = some "p"; size = 3 } ∷ [];
  };
  files = record { path = "p"; node = plain [] } ∷ [];
  outcomes = [];
}

-- A chunk whose process ends before the row is updated, the same chunk again, a chunk at a wrong offset
-- and the rest.
abbrev attempts : List Attempt
attempts =
    record {
      offset = 0;
      bytes = 1 ∷ 2 ∷ [];
      now = 5;
      outcomes = succeeds ∷ succeeds ∷ crashes ∷ [];
    }
    ∷ record { offset = 0; bytes = 1 ∷ 2 ∷ []; now = 6; outcomes = [] }
    ∷ record { offset = 0; bytes = 9 ∷ []; now = 7; outcomes = [] }
    ∷ record { offset = 2; bytes = 3 ∷ []; now = 8; outcomes = [] }
    ∷ []

uploading-Receives : Receives "t" "p" 3 [] uploading
unfolding get_transfer node_at Table.find
uploading-Receives = record {
  row = record free_transfer { direction = push; temporary_path = some "p"; size = 3 };
  stored = refl;
  temporary = refl;
  sized = refl;
  counted = refl;
  fits = omega arith;
  rest = [];
  held = refl;
}

uploads-Receives_example :
    Receives "t" "p" 3
      ([] ++ all_acknowledged "t" attempts uploading)
      (uploads "t" attempts uploading)
uploads-Receives_example = uploads-Receives "t" "p" 3 attempts [] uploading uploading-Receives

abbrev offering : World
offering = record {
  db = record empty { transfers = free_transfer ∷ [] };
  files = record { path = "a"; node = plain (1 ∷ 2 ∷ 3 ∷ []) } ∷ [];
  outcomes = [];
}

offering-Offers : Offers "t" "a" (1 ∷ 2 ∷ 3 ∷ []) offering
unfolding get_transfer node_at Table.find
offering-Offers = record {
  row = free_transfer;
  stored = refl;
  pulled = refl;
  source = refl;
  held = refl;
  sized = refl;
}

read_all-content_example : read_all 4 "t" 2 0 offering ≡ ok (1 ∷ 2 ∷ 3 ∷ [])
read_all-content_example =
    read_all-content "t" "a" (1 ∷ 2 ∷ 3 ∷ []) 2 offering offering-Offers (omega arith)
