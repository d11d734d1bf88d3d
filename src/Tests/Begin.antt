-- ===== src/Tests/Begin.antt =====
-- The start of an upload.
use mira_bridge.Base.{String, List, some, err, ap, sym, false, [], ◌∷◌, ◌≡◌, refl, Result, ok}
use mira_bridge.Base.Table
use mira_bridge.Protocol.Errors.{Thrown}
use mira_bridge.State.Rows.{Database, TransferRow, empty}
use mira_bridge.State.Transfers.{get_transfer}
use mira_bridge.Transfers.{World, plain, succeeds, crashes, node_at}
use mira_bridge.Transfers.Ends.{Ends}
use mira_bridge.Transfers.Chunks.Stored.{Receives}
use mira_bridge.Transfers.Begin.{PushRequest, begin_push}
use mira_bridge.Transfers.Begin.Begun.{KeepsTransfers, Unregistered, begin_push-Ends}

abbrev request : PushRequest
request = record {
  node_id = "pc";
  destination_path = "a.txt";
  size = 3;
  sha256 = "s";
  overwrite = false;
  transfer_id = "t";
  now = 4;
}

abbrev idle : World
idle = record { db = empty; files = []; outcomes = succeeds ∷ succeeds ∷ crashes ∷ [] }

abbrev answer : String → Result Thrown String
answer d = ok d

abbrev admit : String → Database → Result Thrown Database
admit id db = ok db

abbrev part_name : String → String → String
part_name d id = "a.part"

begin_returns :
    (begin_push answer admit part_name request (record idle { outcomes = [] })).0 ≡ ok "t"
unfolding begin_push node_at Table.find Table.insert
begin_returns = refl

abbrev transfers_or : List TransferRow → Result Thrown Database → List TransferRow
transfers_or rows (ok db) = db.transfers
transfers_or rows (err e) = rows

admit-KeepsTransfers : KeepsTransfers answer admit part_name request
admit-KeepsTransfers id db db' e = ap (transfers_or []) (sym e)

begin_push-Ends_example :
    Ends
      (λ _ v. Receives "t" "a.part" 3 [] v × (node_at "a.part" v.files ≡ some (plain [])))
      (Unregistered "t")
      (begin_push answer admit part_name request idle)
unfolding get_transfer Table.find
begin_push-Ends_example =
    begin_push-Ends answer admit part_name request "a.txt" idle admit-KeepsTransfers refl refl
