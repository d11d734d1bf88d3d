-- ===== src/Transfers/Chunks.antt =====
-- `require`, `writeChunk` and `readChunk`.
pub mod Stored
pub mod Upload
pub mod Download
use mira_bridge.Base.{
  ℕ, zero, suc, ◌+◌, ◌-◌, ◌*◌, min, String, Bool, true, false, Option, none, some, List, [], ◌∷◌,
  ◌++◌, ◌||◌, not, eqb, ltb, leb, length, take, drop, if◌then◌else◌, Result, ok, err, pure, throw,
  continue, ◌>>=◌, ◌>>◌,
}
use mira_bridge.Protocol.Errors.{Thrown, other}
use mira_bridge.State.Rows.{TransferRow, Direction, push, pull, TransferKind, directory, Time}
use mira_bridge.State.Transfers.{get_transfer, update_transferred}
use mira_bridge.Transfers.{
  Bytes, Node, plain, folder, World, Action, Failure, raised, failed, perform, node_at, put, on_db,
  catch_failure,
}

abbrev pub transfer_chunk_bytes : ℕ
transfer_chunk_bytes = 512 * 1024

abbrev pub same_direction : Direction → Direction → Bool
same_direction push push = true
same_direction pull pull = true
same_direction _ _ = false

abbrev pub required : Direction → Option TransferRow → Result Failure TransferRow
required direction none = err failed
required direction (some t) = if same_direction t.direction direction then ok t else err failed

-- `require`
unfoldable pub require_transfer : String → Direction → World → Result Failure TransferRow
require_transfer id direction w = required direction (get_transfer id w.db)

-- Bytes written at a position; a gap before it is filled with zeros.
unfoldable pub splice : ℕ → Bytes → Bytes → Bytes
splice zero new old = new ++ drop (length new) old
splice (suc n) new [] = 0 ∷ splice n new []
splice (suc n) new (x ∷ old) = x ∷ splice n new old

abbrev pub overwritten : String → ℕ → Bytes → World → Option Node → Result Thrown World
overwritten p offset bytes w none = err (other (some "ENOENT"))
overwritten p offset bytes w (some (folder entries)) = err (other (some "EISDIR"))
overwritten p offset bytes w (some (plain content)) =
    ok (record w { files = put p (plain (splice offset bytes content)) w.files })

-- `open(path, "r+")`
abbrev pub opened : World → Option Node → Result Thrown World
opened w none = err (other (some "ENOENT"))
opened w (some (folder entries)) = err (other (some "EISDIR"))
opened w (some (plain content)) = ok w

unfoldable pub open_existing : String → Action (Unit {0})
unfolding perform
open_existing p = perform (λ w. opened w (node_at p w.files))

-- `handle.write`, which writes all the bytes or throws: a short write is left out.
unfoldable pub write_bytes : String → ℕ → Bytes → Action (Unit {0})
unfolding perform splice
write_bytes p offset bytes = perform (λ w. overwritten p offset bytes w (node_at p w.files))

-- `handle.close`
unfoldable pub close_handle : Action (Unit {0})
unfolding perform
close_handle = perform (λ w. ok w)

abbrev pub close_after : Failure → Action (Unit {0})
close_after e = close_handle >> throw e

-- `open(path, "r+")`, then try { write } finally { close }: an error of the closing replaces one of the writing.
unfoldable pub write_at : String → ℕ → Bytes → Action (Unit {0})
unfolding open_existing write_bytes close_handle
write_at p offset bytes =
    open_existing p >> (catch_failure (write_bytes p offset bytes) close_after >> close_handle)

-- `assertFreeSpace`, which changes nothing and may throw.
unfoldable pub assert_free_space : Action (Unit {0})
unfolding perform
assert_free_space = perform (λ w. ok w)

-- What follows the tests.
unfoldable pub store_chunk : String → String → ℕ → Bytes → Time → Action ℕ
unfolding assert_free_space write_at on_db
store_chunk id p offset bytes now = do
  assert_free_space
  write_at p offset bytes
  on_db (update_transferred id (offset + length bytes) now)
  pure (offset + length bytes)

unfoldable pub write_to : String → ℕ → Bytes → Time → TransferRow → Option String → Action ℕ
unfolding store_chunk
write_to id offset bytes now t none w = throw failed w
write_to id offset bytes now t (some p) w =
    if not (eqb offset t.transferred)
    then throw failed w
    else if ltb transfer_chunk_bytes (length bytes) || ltb t.size (t.transferred + length bytes)
    then throw failed w
    else store_chunk id p offset bytes now w

-- `writeChunk`, with the bytes that its base64 text decodes to.
unfoldable pub write_chunk : String → ℕ → Bytes → Time → Action ℕ
unfolding require_transfer write_to
write_chunk id offset bytes now w =
    continue (λ t. write_to id offset bytes now t t.temporary_path) (require_transfer id push w) w

-- The file that a pull reads.
abbrev pub source_of : TransferRow → Option String
source_of t = elim t.kind [ directory ↦ t.temporary_path | _ ↦ t.source_path ]

pub record Chunk : Type 0 where
  pub offset : ℕ
  pub bytes : Bytes
  pub eof : Bool

abbrev pub chunk_at : ℕ → ℕ → TransferRow → Option Node → Result Failure Chunk
chunk_at offset max_bytes t none = err (raised (other (some "ENOENT")))
chunk_at offset max_bytes t (some (folder entries)) = err (raised (other (some "EISDIR")))
chunk_at offset max_bytes t (some (plain content)) =
    let bytes =
      take (min (min max_bytes transfer_chunk_bytes) (t.size - offset)) (drop offset content) in
    ok (record { offset = offset; bytes = bytes; eof = leb t.size (offset + length bytes) })

abbrev pub read_from : ℕ → ℕ → World → TransferRow → Option String → Result Failure Chunk
read_from offset max_bytes w t none = err failed
read_from offset max_bytes w t (some p) =
    if ltb t.size offset then err failed else chunk_at offset max_bytes t (node_at p w.files)

abbrev pub read_row : ℕ → ℕ → World → Result Failure TransferRow → Result Failure Chunk
read_row offset max_bytes w (ok t) = read_from offset max_bytes w t (source_of t)
read_row offset max_bytes w (err e) = err e

-- `readChunk`; it changes nothing.
unfoldable pub read_chunk : String → ℕ → ℕ → World → Result Failure Chunk
unfolding require_transfer
read_chunk id offset max_bytes w = read_row offset max_bytes w (require_transfer id pull w)
