-- ===== src/Capture.antt =====
-- `captureBoundedStream` of plugins/mira-bridge/packages/windows-worker/src/process-exec.ts: a
-- process's output goes to a file of bounded size that keeps its head and its tail. A file and a
-- chunk are lists of bytes; the marker's text, whose digits depend on the count, is a parameter.
-- The callback that shows each chunk to a terminal does not touch the file and is left out.
pub mod Files
pub mod Tail
pub mod Bounded
use mira_bridge.Base.{
  ℕ, ◌+◌, ◌-◌, Bool, true, false, List, [], ◌∷◌, ◌++◌, length, take, drop, ltb, leb, not, ◌&&◌,
  if◌then◌else◌, min,
}
use Files.{write_at, truncate, read_at}

abbrev pub Bytes : Type 0
Bytes = List ℕ

-- `appendTail(current, incoming, limit)`
unfoldable pub append_tail : Bytes → Bytes → ℕ → Bytes
append_tail current incoming limit =
    if leb limit (length incoming)
    then drop (length incoming - limit) incoming
    else if leb (length current + length incoming) limit
    then current ++ incoming
    else drop (length current + length incoming - limit) current ++ incoming

-- The local variables of the loop, and the file.
pub record CaptureState : Type 0 where
  pub file : Bytes
  pub total_bytes : ℕ
  pub storage_truncated : Bool
  pub tail : Bytes

abbrev pub start : CaptureState
start = record { file = []; total_bytes = 0; storage_truncated = false; tail = [] }

pub record Limits : Type 0 where
  pub max_bytes : ℕ
  pub tail_bytes : ℕ

-- `Math.max(0, maxBytes - tailBytes - markerReserve)`
abbrev pub head_limit : Limits → ℕ
head_limit l = l.max_bytes - l.tail_bytes - 256

-- The chunk that first exceeds the limit: the tail takes what is stored past the head, the head is
-- filled up, and the file is cut.
pub overflow : Limits → Bytes → CaptureState → CaptureState
overflow l chunk s =
    let head = head_limit l in
    let kept = s.total_bytes - head in
    let tail =
      if ltb 0 kept then append_tail s.tail (read_at head kept s.file) l.tail_bytes else s.tail in
    let prefix = min (head - s.total_bytes) (length chunk) in
    record {
      file = truncate head (
          if ltb s.total_bytes head && ltb 0 prefix
          then write_at s.total_bytes (take prefix chunk) s.file
          else s.file);
      total_bytes = s.total_bytes + length chunk;
      storage_truncated = true;
      tail =
          if ltb s.total_bytes head
          then append_tail tail (drop prefix chunk) l.tail_bytes
          else append_tail tail chunk l.tail_bytes;
    }

-- One round of the loop.
unfoldable pub capture_chunk : Limits → Bytes → CaptureState → CaptureState
unfolding overflow
capture_chunk l chunk s =
    if not s.storage_truncated && leb (s.total_bytes + length chunk) l.max_bytes
    then record s {
      file = write_at s.total_bytes chunk s.file;
      total_bytes = s.total_bytes + length chunk;
    }
    else if not s.storage_truncated
    then overflow l chunk s
    else record s {
      tail = append_tail s.tail chunk l.tail_bytes;
      total_bytes = s.total_bytes + length chunk;
    }

unfoldable pub capture_chunks : Limits → List Bytes → CaptureState → CaptureState
unfolding capture_chunk
capture_chunks l [] s = s
capture_chunks l (chunk ∷ chunks) s = capture_chunks l chunks (capture_chunk l chunk s)

pub record StreamCapture : Type 0 where
  pub total_bytes : ℕ
  pub stored_bytes : ℕ
  pub storage_truncated : Bool
  pub omitted_bytes : ℕ

module _ (marker : ℕ → Bytes) where
  -- What follows the loop: the marker and the tail are written, and the result is built.
  finish_capture : Limits → CaptureState → StreamCapture × Bytes
  finish_capture l s =
      let omitted =
        if s.storage_truncated then s.total_bytes - head_limit l - length s.tail else 0 in
      let file =
        if s.storage_truncated
        then write_at (head_limit l + length (marker omitted)) s.tail
            (write_at (head_limit l) (marker omitted) s.file)
        else s.file in
      (
        record {
          total_bytes = s.total_bytes;
          stored_bytes = length file;
          storage_truncated = s.storage_truncated;
          omitted_bytes = omitted;
        },
        file,
      )

  -- The result, and the file as it is left.
  unfoldable pub capture_bounded_stream : Limits → List Bytes → StreamCapture × Bytes
  unfolding finish_capture capture_chunks
  capture_bounded_stream l chunks = finish_capture l (capture_chunks l chunks start)
