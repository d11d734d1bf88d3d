-- ===== src/Transfers/Chunks/Upload.antt =====
-- The bytes of an upload: what has been acknowledged is what the temporary file starts with.
use mira_bridge.Base.{
  ℕ, ◌+◌, ◌≤◌, String, Bool, true, false, some, List, [], ◌∷◌, ◌++◌, ◌||◌, not, eqb, ltb, length,
  ◌≡◌, sym, subst, arith, if◌then◌else◌, Result, ok, err, throw, continue,
}
use mathlib.Core.List.{append_assoc, append-nil}
use mira_bridge.State.Rows.{push, Time}
use mira_bridge.Transfers.{Bytes, World, Outcome, Failure, failed}
use mira_bridge.Transfers.Chunks.{
  transfer_chunk_bytes, required, same_direction, require_transfer, store_chunk, write_to,
  write_chunk,
}
use mira_bridge.Transfers.Ends.{Ends, if-Ends, throw-Ends}
use mira_bridge.Transfers.Chunks.Stored.{Receives, Before-later, store_chunk-Ends}

module _ (id p : String) (size : ℕ) where
  stored_at :
      (offset : ℕ) (old new : Bytes) (now : Time) (w : World)
      → offset ≡ length old
      → length old + length new ≤ size
      → Receives id p size old w
      → Ends
          (λ n. Receives id p size (old ++ new))
          (Receives id p size old)
          (store_chunk id p offset new now w)
  stored_at offset old new now w e room h =
      subst
        (λ o.
          Ends (λ n. Receives id p size (old ++ new)) (Receives id p size old)
            (store_chunk id p o new now w))
        (sym e) (store_chunk-Ends id p size old new now w room h)

  write_to-Ends :
      (offset : ℕ) (old new : Bytes) (now : Time) (w : World) (h : Receives id p size old w)
      → Ends
          (λ n. Receives id p size (old ++ new))
          (Receives id p size old)
          (write_to id offset new now h.row (some p) w)
  unfolding write_to
  write_to-Ends offset old new now w h =
      let Q : ℕ → World → Type 0 = λ n. Receives id p size (old ++ new) in
      if-Ends Q (Receives id p size old) (not (eqb offset h.row.transferred)) (throw failed w) _
        (λ _. throw-Ends Q (Receives id p size old) failed w h)
        (λ right.
          if-Ends Q (Receives id p size old)
            (ltb transfer_chunk_bytes (length new)
              || ltb h.row.size (h.row.transferred + length new))
            (throw failed w) (store_chunk id p offset new now w)
            (λ _. throw-Ends Q (Receives id p size old) failed w h)
            (λ room.
              stored_at offset old new now w (ground (arith, right, h.counted))
                (ground (arith, room, h.counted, h.sized)) h))

  -- A chunk that is acknowledged is added to the bytes; any other call leaves them.
  pub write_chunk-Ends :
      (offset : ℕ) (old new : Bytes) (now : Time) (w : World)
      → Receives id p size old w
      → Ends
          (λ n. Receives id p size (old ++ new))
          (Receives id p size old)
          (write_chunk id offset new now w)
  unfolding write_chunk require_transfer
  write_chunk-Ends offset old new now w h =
      subst
        (λ o.
          Ends (λ n. Receives id p size (old ++ new)) (Receives id p size old)
            (continue (λ t. write_to id offset new now t t.temporary_path) (required push o) w))
        (sym h.stored) (by_direction (same_direction h.row.direction push))
    where
      by_direction :
          (b : Bool)
          → Ends
              (λ n. Receives id p size (old ++ new))
              (Receives id p size old)
              (continue
                (λ t. write_to id offset new now t t.temporary_path)
                (if b then ok h.row else err failed)
                w)
      by_direction true =
          subst
            (λ o.
              Ends (λ n. Receives id p size (old ++ new)) (Receives id p size old)
                (write_to id offset new now h.row o w))
            (sym h.temporary) (write_to-Ends offset old new now w h)
      by_direction false =
          throw-Ends (λ n. Receives id p size (old ++ new)) (Receives id p size old) failed w h

-- A call of `writeChunk`, with the outcomes of its own calls.
pub record Attempt : Type 0 where
  pub offset : ℕ
  pub bytes : Bytes
  pub now : Time
  pub outcomes : List Outcome

abbrev pub attempt : String → Attempt → World → Result Failure ℕ × World
attempt id c w = write_chunk id c.offset c.bytes c.now (record w { outcomes = c.outcomes })

abbrev pub acknowledged : Result Failure ℕ → Bytes → Bytes
acknowledged (ok n) bytes = bytes
acknowledged (err e) bytes = []

unfoldable pub uploads : String → List Attempt → World → World
unfolding write_chunk
uploads id [] w = w
uploads id (c ∷ cs) w = uploads id cs (attempt id c w).1

-- The bytes of the chunks that have been acknowledged, in order.
unfoldable pub all_acknowledged : String → List Attempt → World → Bytes
unfolding write_chunk
all_acknowledged id [] w = []
all_acknowledged id (c ∷ cs) w =
    acknowledged (attempt id c w).0 c.bytes ++ all_acknowledged id cs (attempt id c w).1

module _ (id p : String) (size : ℕ) where
  attempt-Receives :
      (c : Attempt) (old : Bytes) (w : World)
      → Receives id p size old w
      → Receives id p size (old ++ acknowledged (attempt id c w).0 c.bytes) (attempt id c w).1
  unfolding Ends
  attempt-Receives c old w h =
      let v : World = record w { outcomes = c.outcomes } in
      by_result (attempt id c w).0 (
        write_chunk-Ends id p size c.offset old c.bytes c.now v
          (Before-later id p size old c.bytes c.now w c.outcomes h))
    where
      by_result :
          (r : Result Failure ℕ)
          → Ends
              (λ n. Receives id p size (old ++ c.bytes))
              (Receives id p size old)
              (r, (attempt id c w).1)
          → Receives id p size (old ++ acknowledged r c.bytes) (attempt id c w).1
      by_result (ok n) k = k
      by_result (err e) k =
          subst (λ t. Receives id p size t (attempt id c w).1) (sym (append-nil old)) k

  -- For a transfer whose row counts the bytes that its temporary file starts with, whatever chunks are sent at
  -- whatever offsets, and whatever calls fail or processes end while they are written: the file
  -- starts with these bytes and then the acknowledged chunks in order, and the row counts exactly
  -- these bytes, which do not exceed the declared size.
  pub uploads-Receives :
      (cs : List Attempt) (old : Bytes) (w : World)
      → Receives id p size old w
      → Receives id p size (old ++ all_acknowledged id cs w) (uploads id cs w)
  unfolding uploads all_acknowledged
  uploads-Receives [] old w h = subst (λ t. Receives id p size t w) (sym (append-nil old)) h
  uploads-Receives (c ∷ cs) old w h =
      subst (λ t. Receives id p size t (uploads id cs (attempt id c w).1))
        (append_assoc old (acknowledged (attempt id c w).0 c.bytes)
          (all_acknowledged id cs (attempt id c w).1))
        (uploads-Receives cs (old ++ acknowledged (attempt id c w).0 c.bytes) (attempt id c w).1
          (attempt-Receives c old w h))
