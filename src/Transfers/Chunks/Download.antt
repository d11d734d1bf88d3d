-- ===== src/Transfers/Chunks/Download.antt =====
-- A client that reads a file of a pull chunk by chunk gets the file.
use mira_bridge.Base.{
  ℕ, zero, suc, ◌+◌, ◌-◌, ◌≤◌, min, String, true, false, some, ◌++◌, ltb, leb, length, length-take,
  length-drop, take, drop, take-append-drop, drop-drop, ◌≡◌, sym, ap, ◌∙◌, arith, if◌then◌else◌,
  Result, ok, err, Bool-cases, inl, inr, if_true, if_false, take_all,
}
use mira_bridge.State.Rows.{TransferRow, pull}
use mira_bridge.State.Transfers.{get_transfer}
use mira_bridge.Transfers.{Bytes, plain, World, Failure, failed, crashed, node_at}
use mira_bridge.Transfers.Chunks.{
  Chunk, same_direction, read_row, transfer_chunk_bytes, required, source_of, read_from, chunk_at,
  read_chunk,
}

abbrev after : Bytes → Result Failure Bytes → Result Failure Bytes
after bytes (ok rest) = ok (bytes ++ rest)
after bytes (err e) = err e

abbrev with_chunk : (Chunk → Result Failure Bytes) → Result Failure Chunk → Result Failure Bytes
with_chunk f (ok chunk) = f chunk
with_chunk f (err e) = err e

-- Reading until a chunk says that it is the last; the end of the fuel is a failure.
unfoldable pub read_all : ℕ → String → ℕ → ℕ → World → Result Failure Bytes
unfolding read_chunk
read_all zero id max_bytes offset w = err crashed
read_all (suc fuel) id max_bytes offset w =
    with_chunk
      (λ chunk.
        let rest = read_all fuel id max_bytes (offset + length chunk.bytes) w in
        if chunk.eof then ok chunk.bytes else after chunk.bytes rest)
      (read_chunk id offset max_bytes w)

-- The transfer of a file that has not changed since its size was taken.
pub record Offers (id p : String) (content : Bytes) (w : World) : Type 0 where
  pub row : TransferRow
  pub stored : get_transfer id w.db ≡ some row
  pub pulled : row.direction ≡ pull
  pub source : source_of row ≡ some p
  pub held : node_at p w.files ≡ some (plain content)
  pub sized : row.size ≡ length content

module _ (id p : String) (content : Bytes) (max_bytes : ℕ) (w : World)
    (h : Offers id p content w) where
  abbrev count_at : ℕ → ℕ
  count_at offset = min (min max_bytes transfer_chunk_bytes) (length content - offset)

  abbrev part : ℕ → Bytes
  part offset = take (count_at offset) (drop offset content)

  within : (offset : ℕ) → offset ≤ length content → ltb (length content) offset ≡ false
  within offset inside = ground (arith, inside)

  read_chunk-part :
      (offset : ℕ)
      → offset ≤ length content
      → read_chunk id offset max_bytes w
        ≡ ok (record {
          offset = offset;
          bytes = part offset;
          eof = leb (length content) (offset + length (part offset));
        })
  unfolding read_chunk
  read_chunk-part offset inside =
      ap (λ o. read_row offset max_bytes w (required pull o)) h.stored
      ∙ ap (λ b. read_row offset max_bytes w (if b then ok h.row else err failed))
          (ap (λ d. same_direction d pull) h.pulled)
      ∙ ap (read_from offset max_bytes w h.row) h.source
      ∙ if_false (ltb h.row.size offset) _ _ (ap (λ n. ltb n offset) h.sized ∙ within offset inside)
      ∙ ap (chunk_at offset max_bytes h.row) h.held
      ∙ ap
          (λ n.
            let bytes =
              take (min (min max_bytes transfer_chunk_bytes) (n - offset)) (drop offset content) in
            ok (record { offset = offset; bytes = bytes; eof = leb n (offset + length bytes) }))
          h.sized

  length-part : (offset : ℕ) → offset ≤ length content → length (part offset) ≡ count_at offset
  length-part offset inside =
      length-take (count_at offset) (drop offset content)
      ∙ omega (arith, length-drop offset content, inside)

  -- A part and the bytes after it.
  part_append :
      (offset : ℕ)
      → offset ≤ length content
      → part offset ++ drop (offset + length (part offset)) content ≡ drop offset content
  part_append offset inside =
      ap (λ n. part offset ++ drop (offset + n) content) (length-part offset inside)
      ∙ ap (λ t. part offset ++ t) (sym (drop-drop (count_at offset) offset content))
      ∙ take-append-drop (count_at offset) (drop offset content)

  -- The last part.
  part_last :
      (offset : ℕ)
      → offset ≤ length content
      → leb (length content) (offset + length (part offset)) ≡ true
      → part offset ≡ drop offset content
  part_last offset inside last =
      take_all (count_at offset) (drop offset content)
        (ground (arith, last, length-part offset inside, length-drop offset content, inside))

  read_all-drop :
      (fuel offset : ℕ)
      → 1 ≤ max_bytes
      → offset ≤ length content
      → length content - offset + 1 ≤ fuel
      → read_all fuel id max_bytes offset w ≡ ok (drop offset content)
  unfolding read_all
  read_all-drop zero offset some_bytes inside enough = absurd (omega (arith, enough))
  read_all-drop (suc fuel) offset some_bytes inside enough =
      ap (with_chunk _) (read_chunk-part offset inside)
      ∙ (elim (Bool-cases (leb (length content) (offset + length (part offset)))) [
        | inl y ↦ if_true _ _ _ y ∙ ap ok (part_last offset inside y)
        | inr n ↦
            if_false _ _ _ n
            ∙ ap (after (part offset)) (
                read_all-drop fuel (offset + length (part offset)) some_bytes
                  (omega (arith, length-part offset inside, inside))
                  (ground (arith, n, length-part offset inside, inside, some_bytes, enough)))
            ∙ ap ok (part_append offset inside)
      ])

-- Reading a file that is offered from its start, with a positive chunk limit, returns the file; one more
-- chunk than the file has bytes is enough.
pub read_all-content :
    (id p : String) (content : Bytes) (max_bytes : ℕ) (w : World)
    → Offers id p content w
    → 1 ≤ max_bytes
    → read_all (length content + 1) id max_bytes 0 w ≡ ok content
read_all-content id p content max_bytes w h some_bytes =
    read_all-drop id p content max_bytes w h (length content + 1) 0 some_bytes (omega arith)
      (omega arith)
