-- ===== src/OutputFiles.antt =====
-- packages/windows-worker/src/output-files.ts: the preview of a stored output and the pages that a
-- client reads of it. A file is its bytes; a text is the bytes that it decodes from. Whether bytes are
-- well-formed UTF-8 is a parameter, since `TextDecoder` decides it. The last lines are left out.
pub mod Pages
use mira_bridge.Base.{
  ℕ, zero, suc, ◌+◌, ◌-◌, ◌/◌, ◌%◌, min, Bool, true, false, List, [], ◌∷◌, eqb, leb, length, take,
  drop, if◌then◌else◌,
}

abbrev pub Bytes : Type 0
Bytes = List ℕ

-- `readRange`
abbrev pub read_range : Bytes → ℕ → ℕ → Bytes
read_range content offset count = take count (drop offset content)

-- (byte & 0xc0) === 0x80
abbrev pub is_continuation : ℕ → Bool
is_continuation byte = eqb ((byte / 64) % 4) 2

-- How many continuation bytes the buffer starts with, at most the given number.
unfoldable pub skipped_start : ℕ → Bytes → ℕ
skipped_start zero buffer = 0
skipped_start (suc n) [] = 0
skipped_start (suc n) (byte ∷ buffer) =
    let rest = skipped_start n buffer in if is_continuation byte then suc rest else 0

pub record Preview : Type 0 where
  pub truncated : Bool
  pub total_bytes : ℕ
  pub head : Bytes
  pub tail : Bytes

pub record Page : Type 0 where
  pub text : Bytes
  pub requested_offset : ℕ
  pub offset : ℕ
  pub bytes : ℕ
  pub next_offset : ℕ
  pub total_bytes : ℕ
  pub eof : Bool

module _ (decodes : Bytes → Bool) where
  -- The loop of `trimIncompleteUtf8End`: the attempts left, and how many bytes are removed.
  unfoldable pub trim_attempts : ℕ → ℕ → Bytes → Bytes
  trim_attempts zero removed buffer = []
  trim_attempts (suc n) removed buffer =
      let candidate = take (length buffer - removed) buffer in
      let rest = trim_attempts n (suc removed) buffer in
      if decodes candidate then candidate else rest

  unfoldable pub trim_incomplete_end : Bytes → Bytes
  unfolding trim_attempts
  trim_incomplete_end [] = []
  trim_incomplete_end (byte ∷ buffer) =
      trim_attempts (suc (min 3 (length (byte ∷ buffer)))) 0 (byte ∷ buffer)

  abbrev pub trim_split_start : Bytes → Bytes
  trim_split_start buffer = drop (skipped_start 3 buffer) buffer

  -- `previewFile`: a file within the limit is shown as its head.
  unfoldable pub preview_file : Bytes → ℕ → Preview
  unfolding trim_incomplete_end skipped_start
  preview_file content limit =
      if leb (length content) limit
      then record {
        truncated = false;
        total_bytes = length content;
        head = read_range content 0 (length content);
        tail = [];
      }
      else record {
        truncated = true;
        total_bytes = length content;
        head = trim_incomplete_end (read_range content 0 (limit / 2));
        tail =
            trim_split_start
              (read_range content (length content - (limit - limit / 2)) (limit - limit / 2));
      }

  abbrev consumed : Bytes → Bytes → ℕ
  consumed [] raw = length raw
  consumed (byte ∷ bytes) raw = length (byte ∷ bytes)

  abbrev next_after : Bytes → ℕ → ℕ → ℕ
  next_after [] after_start after_raw = after_raw
  next_after (byte ∷ bytes) after_start after_raw = after_start + length (byte ∷ bytes)

  abbrev page_of : ℕ → ℕ → Bytes → ℕ → Bytes → Page
  page_of size requested raw skipped bytes =
      let next = next_after bytes (requested + skipped) (requested + length raw) in
      record {
        text = bytes;
        requested_offset = requested;
        offset = requested + skipped;
        bytes = consumed bytes raw;
        next_offset = next;
        total_bytes = size;
        eof = leb size next;
      }

  abbrev page_from : Bytes → ℕ → ℕ → Page
  page_from content requested max_bytes =
      let raw = read_range content requested (min max_bytes (length content - requested)) in
      page_of (length content) requested raw (skipped_start 3 raw)
        (trim_incomplete_end (trim_split_start raw))

  -- `readOutputRange` without `tailLines`.
  unfoldable pub read_output_range : Bytes → ℕ → ℕ → Page
  unfolding trim_incomplete_end skipped_start
  read_output_range content offset max_bytes =
      page_from content (min offset (length content)) max_bytes
