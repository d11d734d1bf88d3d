-- ===== src/Capture/Bounded.antt =====
-- What the capture keeps of a stream: all of it, or its head and its tail.
use mira_bridge.Base.{
  flatten, ℕ, ◌+◌, ◌-◌, ◌≤◌, ◌<◌, ◌≡◌, refl, ◌∙◌, ap, sym, subst, true, List, [], ◌∷◌, ◌++◌, length,
  take, drop, leb, not, if◌then◌else◌, arith, length-append, length-drop, length-take, inl, inr,
  Bool-cases, leb→le, leb-false→lt, le→leb, lt→leb-false, drop-append, take-append,
}
use mathlib.Core.List.{append-nil, append_assoc}
use mira_bridge.Capture.Files.{write_at_end}
use mira_bridge.Capture.{
  Bytes, CaptureState, Limits, head_limit, append_tail, capture_chunk, capture_chunks,
  capture_bounded_stream, finish_capture,
}
use mira_bridge.Capture.Tail.{
  last_bytes, kept_tail, append_tail-last_bytes, Holds, whole, cut, overflow-file, overflow-tail,
}

-- Once the head is full, more bytes only make the rest longer.
past_head :
    (l : Limits) (seen chunk : Bytes)
    → head_limit l ≤ length seen
    → drop (head_limit l) (seen ++ chunk) ≡ drop (head_limit l) seen ++ chunk
past_head l seen chunk long =
    let e : head_limit l - length seen ≡ 0 = omega arith in
    rw (drop-append (head_limit l) seen chunk, e) refl

head_kept :
    (l : Limits) (seen chunk : Bytes)
    → head_limit l ≤ length seen
    → take (head_limit l) (seen ++ chunk) ≡ take (head_limit l) seen
head_kept l seen chunk long =
    let e : head_limit l - length seen ≡ 0 = omega arith in
    rw (take-append (head_limit l) seen chunk, e, append-nil) refl

capture_chunk-Holds :
    (l : Limits) (chunk seen : Bytes) {s : CaptureState}
    → Holds l seen s
    → Holds l (seen ++ chunk) (capture_chunk l chunk s)
unfolding capture_chunk
capture_chunk-Holds l chunk seen (whole fits) =
    elim (Bool-cases (leb (length seen + length chunk) l.max_bytes)) [
      | inl e ↦
          rw (e, write_at_end (length seen) chunk seen refl, sym (length-append seen chunk))
            (whole (omega (arith, leb→le _ _ e, length-append seen chunk)))
      | inr e ↦
          let over : l.max_bytes < length seen + length chunk = leb-false→lt _ _ e in
          rw e (
            subst (Holds l (seen ++ chunk))
              (λ i. record {
                file = sym (overflow-file l seen chunk over) i;
                total_bytes = length-append seen chunk i;
                storage_truncated = true;
                tail = sym (overflow-tail l seen chunk over) i;
              })
              (cut (omega (arith, length-append seen chunk))
                (omega (arith, length-append seen chunk))))
    ]
capture_chunk-Holds l chunk seen (cut long over) =
    let grown : append_tail (kept_tail l seen) chunk l.tail_bytes ≡ kept_tail l (seen ++ chunk) =
      append_tail-last_bytes (drop (head_limit l) seen) chunk l.tail_bytes
      ∙ ap (last_bytes l.tail_bytes) (sym (past_head l seen chunk long)) in
    let same : take (head_limit l) seen ≡ take (head_limit l) (seen ++ chunk) =
      sym (head_kept l seen chunk long) in
    subst (Holds l (seen ++ chunk))
      (λ i. record {
        file = sym same i;
        total_bytes = length-append seen chunk i;
        storage_truncated = true;
        tail = sym grown i;
      })
      (cut (omega (arith, length-append seen chunk)) (omega (arith, length-append seen chunk)))

capture_chunks-Holds :
    (l : Limits) (chunks : List Bytes) (seen : Bytes) {s : CaptureState}
    → Holds l seen s
    → Holds l (seen ++ flatten chunks) (capture_chunks l chunks s)
unfolding capture_chunks flatten
capture_chunks-Holds l [] seen {s = s} h = rw append-nil h
capture_chunks-Holds l (chunk ∷ chunks) seen {s = s} h =
    subst (λ t. Holds l t (capture_chunks l chunks (capture_chunk l chunk s)))
      (append_assoc seen chunk (flatten chunks))
      (capture_chunks-Holds l chunks (seen ++ chunk) (capture_chunk-Holds l chunk seen h))

-- The file that a stream should leave: the stream, or its head, the marker for the bytes left out,
-- and the tail.
abbrev pub omitted : Limits → Bytes → ℕ
omitted l stream = length stream - head_limit l - length (kept_tail l stream)

abbrev pub bounded : (ℕ → Bytes) → Limits → Bytes → Bytes
bounded marker l stream =
    if leb (length stream) l.max_bytes
    then stream
    else take (head_limit l) stream ++ (marker (omitted l stream) ++ kept_tail l stream)

finish_capture-Holds :
    (marker : ℕ → Bytes) (l : Limits) (stream : Bytes) {s : CaptureState}
    → Holds l stream s
    → ((finish_capture marker l s).1 ≡ bounded marker l stream)
      × ((finish_capture marker l s).0.total_bytes ≡ length stream)
      × ((finish_capture marker l s).0.storage_truncated ≡ not (leb (length stream) l.max_bytes))
unfolding finish_capture
finish_capture-Holds marker l stream (whole fits) =
    rw (le→leb (length stream) l.max_bytes fits) (refl, refl, refl)
finish_capture-Holds marker l stream (cut long over) =
    let head : Bytes = take (head_limit l) stream in
    let mark : Bytes = marker (omitted l stream) in
    let size : length head ≡ head_limit l = omega (arith, length-take (head_limit l) stream) in
    rw
      (
        lt→leb-false (length stream) l.max_bytes over,
        write_at_end (head_limit l) mark head size,
        write_at_end (head_limit l + length mark) (kept_tail l stream) (head ++ mark)
            (omega (arith, size, length-append head mark)),
        append_assoc,
      )
      (refl, refl, refl)

-- For every stream, in whatever chunks it arrives, the file left is the stream itself if it fits the
-- limit, and otherwise its head, the marker with the count of the bytes left out, and its last
-- bytes; the totals and the truncation flag that are reported agree with the stream.
pub capture_bounded_stream-bounded :
    (marker : ℕ → Bytes) (l : Limits) (chunks : List Bytes)
    → ((capture_bounded_stream marker l chunks).1 ≡ bounded marker l (flatten chunks))
      × ((capture_bounded_stream marker l chunks).0.total_bytes ≡ length (flatten chunks))
      × ((capture_bounded_stream marker l chunks).0.storage_truncated
          ≡ not (leb (length (flatten chunks)) l.max_bytes))
unfolding capture_bounded_stream
capture_bounded_stream-bounded marker l chunks =
    finish_capture-Holds marker l (flatten chunks)
      (capture_chunks-Holds l chunks [] (whole (omega arith)))

stored_is_length :
    (marker : ℕ → Bytes) (l : Limits) (chunks : List Bytes)
    → (capture_bounded_stream marker l chunks).0.stored_bytes
      ≡ length (capture_bounded_stream marker l chunks).1
unfolding capture_bounded_stream finish_capture
stored_is_length marker l chunks = refl

length-bounded :
    (marker : ℕ → Bytes) (l : Limits) (stream : Bytes)
    → ((n : ℕ) → length (marker n) ≤ 256)
    → l.tail_bytes + 256 ≤ l.max_bytes
    → length (bounded marker l stream) ≤ l.max_bytes
length-bounded marker l stream short room = elim (Bool-cases (leb (length stream) l.max_bytes)) [
  | inl e ↦ rw e (leb→le _ _ e)
  | inr e ↦ rw e (
      omega (
        arith,
        length-append (take (head_limit l) stream)
            (marker (omitted l stream) ++ kept_tail l stream),
        length-append (marker (omitted l stream)) (kept_tail l stream),
        length-take (head_limit l) stream,
        length-drop (length (drop (head_limit l) stream) - l.tail_bytes)
            (drop (head_limit l) stream),
        short (omitted l stream),
      ))
]

-- The stored bytes never exceed the limit, when the marker takes at most the 256 bytes set aside for
-- it and these fit the limit together with the tail.
pub stored_bytes-le-max :
    (marker : ℕ → Bytes) (l : Limits) (chunks : List Bytes)
    → ((n : ℕ) → length (marker n) ≤ 256)
    → l.tail_bytes + 256 ≤ l.max_bytes
    → (capture_bounded_stream marker l chunks).0.stored_bytes ≤ l.max_bytes
stored_bytes-le-max marker l chunks short room = omega (
  arith,
  stored_is_length marker l chunks,
  ap length (capture_bounded_stream-bounded marker l chunks).0,
  length-bounded marker l (flatten chunks) short room,
)
