-- ===== src/Capture/Tail.antt =====
-- The tail that `captureBoundedStream` holds, and the chunk that first exceeds the limit.
use mira_bridge.Base.{
  ℕ, ◌+◌, ◌-◌, ◌≤◌, ◌<◌, ◌≡◌, refl, ◌∙◌, ap, sym, true, false, [], ◌++◌, length, take, drop, ltb,
  leb, if◌then◌else◌, min, arith, length-append, length-drop, length-take, drop-drop, inl, inr,
  Bool-cases, leb→le, leb-false→lt, ltb→lt, lt→ltb, ltb-false→le, le→ltb-false, take_all, drop_all,
  drop-append, take-append,
}
use mathlib.Core.List.{append-nil}
use mira_bridge.Capture.Files.{read_at, write_at_end, truncate_short}
use mira_bridge.Capture.{Bytes, CaptureState, Limits, head_limit, append_tail, overflow}

-- The last `n` bytes, or all of them.
abbrev pub last_bytes : ℕ → Bytes → Bytes
last_bytes n bytes = drop (length bytes - n) bytes

-- What is kept of the bytes past the head.
abbrev pub kept_tail : Limits → Bytes → Bytes
kept_tail l seen = last_bytes l.tail_bytes (drop (head_limit l) seen)

-- The second and third branches of `appendTail`, on the last bytes of `a`.
append_short :
    (m k n : ℕ) (a b : Bytes)
    → (if leb (m - (m - n) + k) n
        then drop (m - n) a ++ b
        else drop (m - (m - n) + k - n) (drop (m - n) a) ++ b)
      ≡ drop (m + k - n) a ++ b
append_short m k n a b = elim (Bool-cases (leb (m - (m - n) + k) n)) [
  | inl fits ↦ rw fits (
      let e : m - n ≡ m + k - n = omega (arith, leb→le (m - (m - n) + k) n fits) in
      ap (λ i. drop i a ++ b) e)
  | inr over ↦
      rw (over, drop-drop (m - (m - n) + k - n) (m - n) a)
        (let e : m - n + (m - (m - n) + k - n) ≡ m + k - n =
            omega (arith, leb-false→lt (m - (m - n) + k) n over) in
          ap (λ i. drop i a ++ b) e)
]

-- Appending to the last bytes of a stream gives the last bytes of the longer stream.
pub append_tail-last_bytes :
    (a b : Bytes) (n : ℕ) → append_tail (last_bytes n a) b n ≡ last_bytes n (a ++ b)
unfolding append_tail
append_tail-last_bytes a b n = elim (Bool-cases (leb n (length b))) [
  | inl long ↦
      rw (long, drop-append (length (a ++ b) - n) a b, length-append a b)
        (let gone : drop (length a + length b - n) a ≡ [] =
            drop_all _ a (omega (arith, leb→le n (length b) long)) in
          let cut : length b - n ≡ length a + length b - n - length a =
            omega (arith, leb→le n (length b) long) in
          rw gone (ap (λ k. drop k b) cut))
  | inr short ↦
      rw
        (
          short,
          drop-append (length (a ++ b) - n) a b,
          length-append a b,
          length-drop (length a - n) a,
        )
        (let whole : length a + length b - n - length a ≡ 0 =
            omega (arith, leb-false→lt n (length b) short) in
          rw whole (append_short (length a) (length b) n a b))
]

-- After the bytes `seen` have arrived: all of them are stored, or the head is, and the tail is held.
pub data Holds (l : Limits) (seen : Bytes) : CaptureState → Type 0 where
  whole :
      length seen ≤ l.max_bytes
      → Holds l seen
          (record { file = seen; total_bytes = length seen; storage_truncated = false; tail = [] })
  cut :
      head_limit l ≤ length seen
      → l.max_bytes < length seen
      → Holds l seen (record {
        file = take (head_limit l) seen;
        total_bytes = length seen;
        storage_truncated = true;
        tail = kept_tail l seen;
      })

append_tail-nil : (b : Bytes) (n : ℕ) → append_tail [] b n ≡ last_bytes n b
append_tail-nil b n =
    let e : [] ≡ last_bytes n (let none : Bytes = [] in none) =
      sym (drop_all (0 - n) [] (omega arith)) in
    ap (λ t. append_tail t b n) e ∙ append_tail-last_bytes [] b n

-- The bytes that are stored past the head become the tail.
held_tail :
    (n kept : ℕ) (past : Bytes)
    → length past ≡ kept
    → (if ltb 0 kept then append_tail [] (take kept past) n else []) ≡ last_bytes n past
held_tail n kept past e = elim (Bool-cases (ltb 0 kept)) [
  | inl more ↦ rw (more, take_all kept past (omega arith)) (append_tail-nil past n)
  | inr none ↦
      rw none (sym (drop_all (length past - n) past (omega (arith, ltb-false→le 0 kept none))))
]

-- The state before the limit is exceeded.
abbrev pub all_stored : Bytes → CaptureState
all_stored seen = record {
  file = seen;
  total_bytes = length seen;
  storage_truncated = false;
  tail = [];
}

module _ (l : Limits) (seen chunk : Bytes) (over : l.max_bytes < length seen + length chunk) where
  pub overflow-file :
      (overflow l chunk (all_stored seen)).file ≡ take (head_limit l) (seen ++ chunk)
  unfolding overflow
  overflow-file = elim (Bool-cases (ltb (length seen) (head_limit l))) [
    | inl inside ↦
        let short : length seen < head_limit l = ltb→lt _ _ inside in
        let p : min (head_limit l - length seen) (length chunk) ≡ head_limit l - length seen =
          omega arith in
        let some_prefix : ltb 0 (head_limit l - length seen) ≡ true = lt→ltb _ _ (omega arith) in
        let size : length (seen ++ take (head_limit l - length seen) chunk) ≡ head_limit l = omega (
          arith,
          length-append seen (take (head_limit l - length seen) chunk),
          length-take (head_limit l - length seen) chunk,
        ) in
        rw
          (
            inside,
            p,
            some_prefix,
            write_at_end (length seen) (take (head_limit l - length seen) chunk) seen refl,
            truncate_short (head_limit l) (seen ++ take (head_limit l - length seen) chunk)
                (omega (arith, size)),
            take-append (head_limit l) seen chunk,
            take-append (head_limit l) seen (take (head_limit l - length seen) chunk),
            take_all (head_limit l - length seen) (take (head_limit l - length seen) chunk)
                (omega (arith, length-take (head_limit l - length seen) chunk)),
          )
          refl
    | inr outside ↦
        let long : head_limit l ≤ length seen = ltb-false→le _ _ outside in
        let e : head_limit l - length seen ≡ 0 = omega arith in
        rw
          (
            outside,
            truncate_short (head_limit l) seen long,
            take-append (head_limit l) seen chunk,
            e,
            append-nil,
          )
          refl
  ]

  pub overflow-tail : (overflow l chunk (all_stored seen)).tail ≡ kept_tail l (seen ++ chunk)
  unfolding overflow read_at
  overflow-tail = elim (Bool-cases (ltb (length seen) (head_limit l))) [
    | inl inside ↦
        let short : length seen < head_limit l = ltb→lt _ _ inside in
        let p : min (head_limit l - length seen) (length chunk) ≡ head_limit l - length seen =
          omega arith in
        let none_kept : ltb 0 (length seen - head_limit l) ≡ false =
          le→ltb-false 0 (length seen - head_limit l) (omega arith) in
        rw
          (
            inside,
            p,
            none_kept,
            append_tail-nil,
            drop-append (head_limit l) seen chunk,
            drop_all (head_limit l) seen (omega arith),
          )
          refl
    | inr outside ↦
        let long : head_limit l ≤ length seen = ltb-false→le _ _ outside in
        let e : head_limit l - length seen ≡ 0 = omega arith in
        rw
          (
            outside,
            held_tail l.tail_bytes (length seen - head_limit l) (drop (head_limit l) seen)
                (length-drop (head_limit l) seen),
            drop-append (head_limit l) seen chunk,
            e,
          )
          (append_tail-last_bytes (drop (head_limit l) seen) chunk l.tail_bytes)
  ]
