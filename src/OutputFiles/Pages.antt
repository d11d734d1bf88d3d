-- ===== src/OutputFiles/Pages.antt =====
-- The pages of a stored output go on and stay within it, whatever the decoder says.
use mira_bridge.Base.{
  ℕ, zero, suc, ◌+◌, ◌-◌, ◌≤◌, min, Bool, true, false, List, [], ◌∷◌, eqb, leb, length, length-take,
  length-drop, drop, ◌≡◌, refl, sym, ◌∙◌, subst, arith, if◌then◌else◌, if_true, if_false,
  Bool-cases, inl, inr,
}
use mira_bridge.OutputFiles.{
  Bytes, Page, read_range, skipped_start, trim_attempts, trim_incomplete_end, trim_split_start,
  page_of, read_output_range,
}

skipped_start-le : (n : ℕ) (buffer : Bytes) → skipped_start n buffer ≤ length buffer
unfolding skipped_start
skipped_start-le zero buffer = omega arith
skipped_start-le (suc n) [] = omega arith
skipped_start-le (suc n) (byte ∷ buffer) = ground (arith, skipped_start-le n buffer)

unfoldable pub ends_at_eof : List Page → Bool
ends_at_eof [] = false
ends_at_eof (page ∷ []) = page.eof
ends_at_eof (page ∷ (q ∷ pages)) = ends_at_eof (q ∷ pages)

module _ (decodes : Bytes → Bool) where
  trim_attempts-le :
      (n removed : ℕ) (buffer : Bytes)
      → length (trim_attempts decodes n removed buffer) ≤ length buffer
  unfolding trim_attempts
  trim_attempts-le zero removed buffer = omega arith
  trim_attempts-le (suc n) removed buffer =
      ground (
        arith,
        trim_attempts-le n (suc removed) buffer,
        length-take (length buffer - removed) buffer,
      )

  trim_incomplete_end-le :
      (buffer : Bytes) → length (trim_incomplete_end decodes buffer) ≤ length buffer
  unfolding trim_incomplete_end
  trim_incomplete_end-le [] = omega arith
  trim_incomplete_end-le (byte ∷ buffer) =
      trim_attempts-le (suc (min 3 (length (byte ∷ buffer)))) 0 (byte ∷ buffer)

  -- A page goes on, and stays within what was read.
  record Within (size requested : ℕ) (raw : Bytes) (page : Page) : Type 0 where
    begins : page.requested_offset ≡ requested
    goes_on : 1 ≤ length raw → requested + 1 ≤ page.next_offset
    stays : page.next_offset ≤ requested + length raw
    short : length page.text ≤ length raw
    ends : page.eof ≡ leb size page.next_offset

  page_of-Within :
      (size requested : ℕ) (raw : Bytes) (skipped : ℕ) (bytes : Bytes)
      → skipped + length bytes ≤ length raw
      → Within size requested raw (page_of decodes size requested raw skipped bytes)
  page_of-Within size requested raw skipped [] h = record {
    begins = refl;
    goes_on = λ some. omega (arith, some);
    stays = omega arith;
    short = omega arith;
    ends = refl;
  }
  page_of-Within size requested raw skipped (byte ∷ bytes) h = record {
    begins = refl;
    goes_on = λ some. omega arith;
    stays = omega (arith, h);
    short = omega (arith, h);
    ends = refl;
  }

  page_from-Within :
      (content : Bytes) (requested : ℕ) (raw : Bytes)
      → Within (length content) requested raw (
          page_of decodes
            (length content)
            requested
            raw
            (skipped_start 3 raw)
            (trim_incomplete_end decodes (trim_split_start decodes raw)))
  page_from-Within content requested raw =
      page_of-Within (length content) requested raw (skipped_start 3 raw)
        (trim_incomplete_end decodes (trim_split_start decodes raw))
        (omega (
          arith,
          skipped_start-le 3 raw,
          trim_incomplete_end-le (trim_split_start decodes raw),
          length-drop (skipped_start 3 raw) raw,
        ))

  -- For every decoder and every file: the page at an offset within the file, with a positive limit, ends
  -- after its offset and within the file and the limit, its text is within the limit, and it says that it
  -- is the last exactly when it ends at the end of the file.
  pub read_output_range-goes_on :
      (content : Bytes) (offset max_bytes : ℕ)
      → 1 ≤ max_bytes
      → offset + 1 ≤ length content
      → (offset + 1 ≤ (read_output_range decodes content offset max_bytes).next_offset)
        × ((read_output_range decodes content offset max_bytes).next_offset
            ≤ min (length content) (offset + max_bytes))
        × (length (read_output_range decodes content offset max_bytes).text ≤ max_bytes)
        × ((read_output_range decodes content offset max_bytes).eof
            ≡ eqb (read_output_range decodes content offset max_bytes).next_offset (length content))
  unfolding read_output_range
  read_output_range-goes_on content offset max_bytes some inside =
      let start : ℕ = min offset (length content) in
      let raw : Bytes = read_range content start (min max_bytes (length content - start)) in
      let counted : length raw ≡ min max_bytes (length content - offset) =
        (length-take (min max_bytes (length content - start)) (drop start content)
          ∙ omega (arith, length-drop start content, inside)) in
      let page = page_from-Within content start raw in
      (
        omega (arith, page.goes_on (omega (arith, counted, some, inside)), inside),
        omega (arith, page.stays, counted, inside),
        omega (arith, page.short, counted),
        ground (arith, page.stays, counted, inside),
      )

  -- The pages that a client reads from an offset on, until one says that it is the last.
  unfoldable pub read_pages : ℕ → Bytes → ℕ → ℕ → List Page
  unfolding read_output_range
  read_pages zero content offset max_bytes = []
  read_pages (suc fuel) content offset max_bytes =
      let page = read_output_range decodes content offset max_bytes in
      let rest = read_pages fuel content page.next_offset max_bytes in
      page ∷ (if page.eof then [] else rest)

  ends_more :
      (page : Page) (rest : List Page) → ends_at_eof rest ≡ true → ends_at_eof (page ∷ rest) ≡ true
  unfolding ends_at_eof
  ends_more page [] h = cc h
  ends_more page (q ∷ rest) h = h

  ends_step :
      (page : Page) (rest : List Page)
      → (page.eof ≡ false → ends_at_eof rest ≡ true)
      → ends_at_eof (page ∷ (if page.eof then [] else rest)) ≡ true
  unfolding ends_at_eof
  ends_step page rest h = elim (Bool-cases page.eof) [
    | inl y ↦ subst (λ l. ends_at_eof (page ∷ l) ≡ true) (sym (if_true page.eof [] rest y)) y
    | inr n ↦
        subst (λ l. ends_at_eof (page ∷ l) ≡ true) (sym (if_false page.eof [] rest n))
          (ends_more page rest (h n))
  ]

  -- A page that is not the last ends before the end of the file.
  before_end :
      (next size bound : ℕ) (eof : Bool)
      → next ≤ min size bound
      → eof ≡ eqb next size
      → eof ≡ false
      → next + 1 ≤ size
  before_end next size bound eof within says more = ground (arith, within, says, more)

  -- Reading pages from an offset within the file, with a positive limit, comes to the last page; as many
  -- pages as bytes are left are enough.
  pub read_pages_end :
      (fuel : ℕ) (content : Bytes) (offset max_bytes : ℕ)
      → 1 ≤ max_bytes
      → offset + 1 ≤ length content
      → length content ≤ offset + fuel
      → ends_at_eof (read_pages fuel content offset max_bytes) ≡ true
  unfolding read_pages ends_at_eof
  read_pages_end zero content offset max_bytes some inside enough =
      absurd (omega (arith, inside, enough))
  read_pages_end (suc fuel) content offset max_bytes some inside enough =
      let page : Page = read_output_range decodes content offset max_bytes in
      let next = read_output_range-goes_on content offset max_bytes some inside in
      ends_step page (read_pages fuel content page.next_offset max_bytes) (λ more.
        read_pages_end fuel content page.next_offset max_bytes some
          (before_end page.next_offset (length content) (offset + max_bytes) page.eof next.1 next.3
            more)
          (omega (arith, next.0, enough)))
