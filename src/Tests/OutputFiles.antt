-- ===== src/Tests/OutputFiles.antt =====
-- The pages of a file of five bytes, with a decoder that accepts everything.
use mira_bridge.Base.{◌≤◌, true, [], ◌∷◌, length, eqb, ◌≡◌, refl, arith}
use mira_bridge.OutputFiles.{Bytes, Page, read_output_range}
use mira_bridge.OutputFiles.Pages.{
  read_output_range-goes_on, read_pages, ends_at_eof, read_pages_end,
}

abbrev content : Bytes
content = 65 ∷ 66 ∷ 67 ∷ 68 ∷ 69 ∷ []

abbrev page : Page
page = read_output_range (λ b. true) content 1 2

read_output_range-goes_on_example :
    (2 ≤ page.next_offset)
    × (page.next_offset ≤ 3)
    × (length page.text ≤ 2)
    × (page.eof ≡ eqb page.next_offset 5)
read_output_range-goes_on_example =
    read_output_range-goes_on (λ b. true) content 1 2 (omega arith) (omega arith)

read_pages_end_example : ends_at_eof (read_pages (λ b. true) 5 content 0 2) ≡ true
read_pages_end_example =
    read_pages_end (λ b. true) 5 content 0 2 (omega arith) (omega arith) (omega arith)

-- Of the bytes of a two-byte character, read one at a time with a decoder that accepts neither, no page
-- has any, though each page goes on.
lost_first : (read_output_range (λ b. eqb (length b) 0) (195 ∷ 169 ∷ []) 0 1).text ≡ []
unfolding read_output_range
lost_first = refl

lost_second : (read_output_range (λ b. eqb (length b) 0) (195 ∷ 169 ∷ []) 1 1).text ≡ []
unfolding read_output_range
lost_second = refl
