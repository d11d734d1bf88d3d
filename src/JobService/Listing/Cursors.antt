-- ===== src/JobService/Listing/Cursors.antt =====
-- The cursors of `listJobs`: what a cursor decodes to, and where its Job stands.
use mira_bridge.Base.{
  suc, ◌+◌, ◌≡◌, refl, ◌∙◌, ap, sym, subst, String, true, Option, none, some, List, [], ◌∷◌, ◌++◌,
  length, ok, arith, eq_iff, same_text, length-append,
}
use mathlib.Core.List.{append_assoc}
use mira_bridge.Base.Table
use mira_bridge.Base.Keys.{absent_before}
use mira_bridge.Base.Json.{lookup_field}
use mira_bridge.Protocol.Constants.{JobStatus}
use mira_bridge.State.Rows.{JobRow}
use mira_bridge.State.Jobs.{job_key}
use mira_bridge.JobService.Listing.{
  after, encode_job_cursor, decode_job_cursor, string_items, to_items, nullable_text, text_or_null,
  normalized_statuses, same_texts, find_index, last_job, check_cursor,
}

string_items-to_items : (ts : List String) → string_items (to_items ts) ≡ some ts
unfolding string_items to_items
string_items-to_items [] = refl
string_items-to_items (t ∷ ts) = rw (string_items-to_items ts)

nullable_text-text_or_null : (o : Option String) → nullable_text (some (text_or_null o)) ≡ some o
unfolding nullable_text text_or_null
nullable_text-text_or_null none = refl
nullable_text-text_or_null (some t) = refl

-- A cursor, as the value of its JSON text, decodes to the Job, the node and the statuses it was made from.
pub decode_job_cursor-encode_job_cursor :
    (job : JobRow) (statuses : List JobStatus) (node_id : Option String)
    → decode_job_cursor (some (encode_job_cursor job statuses node_id))
      ≡ ok (
          after (record {
            after_job_id = job.spec.job_id;
            node_id = node_id;
            statuses = normalized_statuses statuses;
          }))
unfolding decode_job_cursor encode_job_cursor lookup_field
decode_job_cursor-encode_job_cursor job statuses node_id = λ i.
    check_cursor true (some job.spec.job_id) (nullable_text-text_or_null node_id i)
      (string_items-to_items (normalized_statuses statuses) i)

pub same_texts_refl : (ts : List String) → same_texts ts ts ≡ true
unfolding same_texts
same_texts_refl [] = refl
same_texts_refl (t ∷ ts) = ground (arith, eq_iff t t, same_texts_refl ts)

pub same_text_refl : (o : Option String) → same_text o o ≡ true
same_text_refl none = refl
same_text_refl (some t) = ground (arith, eq_iff t t)

find_index-middle :
    (pre : List JobRow) (job : JobRow) (post : List JobRow)
    → Table.find job_key job.spec.job_id pre ≡ none
    → find_index job.spec.job_id (pre ++ job ∷ post) ≡ some (length pre)
unfolding find_index Table.find
find_index-middle [] job post a = ground (arith, eq_iff job.spec.job_id job.spec.job_id)
find_index-middle (q ∷ pre) job post a = ground (arith, find_index-middle pre job post)

-- All but the last Job of a page.
init : JobRow → List JobRow → List JobRow
init job [] = []
init job (next ∷ rest) = job ∷ init next rest

init-last_job :
    (job : JobRow) (rest : List JobRow)
    → (job ∷ rest ≡ init job rest ++ last_job job rest ∷ [])
      × (length (init job rest) ≡ length rest)
unfolding init last_job
init-last_job job [] = (refl, refl)
init-last_job job (next ∷ rest) =
    (ap (λ t. job ∷ t) (init-last_job next rest).0, ap suc (init-last_job next rest).1)

-- The Job at the end of a page stands where the next page's offset says.
pub find_index-last_job :
    (pre : List JobRow) (job : JobRow) (rest post : List JobRow)
    → Table.UniqueKeys job_key (pre ++ (job ∷ rest ++ post))
    → find_index (last_job job rest).spec.job_id (pre ++ (job ∷ rest ++ post))
      ≡ some (length pre + length rest)
find_index-last_job pre job rest post u =
    let last : JobRow = last_job job rest in
    let front : List JobRow = pre ++ init job rest in
    let split : pre ++ (job ∷ rest ++ post) ≡ front ++ last ∷ post =
      ap (λ t. pre ++ (t ++ post)) (init-last_job job rest).0
      ∙ ap (λ t. pre ++ t) (append_assoc (init job rest) (last ∷ []) post)
      ∙ sym (append_assoc pre (init job rest) (last ∷ post)) in
    let place : length front ≡ length pre + length rest =
      omega (arith, length-append pre (init job rest), (init-last_job job rest).1) in
    rw (split, ← place)
      (find_index-middle front last post
        (absent_before job_key front last post (subst (Table.UniqueKeys job_key) split u)))
