-- ===== src/JobService/Listing/Pages.antt =====
-- Following the cursors of `listJobs` lists every Job once.
use mira_bridge.Base.{
  ℕ, zero, suc, ◌+◌, ◌≤◌, ◌<◌, ◌≡◌, refl, ◌∙◌, ap, sym, subst, String, true, Option, none, some,
  List, [], ◌∷◌, ◌++◌, length, take, drop, ltb, Result, ok, err, arith, Bool-cases, inl, inr,
  length-take, length-drop, take-append-drop, drop-drop, ltb→lt, ltb-false→le, take_all,
}
use mira_bridge.Base.Table
use mira_bridge.Base.Keys.{UniqueKeys-filter_by, UniqueKeys-sort_by}
use mira_bridge.Protocol.Constants.{JobStatus}
use mira_bridge.Protocol.Errors.{BridgeError}
use mira_bridge.State.Rows.{JobRow, Database}
use mira_bridge.State.Jobs.{job_key, newest_first}
use mira_bridge.State.Jobs as Statements
use mira_bridge.JobService.Listing.{
  JobCursor, CursorText, after, encode_job_cursor, decode_job_cursor, normalized_statuses,
  page_offset, find_index, last_job, fill_page, page_at, next_cursor, list_jobs, Page,
  continue_from, page_of,
}
use mira_bridge.JobService.Listing.Cursors.{
  same_texts_refl, same_text_refl, find_index-last_job, decode_job_cursor-encode_job_cursor,
}
use mira_bridge.JobService.Listing.Filling.{
  fill_page-prefix, fill_page-length, fill_page-empty, take-take, take-empty,
}

-- All pages, from a cursor on, until there is no next cursor: `none` when the fuel runs out or a
-- call is refused.
unfoldable pub all_pages :
    (JobRow → ℕ)
    → Database
    → List JobStatus
    → ℕ
    → Option String
    → ℕ
    → Option CursorText
    → Option (List JobRow)
all_pages json_bytes db statuses max_results node_id zero cursor = none
all_pages json_bytes db statuses max_results node_id (suc fuel) cursor =
    elim (list_jobs json_bytes db statuses cursor max_results node_id) [
      | err e ↦ none
      | ok page ↦ elim page.cursor [
        | none ↦ some page.jobs
        | some next ↦ elim (all_pages json_bytes db statuses max_results node_id fuel (some next)) [
          | none ↦ none
          | some rest ↦ some (page.jobs ++ rest)
        ]
      ]
    ]

module _ (json_bytes : JobRow → ℕ) (db : Database) (statuses : List JobStatus) (max_results : ℕ)
    (node_id : Option String) (positive : 0 < max_results)
    (unique : Table.UniqueKeys job_key db.jobs) where
  abbrev all : List JobRow
  all = Statements.list_jobs statuses node_id db

  unique-all : Table.UniqueKeys job_key all
  unfolding Statements.list_jobs
  unique-all =
      UniqueKeys-sort_by job_key newest_first _ (UniqueKeys-filter_by job_key _ db.jobs unique)

  -- The page that follows the Jobs `job ∷ rest` listed from `start` on.
  next_page :
      (start : ℕ) (job : JobRow) (rest post : List JobRow)
      → all ≡ take start all ++ (job ∷ rest ++ post)
      → length (take start all) ≡ start
      → list_jobs json_bytes db statuses
          (some (encode_job_cursor (last_job job rest) statuses node_id))
          max_results
          node_id
        ≡ ok (page_at json_bytes all (start + suc (length rest)) max_results statuses node_id)
  unfolding list_jobs page_offset
  next_page start job rest post split size =
      let cursor : JobCursor = record {
        after_job_id = (last_job job rest).spec.job_id;
        node_id = node_id;
        statuses = normalized_statuses statuses;
      } in
      let index : find_index (last_job job rest).spec.job_id all ≡ some (start + length rest) =
        subst
          (λ (l : List JobRow).
            find_index (last_job job rest).spec.job_id l ≡ some (start + length rest))
          (sym split)
          (find_index-last_job (take start all) job rest post
              (subst (Table.UniqueKeys job_key) split unique-all)
            ∙ ap (λ (k : ℕ). some (k + length rest)) size) in
      let offset : page_offset (after cursor) statuses node_id all ≡ ok (start + length rest + 1) =
        rw (same_text_refl node_id, same_texts_refl (normalized_statuses statuses), index) refl in
      let place : start + length rest + 1 ≡ start + suc (length rest) = omega arith in
      ap (continue_from json_bytes all max_results statuses node_id)
        (decode_job_cursor-encode_job_cursor (last_job job rest) statuses node_id)
      ∙ ap (page_of json_bytes all max_results statuses node_id) (offset ∙ ap ok place)

  -- What is listed from a page on.
  follow : ℕ → Page → Option (List JobRow)
  follow fuel page = elim page.cursor [
    | none ↦ some page.jobs
    | some next ↦ elim (all_pages json_bytes db statuses max_results node_id fuel (some next)) [
      | none ↦ none
      | some rest ↦ some (page.jobs ++ rest)
    ]
  ]

  -- What is listed after an answer.
  follow_answer : ℕ → Result BridgeError Page → Option (List JobRow)
  unfolding follow
  follow_answer fuel r = elim r [ err e ↦ none | ok page ↦ follow fuel page ]

  follow-page :
      (fuel : ℕ) (cursor : Option CursorText) (page : Page)
      → list_jobs json_bytes db statuses cursor max_results node_id ≡ ok page
      → all_pages json_bytes db statuses max_results node_id (suc fuel) cursor ≡ follow fuel page
  unfolding all_pages follow list_jobs follow_answer
  follow-page fuel cursor page e = ap (follow_answer fuel) e

  -- The Jobs on the page, as a part of the whole list.
  page_jobs :
      (start : ℕ) (jobs : List JobRow)
      → fill_page json_bytes true 2 (take max_results (drop start all)) ≡ jobs
      → (jobs ≡ take (length jobs) (drop start all))
        × (length jobs ≤ length (take max_results (drop start all)))
  page_jobs start jobs e =
      let size : length jobs ≤ length (take max_results (drop start all)) =
        rw (← e) (fill_page-length json_bytes true 2 (take max_results (drop start all))) in
      let prefix : jobs ≡ take (length jobs) (take max_results (drop start all)) =
        subst (λ (l : List JobRow). l ≡ take (length l) (take max_results (drop start all))) e
          (fill_page-prefix json_bytes true 2 (take max_results (drop start all))) in
      (
        prefix
            ∙ take-take (length jobs) max_results (drop start all)
                (omega (arith, size, length-take max_results (drop start all))),
        size,
      )

  next_cursor-end :
      (start : ℕ) (job : JobRow) (jobs : List JobRow) (total : ℕ)
      → total ≤ start + length (job ∷ jobs)
      → next_cursor json_bytes start (job ∷ jobs) total statuses node_id ≡ none
  unfolding next_cursor
  next_cursor-end start job jobs total h = ground arith

  next_cursor-more :
      (start : ℕ) (job : JobRow) (jobs : List JobRow) (total : ℕ)
      → start + length (job ∷ jobs) < total
      → next_cursor json_bytes start (job ∷ jobs) total statuses node_id
        ≡ some (encode_job_cursor (last_job job jobs) statuses node_id)
  unfolding next_cursor
  next_cursor-more start job jobs total h = ground arith

  page_from : ℕ → List JobRow → Page
  page_from start jobs = record {
    jobs = jobs;
    total_jobs = length all;
    cursor = next_cursor json_bytes start jobs (length all) statuses node_id;
  }

  filled : ℕ → List JobRow
  filled start = fill_page json_bytes true 2 (take max_results (drop start all))

  follow-end :
      (fuel start : ℕ) (jobs : List JobRow)
      → filled start ≡ jobs
      → length all ≤ start + length jobs
      → follow fuel (page_from start jobs) ≡ some (drop start all)
  unfolding follow page_from filled next_cursor
  follow-end fuel start [] e h = ap some (
      sym (
        take-empty max_results (drop start all) positive
          (fill_page-empty json_bytes 2 (take max_results (drop start all)) e)))
  follow-end fuel start (job ∷ jobs) e h =
      let rest : take (suc (length jobs)) (drop start all) ≡ drop start all =
        take_all (suc (length jobs)) (drop start all) (omega (arith, length-drop start all)) in
      let whole : job ∷ jobs ≡ drop start all = (page_jobs start (job ∷ jobs) e).0 ∙ rest in
      ap (λ c. follow fuel (record { jobs = job ∷ jobs; total_jobs = length all; cursor = c }))
        (next_cursor-end start job jobs (length all) h)
      ∙ ap some whole

  follow-next :
      (fuel start : ℕ) (job : JobRow) (jobs : List JobRow)
      → filled start ≡ job ∷ jobs
      → start + suc (length jobs) < length all
      → follow fuel (page_from (start + suc (length jobs)) (filled (start + suc (length jobs))))
        ≡ some (drop (start + suc (length jobs)) all)
      → follow (suc fuel) (page_from start (job ∷ jobs)) ≡ some (drop start all)
  unfolding follow page_from filled next_cursor page_at
  follow-next fuel start job jobs e h ih =
      let n : ℕ = suc (length jobs) in
      let front : length (take start all) ≡ start = omega (arith, length-take start all) in
      let rest : drop start all ≡ job ∷ jobs ++ drop n (drop start all) =
        sym (take-append-drop n (drop start all))
        ∙ ap (λ t. t ++ drop n (drop start all)) (sym (page_jobs start (job ∷ jobs) e).0) in
      let split : all ≡ take start all ++ (job ∷ jobs ++ drop n (drop start all)) =
        sym (take-append-drop start all) ∙ ap (λ t. take start all ++ t) rest in
      let next : CursorText = encode_job_cursor (last_job job jobs) statuses node_id in
      let later : all_pages json_bytes db statuses max_results node_id (suc fuel) (some next)
          ≡ some (drop (start + n) all) =
        follow-page fuel (some next) (page_from (start + n) (filled (start + n)))
          (next_page start job jobs (drop n (drop start all)) split front)
        ∙ ih in
      ap
        (λ c. follow (suc fuel) (record { jobs = job ∷ jobs; total_jobs = length all; cursor = c }))
        (next_cursor-more start job jobs (length all) h)
      ∙ ap (λ r. elim r [ none ↦ none | some t ↦ some (job ∷ jobs ++ t) ]) later
      ∙ ap some (ap (λ t. job ∷ jobs ++ t) (sym (drop-drop n start all)) ∙ sym rest)

  -- One page, when what follows it is known.
  follow-step :
      (fuel start : ℕ) (jobs : List JobRow)
      → filled start ≡ jobs
      → length all ≤ suc fuel + start
      → ((next : ℕ)
          → next < length all
          → length all ≤ fuel + next
          → follow fuel (page_from next (filled next)) ≡ some (drop next all))
      → follow (suc fuel) (page_from start jobs) ≡ some (drop start all)
  unfolding fill_page filled
  follow-step fuel start [] e h later =
      let none_left : drop start all ≡ [] =
        take-empty max_results (drop start all) positive (fill_page-empty json_bytes 2 _ e) in
      follow-end (suc fuel) start [] e (omega (arith, length-drop start all, ap length none_left))
  follow-step fuel start (job ∷ jobs) e h later =
      elim (Bool-cases (ltb (start + suc (length jobs)) (length all))) [
        | inl y ↦
            follow-next fuel start job jobs e (ltb→lt _ _ y)
              (later (start + suc (length jobs)) (ltb→lt _ _ y) (omega arith))
        | inr n ↦ follow-end (suc fuel) start (job ∷ jobs) e (ltb-false→le _ _ n)
      ]

  follow-page_from :
      (fuel start : ℕ)
      → start ≤ length all
      → length all ≤ fuel + start
      → follow fuel (page_from start (filled start)) ≡ some (drop start all)
  follow-page_from zero start inside enough =
      follow-end zero start (filled start) refl (omega arith)
  follow-page_from (suc fuel) start inside enough =
      follow-step fuel start (filled start) refl enough
        (λ next below more. follow-page_from fuel next (omega arith) more)

-- Asking for pages, each with the cursor of the page before it, ends and yields every Job the
-- statuses and the node select, once and in the order listed: after at most one call more than
-- there are such Jobs, when a page may hold a Job and no two Jobs share an id.
pub all_pages_complete :
    (json_bytes : JobRow → ℕ) (db : Database) (statuses : List JobStatus) (max_results : ℕ)
    (node_id : Option String) (fuel : ℕ)
    → 0 < max_results
    → Table.UniqueKeys job_key db.jobs
    → length (Statements.list_jobs statuses node_id db) < fuel
    → all_pages json_bytes db statuses max_results node_id fuel none
      ≡ some (Statements.list_jobs statuses node_id db)
unfolding list_jobs page_at page_offset page_from filled decode_job_cursor
all_pages_complete json_bytes db statuses max_results node_id zero positive unique enough =
    absurd (omega arith)
all_pages_complete json_bytes db statuses max_results node_id (suc fuel) positive unique enough =
    follow-page json_bytes db statuses max_results node_id positive unique fuel none
      (page_at json_bytes (Statements.list_jobs statuses node_id db) 0 max_results statuses node_id)
      refl
    ∙ follow-page_from json_bytes db statuses max_results node_id positive unique fuel 0
        (omega arith) (omega arith)
