-- ===== src/JobService/Listing.antt =====
-- `listJobs` of packages/windows-worker/src/jobs.ts and its cursors. A cursor is the base64url text
-- of a number or of a JSON value: it is modelled by what the text decodes to. The size of a Job's
-- JSON text is a parameter.
pub mod Cursors
pub mod Filling
pub mod Pages
use mira_bridge.Base.{
  ℕ, zero, suc, ◌+◌, ◌*◌, ◌-◌, String, Bool, true, false, Option, none, some, List, [], ◌∷◌, ◌==◌,
  ◌&&◌, not, map, any, length, take, drop, sort_by, ltb, leb, if◌then◌else◌, Result, ok, err,
  same_text,
}
use mira_bridge.Base.Json.{
  Json, Items, null, num, str, arr, obj, nil, cons, field, end, property, as_text,
}
use mira_bridge.Protocol.Constants.{
  JobStatus, queued, starting, running, exited, failed_to_start, cancelled, timed_out, lost,
}
use mira_bridge.Protocol.Errors.{BridgeError, bridge_error, invalid_argument, resource_changed}
use mira_bridge.State.Rows.{JobRow, Database}
use mira_bridge.State.Jobs.{job_key}
use mira_bridge.State.Jobs as Statements
use Prim.Native.String.{compare}
use text.Mathlib.Text.{is_le}

pub record JobCursor : Type 0 where
  pub after_job_id : String
  pub node_id : Option String
  pub statuses : List String

abbrev pub status_text : JobStatus → String
status_text queued = "queued"
status_text starting = "starting"
status_text running = "running"
status_text exited = "exited"
status_text failed_to_start = "failed_to_start"
status_text cancelled = "cancelled"
status_text timed_out = "timed_out"
status_text lost = "lost"

-- `[...new Set(texts)]`: the first of equal texts stays.
distinct : List String → List String → List String
distinct seen [] = []
distinct seen (t ∷ ts) =
    let rest = distinct (t ∷ seen) ts in if any (λ s. s == t) seen then rest else t ∷ rest

unfoldable pub normalized_statuses : List JobStatus → List String
unfolding distinct
normalized_statuses statuses =
    sort_by (λ a b. is_le (compare a b)) (distinct [] (map status_text statuses))

-- A cursor by what its base64url text decodes to: a text of which `Number` makes a natural number, a text that
-- `JSON.parse` reads as a value, or any other. The texts themselves are left out.
pub data CursorText : Type 0 where
  safe_integer : ℕ → CursorText
  json : Json → CursorText
  garbage : CursorText

-- What `decodeJobCursor` returns.
pub data Cursor : Type 0 where
  first_page : Cursor
  offset : ℕ → Cursor
  after : JobCursor → Cursor

pub string_items : Items → Option (List String)
string_items nil = some []
string_items (cons (str s) rest) = elim (string_items rest) [
  | none ↦ none
  | some ts ↦ some (s ∷ ts)
]
string_items (cons _ rest) = none

string_array : Option Json → Option (List String)
unfolding string_items
string_array (some (arr items)) = string_items items
string_array none = none
string_array _ = none

nullable_text : Option Json → Option (Option String)
nullable_text (some null) = some none
nullable_text (some (str s)) = some (some s)
nullable_text none = none
nullable_text _ = none

is_one : Option Json → Bool
is_one (some (num (suc zero))) = true
is_one none = false
is_one _ = false

abbrev invalid_cursor {ℓ} : {A : Type ℓ} → Result BridgeError A
invalid_cursor = err (bridge_error invalid_argument none)

check_cursor :
    Bool → Option String → Option (Option String) → Option (List String) → Result BridgeError Cursor
check_cursor true (some id) (some node_id) (some statuses) =
    ok (after (record { after_job_id = id; node_id = node_id; statuses = statuses }))
check_cursor _ _ _ _ = invalid_cursor

unfoldable pub decode_job_cursor : Option CursorText → Result BridgeError Cursor
unfolding check_cursor is_one nullable_text string_array property
decode_job_cursor none = ok first_page
decode_job_cursor (some (safe_integer n)) = ok (offset n)
decode_job_cursor (some garbage) = invalid_cursor
decode_job_cursor (some (json j)) =
    check_cursor (is_one (property "version" j)) (as_text (property "after_job_id" j))
      (nullable_text (property "node_id" j)) (string_array (property "statuses" j))

pub to_items : List String → Items
to_items [] = nil
to_items (s ∷ ss) = cons (str s) (to_items ss)

text_or_null : Option String → Json
text_or_null none = null
text_or_null (some s) = str s

unfoldable pub encode_job_cursor : JobRow → List JobStatus → Option String → CursorText
unfolding to_items text_or_null normalized_statuses
encode_job_cursor job statuses node_id = json (
    obj (
      field "version" (num 1) (
        field "after_job_id" (str job.spec.job_id) (
          field "node_id" (text_or_null node_id)
            (field "statuses" (arr (to_items (normalized_statuses statuses))) end)))))

-- JSON.stringify(a) === JSON.stringify(b) on arrays of texts.
pub same_texts : List String → List String → Bool
same_texts [] [] = true
same_texts (a ∷ as') (b ∷ bs) = (a == b) && same_texts as' bs
same_texts _ _ = false

unfoldable pub find_index : String → List JobRow → Option ℕ
find_index id [] = none
find_index id (job ∷ jobs) =
    let rest = find_index id jobs in
    if job.spec.job_id == id then some 0 else elim rest [ none ↦ none | some i ↦ some (suc i) ]

-- Where the page begins.
unfoldable pub page_offset :
    Cursor → List JobStatus → Option String → List JobRow → Result BridgeError ℕ
unfolding same_texts
page_offset first_page statuses node_id all = ok 0
page_offset (offset n) statuses node_id all = ok n
page_offset (after cursor) statuses node_id all =
    if not (
      same_text cursor.node_id node_id && same_texts cursor.statuses (normalized_statuses statuses))
    then err (bridge_error invalid_argument none)
    else elim (find_index cursor.after_job_id all) [
      | none ↦ err (bridge_error resource_changed (some true))
      | some i ↦ ok (i + 1)
    ]

pub record Page : Type 0 where
  pub jobs : List JobRow
  pub total_jobs : ℕ
  pub cursor : Option CursorText

-- `page.at(-1)`
unfoldable pub last_job : JobRow → List JobRow → JobRow
last_job job [] = job
last_job job (next ∷ rest) = last_job next rest

module _ (json_bytes : JobRow → ℕ) where
  -- The loop that fills the page: the first Job always, then Jobs while they fit 256 KiB.
  unfoldable pub fill_page : Bool → ℕ → List JobRow → List JobRow
  fill_page is_first page_bytes [] = []
  fill_page is_first page_bytes (job ∷ jobs) =
      let rest = fill_page false (page_bytes + (json_bytes job + 1)) jobs in
      if not is_first && ltb (256 * 1024) (page_bytes + (json_bytes job + 1))
      then []
      else job ∷ rest

  next_cursor : ℕ → List JobRow → ℕ → List JobStatus → Option String → Option CursorText
  next_cursor start [] total statuses node_id = none
  next_cursor start (job ∷ jobs) total statuses node_id =
      if ltb (start + length (job ∷ jobs)) total
      then some (encode_job_cursor (last_job job jobs) statuses node_id)
      else none

  unfoldable pub page_at : List JobRow → ℕ → ℕ → List JobStatus → Option String → Page
  unfolding fill_page next_cursor
  page_at all start max_results statuses node_id =
      let jobs = fill_page true 2 (take max_results (drop start all)) in
      record {
        jobs = jobs;
        total_jobs = length all;
        cursor = next_cursor start jobs (length all) statuses node_id;
      }

  page_of :
      List JobRow
      → ℕ
      → List JobStatus
      → Option String
      → Result BridgeError ℕ
      → Result BridgeError Page
  page_of all max_results statuses node_id (err e) = err e
  page_of all max_results statuses node_id (ok start) =
      ok (page_at all start max_results statuses node_id)

  continue_from :
      List JobRow
      → ℕ
      → List JobStatus
      → Option String
      → Result BridgeError Cursor
      → Result BridgeError Page
  unfolding page_of
  continue_from all max_results statuses node_id (err e) = err e
  continue_from all max_results statuses node_id (ok c) =
      page_of all max_results statuses node_id (page_offset c statuses node_id all)

  -- `listJobs`; a Job is shown by its row, `publicJob` drops columns.
  unfoldable pub list_jobs :
      Database → List JobStatus → Option CursorText → ℕ → Option String → Result BridgeError Page
  unfolding continue_from
  list_jobs db statuses cursor max_results node_id =
      continue_from (Statements.list_jobs statuses node_id db) max_results statuses node_id
        (decode_job_cursor cursor)
