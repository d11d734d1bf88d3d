-- ===== src/Tests/Listing.antt =====
-- `listJobs` on concrete Jobs.
use mira_bridge.Base.{◌≡◌, refl, none, some, [], ◌∷◌, arith, sort_by}
use mira_bridge.Base.Table
use mira_bridge.Protocol.Constants.{queued, running, exited}
use mira_bridge.State.Rows.{Database}
use mira_bridge.State.Jobs as Statements
use mira_bridge.JobService.Listing.Pages.{all_pages, all_pages_complete}
use mira_bridge.Tests.Samples.{job_named, with_jobs}

abbrev three_jobs : Database
three_jobs =
    with_jobs
      (job_named "a" none queued ∷ job_named "b" none exited ∷ job_named "c" none running ∷ [])

all_pages_complete_example :
    all_pages (λ job. 200) three_jobs (queued ∷ running ∷ []) 1 none 3 none
    ≡ some (Statements.list_jobs (queued ∷ running ∷ []) none three_jobs)
unfolding Table.find Statements.list_jobs sort_by
all_pages_complete_example =
    all_pages_complete (λ job. 200) three_jobs (queued ∷ running ∷ []) 1 none 3 (omega arith)
      (refl, (refl, (refl, tt))) (omega arith)
