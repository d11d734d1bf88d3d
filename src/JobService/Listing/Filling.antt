-- ===== src/JobService/Listing/Filling.antt =====
-- The loop of `listJobs` that fills a page.
use mira_bridge.Base.{
  ℕ, zero, suc, ◌+◌, ◌≤◌, ◌<◌, ◌≡◌, refl, ap, Bool, true, false, List, [], ◌∷◌, length, take, arith,
}
use mira_bridge.State.Rows.{JobRow}
use mira_bridge.JobService.Listing.{fill_page}

module _ (json_bytes : JobRow → ℕ) where
  pub fill_page-prefix :
      (is_first : Bool) (bytes : ℕ) (jobs : List JobRow)
      → fill_page json_bytes is_first bytes jobs
        ≡ take (length (fill_page json_bytes is_first bytes jobs)) jobs
  unfolding fill_page
  fill_page-prefix is_first bytes [] = refl
  fill_page-prefix is_first bytes (job ∷ jobs) =
      ground (arith, fill_page-prefix false (bytes + (json_bytes job + 1)) jobs)

  pub fill_page-length :
      (is_first : Bool) (bytes : ℕ) (jobs : List JobRow)
      → length (fill_page json_bytes is_first bytes jobs) ≤ length jobs
  unfolding fill_page
  fill_page-length is_first bytes [] = omega arith
  fill_page-length is_first bytes (job ∷ jobs) =
      ground (arith, fill_page-length false (bytes + (json_bytes job + 1)) jobs)

  -- A page of a list that is not empty holds a Job.
  pub fill_page-empty :
      (bytes : ℕ) (jobs : List JobRow) → fill_page json_bytes true bytes jobs ≡ [] → jobs ≡ []
  unfolding fill_page
  fill_page-empty bytes [] h = refl
  fill_page-empty bytes (job ∷ jobs) h = cc

module _ {ℓ} {A : Type ℓ} where
  pub take-take : (n m : ℕ) (xs : List A) → n ≤ m → take n (take m xs) ≡ take n xs
  take-take zero m xs h = refl
  take-take (suc n) zero xs h = absurd (omega arith)
  take-take (suc n) (suc m) [] h = refl
  take-take (suc n) (suc m) (x ∷ xs) h = ap (λ t. x ∷ t) (take-take n m xs (omega arith))

  pub take-empty : (m : ℕ) (xs : List A) → 0 < m → take m xs ≡ [] → xs ≡ []
  take-empty zero xs h e = absurd (omega arith)
  take-empty (suc m) [] h e = refl
  take-empty (suc m) (x ∷ xs) h e = cc
