-- ===== src/Storage/Collect/Whole.antt =====
-- The second phase of `pruneStorage` and the whole collection keep what the steps keep.
use mira_bridge.Base.{
  eqb, length, ◌||◌, ℕ, ◌-◌, ◌*◌, ◌/◌, String, none, List, [], ◌∷◌, ◌==◌, not, filter_by, ltb, leb,
  pure, continue, All, All-filter_by_of, Bool-cases, inl, inr,
}
use mira_bridge.State.Rows.{OutputRow, JobRow}
use mira_bridge.State.Outputs.{unpruned_outputs}
use mira_bridge.State.Jobs.{unpruned_terminal_job_logs}
use mira_bridge.Storage.{Disk, AuditFile, StorageConfig, StorageStatus}
use mira_bridge.Storage.Prune.{audit, quota, PruneAction, Collection, PruneOptions, Step}
use mira_bridge.Base.Loops.{Keeps, Keeps-bind}
use mira_bridge.Storage.Collect.{
  prune_expired, until_target, quota_audit, over_quota_outputs, over_quota_job_logs,
  over_quota_audits, prune_over_quota, prune_to_quota, status_now, status_after, collect, is_member,
  pruned_ids, is_output, is_job_logs, is_audit, reclaimed,
}
use mira_bridge.Storage.Collect.Kept.{
  Kept, any_rows, Keeps-drop_output, Keeps-drop_job_logs, Keeps-quietly, Keeps-unless,
  Keeps-drop_files, Keeps-prune_expired,
}

module _ (d : Disk) (config : StorageConfig) (o : PruneOptions) (I : Collection d → Type 0)
    (P : JobRow → Type 0) (k : Kept d config o I P) where
  Keeps-until_target :
      {A : Type 0} (Q : A → Type 0) (drop : A → Step d config o ℕ)
      → ((a : A) → Q a → Keeps I (drop a))
      → (rows : List A) (used : ℕ) → All Q rows
      → Keeps I (until_target d config o drop rows used)
  unfolding until_target
  Keeps-until_target Q drop kd [] used qs = λ s h. h
  Keeps-until_target Q drop kd (row ∷ rows) used qs =
      Keeps-unless d config o I P k (leb used (config.max_bytes * 9 / 10)) used _ (
        Keeps-bind I (drop row) (λ bytes. until_target d config o drop rows (used - bytes))
          (kd row qs.0) (λ bytes. Keeps-until_target Q drop kd rows (used - bytes) qs.1))

  Keeps-quota_audit :
      (pruned : List String) (file : AuditFile) → Keeps I (quota_audit d config o pruned file)
  unfolding quota_audit
  Keeps-quota_audit pruned file = Keeps-unless d config o I P k (is_member pruned file.name) 0 _ (
      Keeps-unless d config o I P k (file.name == d.audit_name o.now) 0 _
        (Keeps-drop_files d config o I P k audit quota _ _ _ k.by_nothing))

  Keeps-prune_over_quota :
      (first : List PruneAction) (used : ℕ) → Keeps I (prune_over_quota d config o first used)
  unfolding prune_over_quota over_quota_outputs over_quota_job_logs over_quota_audits
  Keeps-prune_over_quota first used =
      Keeps-bind I (over_quota_outputs d config o first used)
        (λ used s.
          continue
            (λ used s.
              continue (λ _. pure tt) (over_quota_audits d config o first used s).0
                (over_quota_audits d config o first used s).1)
            (over_quota_job_logs d config o first used s).0
            (over_quota_job_logs d config o first used s).1)
        (λ s h.
          Keeps-until_target (λ _. Unit) _
            (λ row _. Keeps-drop_output d config o I P k quota "quota" row)
            (filter_by
              (λ (r : OutputRow). not (is_member (pruned_ids is_output first) r.output_ref))
              (unpruned_outputs none s.db))
            used (any_rows _) s h)
        (λ used.
          Keeps-bind I (over_quota_job_logs d config o first used)
            (λ used s.
              continue (λ _. pure tt) (over_quota_audits d config o first used s).0
                (over_quota_audits d config o first used s).1)
            (λ s h.
              Keeps-until_target P _
                (λ job p. Keeps-drop_job_logs d config o I P k quota "quota" job p)
                (filter_by
                  (λ (j : JobRow). not (is_member (pruned_ids is_job_logs first) j.spec.job_id))
                  (unpruned_terminal_job_logs none s.db))
                used (All-filter_by_of P _ _ (k.logs_selected none s h)) s h)
            (λ used. Keeps-quietly d config o I P k (over_quota_audits d config o first used) (
              Keeps-bind I (λ s. (d.audit_files o.root s.files, s)) _ (λ s h. h)
                (λ files.
                  Keeps-until_target (λ _. Unit) _
                    (λ file _. Keeps-quota_audit (pruned_ids is_audit first) file) files used
                    (any_rows _)))))

  Keeps-prune_to_quota : (used : ℕ) → Keeps I (prune_to_quota d config o used)
  unfolding prune_to_quota
  Keeps-prune_to_quota used s h =
      elim (Bool-cases (ltb config.max_bytes (used - reclaimed s.actions))) [
        | inl e ↦ rw e (Keeps-prune_over_quota s.actions _ s h)
        | inr e ↦ rw e h
      ]

  Keeps-status_after : (before : StorageStatus) → Keeps I (status_after d config o before)
  Keeps-status_after before s h = elim (Bool-cases (o.dry_run || eqb (length s.actions) 0)) [
    | inl e ↦ rw e h
    | inr e ↦ rw e h
  ]

  pub Keeps-collect : Keeps I (collect d config o)
  unfolding collect
  Keeps-collect =
      Keeps-bind I (status_now d config o) _ (λ s h. h)
        (λ before.
          Keeps-bind I (prune_expired d config o) _ (Keeps-prune_expired d config o I P k) (λ _.
            Keeps-bind I (prune_to_quota d config o before.used_bytes) _
              (Keeps-prune_to_quota before.used_bytes)
              (λ _ s h.
                Keeps-bind I (status_after d config o before) _ (Keeps-status_after before)
                  (λ _ t g. g) _ (k.by_last_gc _ s h))))
