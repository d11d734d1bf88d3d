-- ===== src/Storage/Collect/Stored.antt =====
-- Properties of the database that the writes of `pruneStorage` keep, whatever happens to the files.
use mira_bridge.Base.{
  ℕ, String, Result, ok, err, Bool-cases, inl, inr, sym, if_true, if_false, subst,
}
use mira_bridge.Protocol.Errors.{BridgeError}
use mira_bridge.State.Rows.{Database}
use mira_bridge.Storage.{Disk, StorageConfig}
use mira_bridge.Storage.Prune.{
  Collection, PruneOptions, remove_path, remove_sized, write, after_removal,
}
use mira_bridge.Base.Loops.{Keeps, Keeps-bind}

module _ (d : Disk) (config : StorageConfig) (o : PruneOptions) (J : Database → Type 0) where
  unfoldable pub Stored : Collection d → Type 0
  Stored s = J s.db

  pub Keeps-write :
      (f : Database → Database)
      → ((db : Database) → J db → J (f db))
      → Keeps Stored (write d config o f)
  unfolding write Stored
  Keeps-write f k s h = elim (Bool-cases o.dry_run) [
    | inl e ↦ subst Stored (sym (if_true o.dry_run s (record s { db = f s.db }) e)) h
    | inr e ↦ subst Stored (sym (if_false o.dry_run s (record s { db = f s.db }) e)) (k s.db h)
  ]

  Keeps-remove_sized :
      (path : String) (bytes : ℕ) → Keeps Stored (remove_sized d config o path bytes)
  unfolding remove_sized Stored
  Keeps-remove_sized path bytes s h = elim (Bool-cases o.dry_run) [
    | inl e ↦
        subst (λ (r : Result BridgeError ℕ × Collection d). J r.1.db)
          (sym (if_true o.dry_run _ _ e)) h
    | inr e ↦
        subst (λ (r : Result BridgeError ℕ × Collection d). J r.1.db)
          (sym (if_false o.dry_run _ _ e)) (removed (d.remove path s.files))
  ]
    where
      removed : (r : Result BridgeError d.Files) → J (after_removal d config o bytes s r).1.db
      removed (err e) = h
      removed (ok files) = h

  pub Keeps-remove : (path : String) → Keeps Stored (remove_path d config o path)
  unfolding remove_path
  Keeps-remove path =
      Keeps-bind Stored (λ s. (d.path_size path s.files, s)) (remove_sized d config o path)
        (λ s h. h) (Keeps-remove_sized path)
