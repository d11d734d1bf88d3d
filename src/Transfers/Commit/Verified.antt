-- ===== src/Transfers/Commit/Verified.antt =====
-- What a commit of a file installs has the declared hash.
use mira_bridge.Base.{
  String, Bool, true, false, Option, none, some, List, ◌==◌, ◌&&◌, not, eqb, is_some, if◌then◌else◌,
  if_true, Result, ok, pure, throw, continue, ◌>>◌, ◌≡◌, refl, sym, ap, ◌∙◌, ◌⊎◌, inl, inr, subst,
  arith, eq_iff,
}
use mira_bridge.Base.Table
use mira_bridge.Protocol.Errors.{Thrown, bridge, bridge_error, resource_changed}
use mira_bridge.State.Rows.{TransferRow, push, file, directory}
use mira_bridge.State.Reservations.{release_storage_reservation}
use mira_bridge.State.Transfers.{
  remove_transfer, transfer_key, get_transfer, claim_transfer_owner, claimable, owned_by,
}
use mira_bridge.Transfers.{
  Bytes, Node, plain, Entry, World, Action, Failure, raised, failed, exists, node_at, on_db, later,
}
use mira_bridge.Transfers.Recovery.{is_installed}
use mira_bridge.Transfers.Chunks.{require_transfer, required, same_direction}
use mira_bridge.Transfers.Install.{Install, install_path}
use mira_bridge.Transfers.Ends.{
  on_db-keeps, Ends, Ends-map, if-Ends, then-Ends, throw-Ends, pure-Ends, perform-Ends,
  continue-Ends,
}
use mira_bridge.Transfers.Install.Steps.{At-later, Apart}
use mira_bridge.Transfers.Install.Kept.{
  Kept, unmoved, away, doubtful, created, placed, Pending, Installed,
}
use mira_bridge.Transfers.Install.Crash.{Staged, install_path-Ends}
use mira_bridge.Transfers.Commit.{
  Committer, finally_do, install_of, verify, sync_file, forget_unless, commit_file, at_resolved,
  commit_owned, disown, claim_of, commit_push,
}
use mira_bridge.Transfers.Commit.Finally.{chosen, finally-Ends}

module _ (sha256 : Bytes → String) (resolve : String → Result Thrown String)
    (commit_directory : TransferRow → String → Action Bool) (c : Committer) (t : TransferRow)
    (p d : String) (old : Option Node) (content : Bytes) where
  abbrev pub the_install : Install
  the_install = install_of sha256 resolve commit_directory c t p d

  abbrev pub Verified : List Entry → Type 0
  Verified files = (node_at d files ≡ some (plain content)) × (sha256 content ≡ t.sha256)

  abbrev pub Intact : List Entry → Type 0
  Intact files =
      (node_at d files ≡ old)
      ⊎ ((node_at d files ≡ none) × (node_at c.backup files ≡ old) ⊎ Verified files)

  abbrev Held : World → Type 0
  Held = Staged the_install old (plain content)

  Kept-Intact :
      sha256 content ≡ t.sha256
      → (w : World) → Kept the_install old (plain content) w
      → Intact w.files
  Kept-Intact same w (unmoved s q x h) = inl h.at_destination
  Kept-Intact same w (away n s e h) = inr (inl (h.at_destination, h.at_backup ∙ sym e))
  Kept-Intact same w (doubtful n s e h) = inr (inr (h.at_destination, same))
  Kept-Intact same w (created s h) = inr (inr (h.at_destination, same))
  Kept-Intact same w (placed b s q x h) = inr (inr (h.at_destination, same))

  Verified-Intact : (w : World) → Verified w.files → Intact w.files
  Verified-Intact w h = inr (inr h)

  abbrev Commits : Result Failure Bool × World → Type 0
  Commits = Ends (λ _ v. Verified v.files) (λ v. Intact v.files)

  forget-Ends :
      (pending : Bool) (w : World)
      → Verified w.files
      → Commits ((forget_unless sha256 resolve commit_directory c t pending >> pure pending) w)
  forget-Ends true w h = pure-Ends (λ _ v. Verified v.files) (λ v. Intact v.files) true w h
  forget-Ends false w h =
      then-Ends (λ v. Verified v.files) (λ v. Verified v.files) (λ _ v. Verified v.files)
        (λ v. Intact v.files)
        (on_db (remove_transfer t.transfer_id) >> on_db (release_storage_reservation t.transfer_id))
        (pure false) w
        (then-Ends (λ v. Verified v.files) (λ v. Verified v.files) (λ _ v. Verified v.files)
          (λ v. Verified v.files) (on_db (remove_transfer t.transfer_id))
          (on_db (release_storage_reservation t.transfer_id)) w
          (on_db-keeps Verified (remove_transfer t.transfer_id) w h) (λ v k. k)
          (on_db-keeps Verified (release_storage_reservation t.transfer_id)))
        Verified-Intact (λ v k. pure-Ends (λ _ v. Verified v.files) (λ v. Intact v.files) false v k)

  module _ (a : Apart the_install) where
    commit_file-Ends :
        sha256 content ≡ t.sha256
        → (w : World) → Held w
        → Commits (commit_file sha256 resolve commit_directory c t p d w)
    unfolding commit_file sync_file
    commit_file-Ends same w h =
        if-Ends (λ _ v. Verified v.files) (λ v. Intact v.files) (not t.overwrite && exists d w)
          (throw failed w) _
          (λ _.
            throw-Ends (λ _ v. Verified v.files) (λ v. Intact v.files) failed w
              (inl h.at_destination))
          (λ _.
            then-Ends Held Held (λ _ v. Verified v.files) (λ v. Intact v.files)
              (sync_file sha256 resolve commit_directory c) _ w
              (perform-Ends Held Held (λ v. ok v) w
                (At-later the_install old none (some (plain content)) (Pending none) w
                  (later w.outcomes) h)
                (At-later the_install old none (some (plain content)) (Pending none) w
                  (later w.outcomes) h))
              (λ v k. inl k.at_destination)
              (λ v k.
                continue-Ends (λ _ v. Verified v.files) (λ _ v. Verified v.files)
                  (λ v. Intact v.files) _ (install_path the_install v).0
                  (install_path the_install v).1
                  (Ends-map (Installed the_install a (plain content) old) (λ _ v. Verified v.files)
                    (Kept the_install old (plain content)) _ _ (λ pending u j. (j.0, same))
                    (Kept-Intact same)
                    (install_path-Ends the_install a (plain content) refl old v k))
                  forget-Ends))

    -- The transfer before the commit: a complete upload of a file that nothing has been done with.
    pub record Uploaded (w : World) : Type 0 where
      pub found : get_transfer t.transfer_id w.db ≡ some t
      pub pushed : t.direction ≡ push
      pub of_file : t.kind ≡ file
      pub temporary : t.temporary_path ≡ some p
      pub target : t.destination_path ≡ some d
      pub early : is_installed t.phase ≡ false
      pub no_backup : t.backup_path ≡ none
      pub resolved : resolve d ≡ ok d
      pub at_destination : node_at d w.files ≡ old
      pub at_backup : node_at c.backup w.files ≡ none
      pub at_temporary : node_at p w.files ≡ some (plain content)

    verify-Ends :
        (w : World)
        → Held w
        → Ends
            (λ _ v. Held v × (sha256 content ≡ t.sha256))
            (λ v. Intact v.files)
            (verify sha256 resolve commit_directory c t (some (plain content)) w)
    verify-Ends w h =
        if-Ends (λ _ v. Held v × (sha256 content ≡ t.sha256)) (λ v. Intact v.files)
          (sha256 content == t.sha256) (pure tt w) (throw failed w)
          (λ same.
            pure-Ends (λ _ v. Held v × (sha256 content ≡ t.sha256)) (λ v. Intact v.files) tt w
              (h, ground (arith, same, eq_iff (sha256 content) t.sha256)))
          (λ _.
            throw-Ends (λ _ v. Held v × (sha256 content ≡ t.sha256)) (λ v. Intact v.files) failed w
              (inl h.at_destination))

    commit_owned-Ends :
        (w : World)
        → t.kind ≡ file
        → resolve d ≡ ok d
        → Held w
        → Commits (commit_owned sha256 resolve commit_directory c t (some p) (some d) w)
    unfolding commit_owned
    commit_owned-Ends w k r h =
        if-Ends (λ _ v. Verified v.files) (λ v. Intact v.files) (not (eqb t.transferred t.size))
          (throw failed w) _
          (λ _.
            throw-Ends (λ _ v. Verified v.files) (λ v. Intact v.files) failed w
              (inl h.at_destination))
          (λ _.
            then-Ends (λ v. Held v × (sha256 content ≡ t.sha256)) (λ v. Intact v.files)
              (λ _ v. Verified v.files) (λ v. Intact v.files)
              (verify sha256 resolve commit_directory c t (node_at p w.files))
              (at_resolved sha256 resolve commit_directory c t p (resolve d)) w
              (subst
                (λ o.
                  Ends (λ _ v. Held v × (sha256 content ≡ t.sha256)) (λ v. Intact v.files)
                    (verify sha256 resolve commit_directory c t o w))
                (sym h.at_staging) (verify-Ends w h))
              (λ v j. j)
              (λ v j.
                subst (λ x. Commits (at_resolved sha256 resolve commit_directory c t p x v)) (sym r)
                  (subst
                    (λ x. Commits (
                      (elim x as (λ _. Action Bool) [
                        | file ↦ commit_file sha256 resolve commit_directory c t p d
                        | directory ↦ commit_directory t d
                      ])
                        v))
                    (sym k) (commit_file-Ends j.1 v j.0))))

    claim-Ends :
        (w : World)
        → Uploaded w
        → Ends
            (λ _. Held)
            (λ v. Intact v.files)
            (on_db (λ db. (claim_of sha256 resolve commit_directory c t.transfer_id db).1) w)
    unfolding on_db claim_transfer_owner get_transfer
    claim-Ends w u =
        let f : TransferRow → TransferRow =
          owned_by (some c.owner) (some c.pid) (some c.started_at) c.now in
        let b : Bool = claimable t.transfer_id t in
        perform-Ends Held (λ v. Intact v.files) _ w (inl u.at_destination)
          (record {
            row = if b then f t else t;
            stored =
                Table.find-update transfer_key (claimable t.transfer_id) f t.transfer_id
                  w.db.transfers (λ r. refl)
                ∙ ap (Table.touched transfer_key (claimable t.transfer_id) f) u.found;
            bound = chosen (λ r. r.destination_path) f t b refl ∙ u.target;
            keeps = (
              chosen (λ r. is_installed r.phase) f t b refl ∙ u.early,
              chosen (λ r. r.backup_path) f t b refl ∙ u.no_backup,
            );
            at_destination = u.at_destination;
            at_backup = u.at_backup;
            at_staging = u.at_temporary;
          })

    disown-Ends :
        (F : List Entry → Type 0) (w : World)
        → F w.files
        → Ends
            (λ _ v. F v.files)
            (λ v. F v.files)
            (disown sha256 resolve commit_directory c t.transfer_id w)
    unfolding disown
    disown-Ends F w h =
        if-Ends (λ _ v. F v.files) (λ v. F v.files) (is_some (get_transfer t.transfer_id w.db)) _
          (pure tt w) (λ _. on_db-keeps F _ w h)
          (λ _. pure-Ends (λ _ v. F v.files) (λ v. F v.files) tt w h)

    owned-Ends :
        (w v : World)
        → Uploaded w
        → Held v
        → Commits (
            finally_do
              (commit_owned sha256 resolve commit_directory c t t.temporary_path t.destination_path)
              (disown sha256 resolve commit_directory c t.transfer_id)
              v)
    owned-Ends w v u h =
        finally-Ends (λ v. Verified v.files) (λ v. Intact v.files)
          (commit_owned sha256 resolve commit_directory c t t.temporary_path t.destination_path)
          (disown sha256 resolve commit_directory c t.transfer_id) v
          (subst
            (λ x. Commits (commit_owned sha256 resolve commit_directory c t x t.destination_path v))
            (sym u.temporary)
            (subst (λ x. Commits (commit_owned sha256 resolve commit_directory c t (some p) x v))
              (sym u.target) (commit_owned-Ends v u.of_file u.resolved h)))
          (λ x k.
            Ends-map (λ _ y. Verified y.files) (λ _ y. Verified y.files) (λ y. Verified y.files)
              (λ y. Intact y.files) _ (λ _ y j. j) Verified-Intact (disown-Ends Verified x k))
          (λ x k. disown-Ends Intact x k)

    claimed-Ends :
        (w v : World) (b : Bool)
        → Uploaded w
        → Held v
        → Commits (
            (if b
                then finally_do
                    (commit_owned sha256 resolve commit_directory c t t.temporary_path
                      t.destination_path)
                    (disown sha256 resolve commit_directory c t.transfer_id)
                else throw (raised (bridge (bridge_error resource_changed (some true)))))
              v)
    claimed-Ends w v true u h = owned-Ends w v u h
    claimed-Ends w v false u h =
        throw-Ends (λ _ v. Verified v.files) (λ v. Intact v.files)
          (raised (bridge (bridge_error resource_changed (some true)))) v (inl h.at_destination)

    -- The commit of a stored push of a file that is before the commit point, with its content in the temporary
    -- file, no backup, its paths apart and a destination that resolves to itself, whatever calls fail and
    -- wherever the process ends: if it returns, the destination holds that content and its hash is the
    -- declared one; if not, the destination is as it was, or it is empty and the backup holds what it
    -- was, or it holds that verified content.
    pub commit_push-Ends :
        (w : World)
        → Uploaded w
        → Ends
            (λ _ v. Verified v.files)
            (λ v. Intact v.files)
            (commit_push sha256 resolve commit_directory c t.transfer_id w)
    unfolding commit_push require_transfer
    commit_push-Ends w u =
        subst (λ r. Commits (continue (claim_and_commit w) r w))
          (sym (
            ap (required push) u.found
            ∙ if_true (same_direction t.direction push) _ _
                (ap (λ x. same_direction x push) u.pushed)))
          (then-Ends Held (λ v. Intact v.files) (λ _ v. Verified v.files) (λ v. Intact v.files)
            (on_db (λ db. (claim_of sha256 resolve commit_directory c t.transfer_id db).1)) _ w
            (claim-Ends w u) (λ v k. k)
            (λ v k.
              claimed-Ends w v (claim_of sha256 resolve commit_directory c t.transfer_id w.db).0 u
                k))
      where
        claim_and_commit : World → TransferRow → Action Bool
        claim_and_commit w r =
            on_db (λ db. (claim_of sha256 resolve commit_directory c t.transfer_id db).1)
            >> (if (claim_of sha256 resolve commit_directory c t.transfer_id w.db).0
                then finally_do
                    (commit_owned sha256 resolve commit_directory c r r.temporary_path
                      r.destination_path)
                    (disown sha256 resolve commit_directory c t.transfer_id)
                else throw (raised (bridge (bridge_error resource_changed (some true)))))
