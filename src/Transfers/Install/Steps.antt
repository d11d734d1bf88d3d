-- ===== src/Transfers/Install/Steps.antt =====
-- What the calls of an installation do to the transfer's row and to the three paths, whether they
-- succeed, throw or are never reached.
use mira_bridge.Base.{
  String, true, Option, none, some, List, ◌≡◌, refl, sym, ap, ◌∙◌, ◌≢◌, subst, arith, eq_iff,
  if◌then◌else◌, ok, ◌==◌,
}
use mira_bridge.Base.Table
use mira_bridge.State.Rows.{TransferRow, Phase, Database, Time}
use mira_bridge.State.Transfers.{transfer_key, get_transfer, set_transfer_recovery}
use mira_bridge.Transfers.{
  Node, Entry, World, Outcome, node_at, put, remove, rename, rm, on_db, moved, later,
}
use mira_bridge.Transfers.Files.{
  node_at-put_same, node_at-put_other, node_at-remove_same, node_at-remove_other,
}
use mira_bridge.Transfers.Install.{Install, on_phase, before_install}
use mira_bridge.Transfers.Ends.{Ends, Settled, perform-Ends}

-- The row of the transfer, and what stands at the destination, the backup and the staging path.
pub record At (i : Install) (d b s : Option Node) (P : TransferRow → Type 0) (w : World)
    : Type 0 where
  pub row : TransferRow
  pub stored : get_transfer i.transfer_id w.db ≡ some row
  pub bound : row.destination_path ≡ some i.destination
  pub keeps : P row
  pub at_destination : node_at i.destination w.files ≡ d
  pub at_backup : node_at i.backup w.files ≡ b
  pub at_staging : node_at i.staging w.files ≡ s

abbrev pub Phased : Phase → Option String → TransferRow → Type 0
Phased phase backup t = (t.phase ≡ phase) × (t.backup_path ≡ backup)

-- The three paths are apart.
pub record Apart (i : Install) : Type 0 where
  pub staged : i.staging ≢ i.destination
  pub saved : i.backup ≢ i.destination
  pub between : i.staging ≢ i.backup

abbrev recovered : Phase → Option String → Option String → Time → TransferRow → TransferRow
recovered phase staging backup now t = record t {
  phase = phase;
  staging_path = staging;
  backup_path = backup;
  updated_at = now;
}

get_transfer-set_transfer_recovery :
    (id : String) (phase : Phase) (staging backup : Option String) (now : Time) (db : Database)
    (t : TransferRow)
    → get_transfer id db ≡ some t
    → get_transfer id (set_transfer_recovery id phase staging backup now db)
      ≡ some (recovered phase staging backup now t)
unfolding get_transfer set_transfer_recovery
get_transfer-set_transfer_recovery id phase staging backup now db t h =
    let named : t.transfer_id ≡ id = Table.find_key transfer_key id db.transfers t h in
    let tested : (t.transfer_id == id) ≡ true = ground (arith, named, eq_iff t.transfer_id id) in
    Table.find-update transfer_key (λ r. r.transfer_id == id) (recovered phase staging backup now)
      id db.transfers (λ r. refl)
    ∙ ap
        (Table.touched transfer_key (λ r. r.transfer_id == id) (recovered phase staging backup now))
        h
    ∙ ap (λ c. some (if c then recovered phase staging backup now t else t)) tested

module _ (i : Install) (d b s : Option Node) (P : TransferRow → Type 0) (w : World) where
  pub At-later : (os : List Outcome) → At i d b s P w → At i d b s P (record w { outcomes = os })
  At-later os h = record {
    row = h.row;
    stored = h.stored;
    bound = h.bound;
    keeps = h.keeps;
    at_destination = h.at_destination;
    at_backup = h.at_backup;
    at_staging = h.at_staging;
  }

  pub before_install-Ends :
      At i d b s P w → Ends (λ _. At i d b s P) (At i d b s P) (before_install i w)
  unfolding before_install
  before_install-Ends h =
      perform-Ends (At i d b s P) (At i d b s P) (λ v. ok v) w (At-later (later w.outcomes) h)
        (At-later (later w.outcomes) h)

  pub on_phase-Ends :
      (phase : Phase) (staging backup : Option String)
      → At i d b s P w
      → Ends
          (λ _. At i d b s (Phased phase backup))
          (At i d b s P)
          (on_phase i phase staging backup w)
  unfolding on_phase on_db
  on_phase-Ends phase staging backup h =
      perform-Ends (At i d b s (Phased phase backup)) (At i d b s P) _ w
        (At-later (later w.outcomes) h)
        (record {
          row = recovered phase staging backup i.now h.row;
          stored =
              get_transfer-set_transfer_recovery i.transfer_id phase staging backup i.now w.db h.row
                h.stored;
          bound = h.bound;
          keeps = (refl, refl);
          at_destination = h.at_destination;
          at_backup = h.at_backup;
          at_staging = h.at_staging;
        })

  -- A change of the files alone.
  refiled :
      (d' b' s' : Option Node) (files : List Entry) (os : List Outcome)
      → At i d b s P w
      → node_at i.destination files ≡ d'
      → node_at i.backup files ≡ b'
      → node_at i.staging files ≡ s'
      → At i d' b' s' P (record w { files = files; outcomes = os })
  refiled d' b' s' files os h hd hb hs = record {
    row = h.row;
    stored = h.stored;
    bound = h.bound;
    keeps = h.keeps;
    at_destination = hd;
    at_backup = hb;
    at_staging = hs;
  }

  rename-Ends :
      (source target : String) (n : Node) (d' b' s' : Option Node)
      → node_at source w.files ≡ some n
      → At i d b s P w
      → node_at i.destination (put target n (remove source w.files)) ≡ d'
      → node_at i.backup (put target n (remove source w.files)) ≡ b'
      → node_at i.staging (put target n (remove source w.files)) ≡ s'
      → Ends (λ _. At i d' b' s' P) (At i d b s P) (rename source target w)
  unfolding rename
  rename-Ends source target n d' b' s' found h hd hb hs =
      let v : World = record w { outcomes = later w.outcomes } in
      perform-Ends (At i d' b' s' P) (At i d b s P)
        (λ v. moved source target v (node_at source v.files)) w (At-later (later w.outcomes) h)
        (subst (λ o. Settled (At i d' b' s' P) (moved source target v o)) (sym found)
          (refiled d' b' s' (put target n (remove source w.files)) (later w.outcomes) h hd hb hs))

  module _ (a : Apart i) where
    pub rename-backup-Ends :
        (n : Node)
        → d ≡ some n
        → At i d b s P w
        → Ends (λ _. At i none (some n) s P) (At i d b s P) (rename i.destination i.backup w)
    rename-backup-Ends n e h =
        rename-Ends i.destination i.backup n none (some n) s (h.at_destination ∙ e) h
          (node_at-put_other i.backup i.destination n _ a.saved
            ∙ node_at-remove_same i.destination w.files)
          (node_at-put_same i.backup n _)
          (node_at-put_other i.backup i.staging n _ (λ q. a.between (sym q))
            ∙ node_at-remove_other i.destination i.staging w.files (λ q. a.staged (sym q))
            ∙ h.at_staging)

    pub rename-staging-Ends :
        (n : Node)
        → s ≡ some n
        → At i d b s P w
        → Ends (λ _. At i (some n) b none P) (At i d b s P) (rename i.staging i.destination w)
    rename-staging-Ends n e h =
        rename-Ends i.staging i.destination n (some n) b none (h.at_staging ∙ e) h
          (node_at-put_same i.destination n _)
          (node_at-put_other i.destination i.backup n _ (λ q. a.saved (sym q))
            ∙ node_at-remove_other i.staging i.backup w.files a.between
            ∙ h.at_backup)
          (node_at-put_other i.destination i.staging n _ (λ q. a.staged (sym q))
            ∙ node_at-remove_same i.staging w.files)

    pub rename-restore-Ends :
        (n : Node)
        → b ≡ some n
        → At i d b s P w
        → Ends (λ _. At i (some n) none s P) (At i d b s P) (rename i.backup i.destination w)
    rename-restore-Ends n e h =
        rename-Ends i.backup i.destination n (some n) none s (h.at_backup ∙ e) h
          (node_at-put_same i.destination n _)
          (node_at-put_other i.destination i.backup n _ (λ q. a.saved (sym q))
            ∙ node_at-remove_same i.backup w.files)
          (node_at-put_other i.destination i.staging n _ (λ q. a.staged (sym q))
            ∙ node_at-remove_other i.backup i.staging w.files (λ q. a.between (sym q))
            ∙ h.at_staging)

    pub rm-backup-Ends : At i d b s P w → Ends (λ _. At i d none s P) (At i d b s P) (rm i.backup w)
    unfolding rm
    rm-backup-Ends h =
        perform-Ends (At i d none s P) (At i d b s P) _ w (At-later (later w.outcomes) h) (
          refiled d none s (remove i.backup w.files) (later w.outcomes) h
            (node_at-remove_other i.backup i.destination w.files a.saved ∙ h.at_destination)
            (node_at-remove_same i.backup w.files)
            (node_at-remove_other i.backup i.staging w.files (λ q. a.between (sym q))
              ∙ h.at_staging))
