-- ===== src/Tests/Transfers.antt =====
-- An installation over an old file whose process ends, and its recovery.
use mira_bridge.Base.{true, false, some, [], ◌∷◌, ◌≡◌, refl, ok, ◌⊎◌}
use mira_bridge.State.Rows.{TransferRow, receiving, committing, push, empty}
use mira_bridge.State.Transfers.{get_transfer, set_transfer_recovery}
use mira_bridge.Transfers.{plain, World, succeeds, crashes, node_at, put, remove}
use mira_bridge.Base.Table
use mira_bridge.Transfers.Recovery.{recover_or_remove}
use mira_bridge.Transfers.Restarts.{Whole, restart, restarts, install_path-Whole}
use mira_bridge.Transfers.Restored.{Recovered}
use mira_bridge.Transfers.Settles.{Refuses, calmed, recover_or_remove_settles}
use mira_bridge.Transfers.Install.{Install, install_path}
use mira_bridge.Transfers.Install.Steps.{Apart}
use mira_bridge.Transfers.Install.Crash.{Staged}
use mira_bridge.Tests.Samples.{free_transfer}

abbrev install : Install
install = record {
  transfer_id = "t";
  staging = "new.part";
  destination = "a.txt";
  backup = "old.bak";
  overwrite = true;
  rollback_phase = receiving;
  now = 9;
}

abbrev pushed_row : TransferRow
pushed_row = record free_transfer {
  direction = push;
  destination_path = some "a.txt";
  temporary_path = some "new.part";
}

-- The process ends before its fourth call, `rename(destination, backup)` being the third.
abbrev before : World
before = record {
  db = record empty { transfers = pushed_row ∷ [] };
  files =
      record { path = "a.txt"; node = plain (1 ∷ []) }
      ∷ record { path = "new.part"; node = plain (2 ∷ []) }
      ∷ [];
  outcomes = succeeds ∷ succeeds ∷ succeeds ∷ crashes ∷ [];
}

calm_install : (install_path install (record before { outcomes = [] })).0 ≡ ok false
unfolding install_path node_at Table.find put Table.replace remove
calm_install = refl

install-Apart : Apart install
install-Apart = record { staged = λ e. cc e; saved = λ e. cc e; between = λ e. cc e }

before-Staged : Staged install (some (plain (1 ∷ []))) (plain (2 ∷ [])) before
unfolding get_transfer node_at Table.find
before-Staged = record {
  row = pushed_row;
  stored = refl;
  bound = refl;
  keeps = (refl, refl);
  at_destination = refl;
  at_backup = refl;
  at_staging = refl;
}

install_path-Whole_example :
    Whole
      (λ p. p)
      install
      install-Apart
      (some (plain (1 ∷ [])))
      (plain (2 ∷ []))
      (restarts (λ p. p) "t" ((succeeds ∷ crashes ∷ []) ∷ [] ∷ []) (install_path install before).1)
install_path-Whole_example =
    install_path-Whole (λ p. p) install install-Apart (some (plain (1 ∷ []))) (plain (2 ∷ []))
      before ((succeeds ∷ crashes ∷ []) ∷ [] ∷ []) refl before-Staged

-- The recovery of the row that the ended process has left, whose own second call ends its process.
abbrev left : World
left = restarts (λ p. p) "t" ((succeeds ∷ crashes ∷ []) ∷ []) (install_path install before).1

abbrev left_row : TransferRow
left_row = record pushed_row {
  phase = committing;
  staging_path = some "new.part";
  backup_path = some "old.bak";
  updated_at = 9;
}

recover_or_remove_settles_example :
    ((recover_or_remove (λ p. p) left_row (calmed left)).0 ≡ ok tt)
      × Recovered
          (λ p. p)
          install
          install-Apart
          (some (plain (1 ∷ [])))
          (plain (2 ∷ []))
          (recover_or_remove (λ p. p) left_row (calmed left)).1
    ⊎ Refuses
        (λ p. p)
        install
        install-Apart
        (some (plain (1 ∷ [])))
        (plain (2 ∷ []))
        (calmed left)
        refl
        left_row
unfolding restarts restart recover_or_remove install_path get_transfer Table.find node_at put
    Table.replace remove set_transfer_recovery Table.update
recover_or_remove_settles_example =
    recover_or_remove_settles (λ p. p) install install-Apart (some (plain (1 ∷ [])))
      (plain (2 ∷ [])) before ((succeeds ∷ crashes ∷ []) ∷ []) left_row refl before-Staged refl
