-- ===== src/Transfers/Install/Crash.antt =====
-- An installation that ends anywhere, by an error or with its process.
use mira_bridge.Base.{
  Bool, false, Option, none, some, ◌≡◌, refl, sym, subst, ok, err, Result, ◌&&◌, not, throw,
  is_some, inl,
}
use mira_bridge.Transfers.{Node, World, Failure, failed, exists}
use mira_bridge.Transfers.Recovery.{is_installed}
use mira_bridge.Transfers.Install.{Install, install_over, install_path}
use mira_bridge.Transfers.Ends.{Ends, throw-Ends, if-Ends}
use mira_bridge.Transfers.Install.Steps.{At, Apart}
use mira_bridge.Transfers.Install.Kept.{Kept, unmoved, Pending, Installed, install-Fresh}
use mira_bridge.Transfers.Install.Over.{install_old}

-- The start of an installation: a node at the destination or none, the staged node, no backup, and a row
-- before the commit point.
abbrev pub Staged : Install → Option Node → Node → World → Type 0
Staged i old new = At i old none (some new) (Pending none)

module _ (i : Install) (a : Apart i) (new : Node)
    (early : is_installed i.rollback_phase ≡ false) where
  install_any :
      (old : Option Node) (w : World)
      → Staged i old new w
      → Ends (Installed i a new old) (Kept i old new) (install_over i (is_some old) w)
  install_any none w h = install-Fresh i a new w h
  install_any (some n) w h = install_old i a new n early w h

  -- An installation from a staged node, whatever calls of it fail and wherever the process ends: if it
  -- returns, the new node is at the destination, and the backup is gone unless its removal is reported
  -- as pending; if not, the old node is at the destination or in the backup that the row names, or the
  -- new node is at the destination.
  pub install_path-Ends :
      (old : Option Node) (w : World)
      → Staged i old new w
      → Ends (Installed i a new old) (Kept i old new) (install_path i w)
  unfolding install_path
  install_path-Ends old w h =
      if-Ends (Installed i a new old) (Kept i old new) (exists i.destination w && not i.overwrite)
        (throw failed w) _
        (λ _.
          throw-Ends (Installed i a new old) (Kept i old new) failed w
            (unmoved (some new) none (inl refl) h))
        (λ _.
          subst (λ o. Ends (Installed i a new old) (Kept i old new) (install_over i (is_some o) w))
            (sym h.at_destination) (install_any old w h))

  pub install_path-Kept :
      (old : Option Node) (w : World) → Staged i old new w → Kept i old new (install_path i w).1
  unfolding Ends
  install_path-Kept old w h = by_result (install_path i w).0 (install_path-Ends old w h)
    where
      by_result :
          (r : Result Failure Bool)
          → Ends (Installed i a new old) (Kept i old new) (r, (install_path i w).1)
          → Kept i old new (install_path i w).1
      by_result (ok pending) k = k.1.1
      by_result (err e) k = k
