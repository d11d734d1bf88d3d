-- ===== src/Transfers/Restart.antt =====
-- The recovery of an installation that has ended anywhere.
use mira_bridge.Base.{
  String, false, Option, none, some, List, ◌≡◌, refl, sym, ap, ◌∙◌, ◌≢◌, ◌⊎◌, inl, inr, subst,
  arith, eq_iff, ◌==◌, pure, if_true,
}
use mira_bridge.Base.Table
use mira_bridge.State.Rows.{TransferRow}
use mira_bridge.State.Transfers.{transfer_key, get_transfer, remove_transfer}
use mira_bridge.State.Reservations.{release_storage_reservation}
use mira_bridge.Transfers.{Node, World, Outcome, node_at, remove, later, rm, on_db}
use mira_bridge.Transfers.Files.{node_at-remove_other, node_at-remove}
use mira_bridge.Transfers.Recovery.{clear, clear_up}
use mira_bridge.Transfers.Install.{Install}
use mira_bridge.Transfers.Ends.{Ends, pure-Ends, Ends-map, then-Ends, if-Ends, perform-Ends}
use mira_bridge.Transfers.Install.Steps.{At}

-- The row is gone, and the destination holds what it may.
abbrev pub Finished : Install → Option Node → World → Type 0
Finished i d w = (get_transfer i.transfer_id w.db ≡ none) × (node_at i.destination w.files ≡ d)

-- What the removal of other paths keeps: the destination, the row, and that there is no backup.
pub data Steady (i : Install) (d b : Option Node) (t : TransferRow) (P : TransferRow → Type 0)
    (w : World) : Type 0 where
  steady :
      (b' s : Option Node)
      → (b ≡ none → b' ≡ none)
      → (h : At i d b' s P w) → h.row ≡ t
      → Steady i d b t P w

module _ (i : Install) (d b : Option Node) (t : TransferRow) (P : TransferRow → Type 0) where
  abbrev pub Stays : World → Type 0
  Stays = Steady i d b t P

  Stays-later : (w : World) (os : List Outcome) → Stays w → Stays (record w { outcomes = os })
  Stays-later w os (steady b' s f h e) =
      steady b' s f
        (record {
          row = h.row;
          stored = h.stored;
          bound = h.bound;
          keeps = h.keeps;
          at_destination = h.at_destination;
          at_backup = h.at_backup;
          at_staging = h.at_staging;
        })
        e

  keeps_none :
      (p q : String) (n : Option Node) (w : World)
      → node_at q w.files ≡ n
      → n ≡ none
      → node_at q (remove p w.files) ≡ none
  keeps_none p q n w h e = node_at-remove p q w.files ∙ ground (arith, h, e)

  Stays-remove :
      (p : String) (w : World) (os : List Outcome)
      → p ≢ i.destination
      → Stays w
      → Stays (record w { files = remove p w.files; outcomes = os })
  Stays-remove p w os apart (steady b' s f h e) =
      steady (node_at i.backup (remove p w.files)) (node_at i.staging (remove p w.files))
        (λ q. keeps_none p i.backup b' w h.at_backup (f q))
        (record {
          row = h.row;
          stored = h.stored;
          bound = h.bound;
          keeps = h.keeps;
          at_destination = node_at-remove_other p i.destination w.files apart ∙ h.at_destination;
          at_backup = refl;
          at_staging = refl;
        })
        e

  module _ (to_lower : String → String) where
    clear-Ends :
        (path : Option String) (w : World)
        → Stays w
        → Ends (λ _. Stays) Stays (clear to_lower (some i.destination) path w)
    unfolding clear rm
    clear-Ends none w h = pure-Ends (λ _. Stays) Stays tt w h
    clear-Ends (some p) w h =
        if-Ends (λ _. Stays) Stays (to_lower p == to_lower i.destination) (pure tt w) _
          (λ _. pure-Ends (λ _. Stays) Stays tt w h)
          (λ other.
            perform-Ends Stays Stays _ w (Stays-later w (later w.outcomes) h)
              (Stays-remove p w (later w.outcomes) (apart p other) h))
      where
        apart : (p : String) → (to_lower p == to_lower i.destination) ≡ false → p ≢ i.destination
        apart p other e =
            absurd
              (ground (arith, other, ap to_lower e, eq_iff (to_lower p) (to_lower i.destination)))

    bound_of : (w : World) → Stays w → t.destination_path ≡ some i.destination
    bound_of w (steady b' s f h e) = ap (λ r. r.destination_path) (sym e) ∙ h.bound

    clear_path :
        (path : Option String) (w : World)
        → Stays w
        → Ends (λ _. Stays) Stays (clear to_lower t.destination_path path w)
    clear_path path w h =
        subst (λ o. Ends (λ _. Stays) Stays (clear to_lower o path w)) (sym (bound_of w h))
          (clear-Ends path w h)

    removed :
        (w : World)
        → Stays w
        → Finished i d
            (record w { db = remove_transfer t.transfer_id w.db; outcomes = later w.outcomes })
    unfolding get_transfer remove_transfer
    removed w (steady b' s f h e) =
        let named : t.transfer_id ≡ i.transfer_id =
          ap (λ r. r.transfer_id) (sym e)
          ∙ Table.find_key transfer_key i.transfer_id w.db.transfers h.row h.stored in
        (
          Table.find-delete transfer_key t.transfer_id i.transfer_id w.db.transfers
              ∙ if_true (t.transfer_id == i.transfer_id) none _
                  (ground (arith, named, eq_iff t.transfer_id i.transfer_id)),
          h.at_destination,
        )

    -- The end of a recovery, after the branches on the phase.
    pub clear_up-Ends :
        (w : World)
        → Stays w
        → Ends (λ _. Finished i d) (λ v. Stays v ⊎ Finished i d v) (clear_up to_lower t w)
    unfolding clear_up on_db get_transfer release_storage_reservation
    clear_up-Ends w h =
        then-Ends Stays Stays (λ _. Finished i d) (λ v. Stays v ⊎ Finished i d v)
          (clear to_lower t.destination_path t.staging_path) _ w (clear_path t.staging_path w h)
          (λ v k. inl k)
          (λ v k.
            then-Ends Stays Stays (λ _. Finished i d) (λ v. Stays v ⊎ Finished i d v)
              (clear to_lower t.destination_path t.temporary_path) _ v
              (clear_path t.temporary_path v k) (λ u j. inl j)
              (λ u j.
                then-Ends (Finished i d) Stays (λ _. Finished i d) (λ v. Stays v ⊎ Finished i d v)
                  (on_db (remove_transfer t.transfer_id))
                  (on_db (release_storage_reservation t.transfer_id)) u
                  (perform-Ends (Finished i d) Stays _ u (Stays-later u (later u.outcomes) j)
                    (removed u j))
                  (λ x l. inl l)
                  (λ x l.
                    Ends-map (λ _. Finished i d) (λ _. Finished i d) (Finished i d) _ _ (λ _ y m. m)
                      (λ y m. inr m) (perform-Ends (Finished i d) (Finished i d) _ x l l))))
