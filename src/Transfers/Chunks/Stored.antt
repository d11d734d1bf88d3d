-- ===== src/Transfers/Chunks/Stored.antt =====
-- A chunk that is written and then counted.
use mira_bridge.Base.{
  ℕ, ◌+◌, ◌≤◌, String, true, some, List, [], ◌∷◌, ◌++◌, length, length-append, drop, ◌≡◌, refl, sym,
  ap, ◌∙◌, subst, arith, eq_iff, ◌==◌, if◌then◌else◌, ok, pure, throw, ◌>>◌,
}
use mathlib.Core.List.{append_assoc}
use mira_bridge.Base.Table
use mira_bridge.State.Rows.{TransferRow, Database, Time}
use mira_bridge.State.Transfers.{transfer_key, get_transfer, update_transferred}
use mira_bridge.Transfers.{
  Bytes, plain, World, Action, catch_failure, Outcome, raised, node_at, put, on_db, later,
}
use mira_bridge.Transfers.Files.{node_at-put_same}
use mira_bridge.Transfers.Chunks.{
  splice, overwritten, opened, open_existing, write_bytes, close_handle, close_after, write_at,
  assert_free_space, store_chunk,
}
use mira_bridge.Transfers.Ends.{
  Ends, then-Ends, catch-Ends, throw-Ends, pure-Ends, perform-Ends, Settled,
}

splice_after :
    (old new rest : Bytes)
    → splice (length old) new (old ++ rest) ≡ old ++ (new ++ drop (length new) rest)
unfolding splice
splice_after [] new rest = refl
splice_after (x ∷ old) new rest = ap (λ t. x ∷ t) (splice_after old new rest)

-- A transfer whose temporary file starts with the bytes and whose row counts them.
pub record Receives (id p : String) (size : ℕ) (bytes : Bytes) (w : World) : Type 0 where
  pub row : TransferRow
  pub stored : get_transfer id w.db ≡ some row
  pub temporary : row.temporary_path ≡ some p
  pub sized : row.size ≡ size
  pub counted : row.transferred ≡ length bytes
  pub fits : length bytes ≤ size
  pub rest : Bytes
  pub held : node_at p w.files ≡ some (plain (bytes ++ rest))

abbrev advanced : ℕ → Time → TransferRow → TransferRow
advanced n now t = record t { transferred = n; updated_at = now }

get_transfer-update_transferred :
    (id : String) (n : ℕ) (now : Time) (db : Database) (t : TransferRow)
    → get_transfer id db ≡ some t
    → get_transfer id (update_transferred id n now db) ≡ some (advanced n now t)
unfolding get_transfer update_transferred
get_transfer-update_transferred id n now db t h =
    let named : t.transfer_id ≡ id = Table.find_key transfer_key id db.transfers t h in
    let tested : (t.transfer_id == id) ≡ true = ground (arith, named, eq_iff t.transfer_id id) in
    Table.find-update transfer_key (λ r. r.transfer_id == id) (advanced n now) id db.transfers
      (λ r. refl)
    ∙ ap (Table.touched transfer_key (λ r. r.transfer_id == id) (advanced n now)) h
    ∙ ap (λ c. some (if c then advanced n now t else t)) tested

module _ (id p : String) (size : ℕ) (old new : Bytes) (now : Time) where
  abbrev pub Before : World → Type 0
  Before = Receives id p size old

  pub Before-later :
      (w : World) (os : List Outcome) → Before w → Before (record w { outcomes = os })
  Before-later w os h = record {
    row = h.row;
    stored = h.stored;
    temporary = h.temporary;
    sized = h.sized;
    counted = h.counted;
    fits = h.fits;
    rest = h.rest;
    held = h.held;
  }

  -- The chunk has been written and the row does not count it yet.
  abbrev Written : World → Type 0
  Written w =
      Before w × ((rest : Bytes) × (node_at p w.files ≡ some (plain (old ++ (new ++ rest)))))

  write_bytes-Ends :
      (w : World) → Before w → Ends (λ _. Written) Before (write_bytes p (length old) new w)
  unfolding write_bytes
  write_bytes-Ends w h =
      let content = old ++ (new ++ drop (length new) h.rest) in
      let put_there : node_at p (put p (plain content) w.files) ≡ some (plain content) =
        node_at-put_same p (plain content) w.files in
      perform-Ends Written Before (λ v. overwritten p (length old) new v (node_at p v.files)) w
        (Before-later w (later w.outcomes) h)
        (subst
          (λ o.
            Settled Written
              (overwritten p (length old) new (record w { outcomes = later w.outcomes }) o))
          (sym h.held)
          (subst
            (λ c.
              Written (record w { files = put p (plain c) w.files; outcomes = later w.outcomes }))
            (sym (splice_after old new h.rest))
            (
              record {
                row = h.row;
                stored = h.stored;
                temporary = h.temporary;
                sized = h.sized;
                counted = h.counted;
                fits = h.fits;
                rest = new ++ drop (length new) h.rest;
                held = put_there;
              },
              (drop (length new) h.rest, put_there),
            )))

  open_existing-Ends : (w : World) → Before w → Ends (λ _. Before) Before (open_existing p w)
  unfolding open_existing
  open_existing-Ends w h =
      let after = Before-later w (later w.outcomes) h in
      perform-Ends Before Before (λ v. opened v (node_at p v.files)) w after
        (subst (λ o. Settled Before (opened (record w { outcomes = later w.outcomes }) o))
          (sym h.held) after)

  Written-later : (w : World) (os : List Outcome) → Written w → Written (record w { outcomes = os })
  Written-later w os h = (Before-later w os h.0, h.1)

  close_handle-Ends :
      (Q : World → Type 0) (w : World)
      → ((v : World) → Q v → Before v)
      → Q (record w { outcomes = later w.outcomes })
      → Ends (λ _. Q) Before (close_handle w)
  unfolding close_handle
  close_handle-Ends Q w weaker h = perform-Ends Q Before (λ v. ok v) w (weaker _ h) h

  write_at-Ends :
      (w : World) → Before w → Ends (λ _. Written) Before (write_at p (length old) new w)
  unfolding write_at
  write_at-Ends w h =
      then-Ends Before Before (λ _. Written) Before (open_existing p) (written >> close_handle) w
        (open_existing-Ends w h) (λ v k. k)
        (λ v k.
          then-Ends Written Before (λ _. Written) Before written close_handle v (written-Ends v k)
            (λ u j. j)
            (λ u j.
              close_handle-Ends Written u (λ x l. l.0) (Written-later u (later u.outcomes) j)))
    where
      written : Action (Unit {0})
      written = catch_failure (write_bytes p (length old) new) close_after

      written-Ends : (v : World) → Before v → Ends (λ _. Written) Before (written v)
      written-Ends v k =
          catch-Ends (λ _. Written) Before (write_bytes p (length old) new) close_after v
            (write_bytes-Ends v k)
            (λ e u j.
              then-Ends Before Before (λ _. Written) Before close_handle (throw (raised e)) u
                (close_handle-Ends Before u (λ x l. l) (Before-later u (later u.outcomes) j))
                (λ x l. l) (λ x l. throw-Ends (λ _. Written) Before (raised e) x l))

  update-Ends :
      (w : World)
      → length old + length new ≤ size
      → Written w
      → Ends
          (λ _. Receives id p size (old ++ new))
          Before
          (on_db (update_transferred id (length old + length new) now) w)
  unfolding on_db update_transferred
  update-Ends w room h =
      perform-Ends (Receives id p size (old ++ new)) Before _ w
        (Before-later w (later w.outcomes) h.0)
        (record {
          row = advanced (length old + length new) now h.0.row;
          stored =
              get_transfer-update_transferred id (length old + length new) now w.db h.0.row
                h.0.stored;
          temporary = h.0.temporary;
          sized = h.0.sized;
          counted = sym (length-append old new);
          fits = omega (arith, length-append old new, room);
          rest = h.1.0;
          held = h.1.1 ∙ ap (λ c. some (plain c)) (sym (append_assoc old new h.1.0));
        })

  pub store_chunk-Ends :
      (w : World)
      → length old + length new ≤ size
      → Before w
      → Ends
          (λ n v. Receives id p size (old ++ new) v)
          Before
          (store_chunk id p (length old) new now w)
  unfolding store_chunk assert_free_space
  store_chunk-Ends w room h =
      then-Ends Before Before (λ _. Receives id p size (old ++ new)) Before assert_free_space _ w
        (perform-Ends Before Before (λ v. ok v) w (Before-later w (later w.outcomes) h)
          (Before-later w (later w.outcomes) h))
        (λ v k. k)
        (λ v k.
          then-Ends Written Before (λ _. Receives id p size (old ++ new)) Before
            (write_at p (length old) new) _ v (write_at-Ends v k) (λ u j. j)
            (λ u j.
              then-Ends (Receives id p size (old ++ new)) Before
                (λ _. Receives id p size (old ++ new)) Before
                (on_db (update_transferred id (length old + length new) now))
                (pure (length old + length new)) u (update-Ends u room j) (λ x l. l)
                (λ x l.
                  pure-Ends (λ _. Receives id p size (old ++ new)) Before (length old + length new)
                    x l)))
