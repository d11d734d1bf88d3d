-- ===== src/State/Reservations/Volumes.antt =====
-- The bytes that reservations hold on a volume, as a sum over the rows, and the tests of
-- `tryReserveStorage` against it.
use mira_bridge.Base.{
  ℕ, ◌+◌, ◌≤◌, ◌≡◌, refl, String, Bool, true, false, Option, none, some, List, [], ◌∷◌, ◌==◌, ◌||◌,
  arith, eq_iff, if◌then◌else◌, sum_by, holds_text, Bool-cases, inl, inr, subst,
}
use mira_bridge.State.Rows.{StorageReservationRow}
use mira_bridge.State.Reservations.{
  Volumes, Capacity, bytes_on, add_bytes, add_reserved, add_requested, reserved_by_volume,
  requested_by_volume, any_lacks_space, free_on, lacks_space,
}

-- What a reservation takes of volume `v`: its root bytes and its target bytes.
abbrev pub share : String → StorageReservationRow → ℕ
share v r =
    (if r.root_volume == v then r.root_bytes else 0)
    + (if holds_text r.target_volume v then r.target_bytes else 0)

abbrev pub volume_bytes : String → List StorageReservationRow → ℕ
volume_bytes v rows = sum_by (share v) rows

pub bytes_on-add_bytes :
    (v w : String) (n : ℕ) (volumes : Volumes)
    → bytes_on v (add_bytes w n volumes) ≡ bytes_on v volumes + (if w == v then n else 0)
unfolding bytes_on add_bytes
bytes_on-add_bytes v w n [] = ground arith
bytes_on-add_bytes v w n ((u, m) ∷ rest) =
    ground (arith, bytes_on-add_bytes v w n rest, eq_iff u w, eq_iff u v, eq_iff w v)

module _ (v : String) (named : (v == "") ≡ false) where
  bytes_on-add_reserved :
      (o : Option String) (n : ℕ) (volumes : Volumes)
      → bytes_on v (add_reserved o n volumes)
        ≡ bytes_on v volumes + (if holds_text o v then n else 0)
  unfolding add_reserved
  bytes_on-add_reserved none n volumes = omega arith
  bytes_on-add_reserved (some w) n volumes =
      ground (arith, bytes_on-add_bytes v w n volumes, eq_iff w "", eq_iff w v, eq_iff v "")

  bytes_on-add_requested :
      (o : Option String) (n : ℕ) (volumes : Volumes)
      → bytes_on v (add_requested o n volumes)
        ≡ bytes_on v volumes + (if holds_text o v then n else 0)
  unfolding add_requested
  bytes_on-add_requested none n volumes = omega arith
  bytes_on-add_requested (some w) n volumes =
      ground (arith, bytes_on-add_bytes v w n volumes, eq_iff w "", eq_iff w v, eq_iff v "")

  -- The loop that fills `byVolume` computes the sum over the rows.
  pub bytes_on-reserved_by_volume :
      (rows : List StorageReservationRow) (volumes : Volumes)
      → bytes_on v (reserved_by_volume rows volumes) ≡ bytes_on v volumes + volume_bytes v rows
  unfolding reserved_by_volume
  bytes_on-reserved_by_volume [] volumes = omega arith
  bytes_on-reserved_by_volume (r ∷ rows) volumes = omega (
    arith,
    bytes_on-reserved_by_volume rows (
        add_reserved r.target_volume r.target_bytes
          (add_reserved (some r.root_volume) r.root_bytes volumes)),
    bytes_on-add_reserved r.target_volume r.target_bytes
        (add_reserved (some r.root_volume) r.root_bytes volumes),
    bytes_on-add_reserved (some r.root_volume) r.root_bytes volumes,
  )

  pub bytes_on-requested_by_volume :
      (r : StorageReservationRow) → bytes_on v (requested_by_volume r) ≡ share v r
  unfolding requested_by_volume
  bytes_on-requested_by_volume r =
      unfold bytes_on in
      omega (
        arith,
        bytes_on-add_requested r.target_volume r.target_bytes
            (add_requested (some r.root_volume) r.root_bytes []),
        bytes_on-add_requested (some r.root_volume) r.root_bytes [],
      )

abbrev pub has_volume : String → Volumes → Bool
has_volume v [] = false
has_volume v ((w, n) ∷ rest) = (w == v) || has_volume v rest

has_volume-add_bytes :
    (v w : String) (n : ℕ) (volumes : Volumes)
    → has_volume v (add_bytes w n volumes) ≡ ((w == v) || has_volume v volumes)
unfolding add_bytes
has_volume-add_bytes v w n [] = refl
has_volume-add_bytes v w n ((u, m) ∷ rest) =
    ground (arith, has_volume-add_bytes v w n rest, eq_iff u w, eq_iff u v, eq_iff w v)

pub has_volume-requested :
    (v : String) (r : StorageReservationRow)
    → (v == "") ≡ false
    → ((r.root_volume == v) || holds_text r.target_volume v) ≡ true
    → has_volume v (requested_by_volume r) ≡ true
unfolding requested_by_volume add_requested
has_volume-requested v r named h = go r.target_volume h
  where
    go :
        (o : Option String)
        → ((r.root_volume == v) || holds_text o v) ≡ true
        → has_volume v
            (add_requested o r.target_bytes (add_requested (some r.root_volume) r.root_bytes []))
          ≡ true
    go none k = ground (
      arith,
      has_volume-add_bytes v r.root_volume r.root_bytes [],
      eq_iff r.root_volume "",
      eq_iff r.root_volume v,
      eq_iff v "",
    )
    go (some w) k = ground (
      arith,
      has_volume-add_bytes v r.root_volume r.root_bytes [],
      has_volume-add_bytes v w r.target_bytes [],
      has_volume-add_bytes v w r.target_bytes (add_bytes r.root_volume r.root_bytes []),
      eq_iff r.root_volume "",
      eq_iff r.root_volume v,
      eq_iff w "",
      eq_iff w v,
      eq_iff v "",
    )

-- A volume fits when its free bytes are known and cover the reserve and all that is taken of it.
abbrev pub Fits : Capacity → String → ℕ → Type 0
Fits capacity v taken =
    (free : ℕ) × (free_on v capacity.free_bytes_by_volume ≡ some free)
    × (capacity.minimum_free_bytes + taken ≤ free)

covers :
    (o : Option ℕ) (reserved requested minimum : ℕ)
    → lacks_space o reserved requested minimum ≡ false
    → (free : ℕ) × (o ≡ some free) × (minimum + (reserved + requested) ≤ free)
unfolding lacks_space
covers none reserved requested minimum h = cc
covers (some free) reserved requested minimum h = (free, refl, ground arith)

or_false : (a b : Bool) → (a || b) ≡ false → (a ≡ false) × (b ≡ false)
or_false a b h = ground arith

pub any_lacks_space-Fits :
    (v : String) (requested reserved : Volumes) (capacity : Capacity)
    → any_lacks_space requested reserved capacity ≡ false
    → has_volume v requested ≡ true
    → Fits capacity v (bytes_on v reserved + bytes_on v requested)
unfolding any_lacks_space bytes_on
any_lacks_space-Fits v [] reserved capacity h m = cc
any_lacks_space-Fits v ((w, n) ∷ rest) reserved capacity h m = elim (Bool-cases (w == v)) [
  | inl e ↦ rw e (
      subst (λ u. Fits capacity u (bytes_on u reserved + n)) ((eq_iff w v).0 e)
        (covers _ (bytes_on w reserved) n _ (or_false _ _ h).0))
  | inr e ↦ rw e (any_lacks_space-Fits v rest reserved capacity (or_false _ _ h).1 (rw e at m))
]
