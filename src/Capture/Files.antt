-- ===== src/Capture/Files.antt =====
-- The file operations that the capture uses: bytes at positions, as `FileHandle` documents them.
use mira_bridge.Base.{
  ℕ, zero, suc, ◌+◌, ◌-◌, ◌≤◌, ◌≡◌, refl, List, [], ◌∷◌, ◌++◌, length, take, drop, arith, take_all,
  drop_all,
}
use mathlib.Core.List.{append-nil}

zeros : ℕ → List ℕ
zeros zero = []
zeros (suc n) = 0 ∷ zeros n

-- `handle.write(bytes, 0, bytes.length, position)`: a gap before the position is filled with zeros.
unfoldable pub write_at : ℕ → List ℕ → List ℕ → List ℕ
unfolding zeros
write_at position bytes file =
    take position (file ++ zeros (position - length file))
    ++ (bytes ++ drop (position + length bytes) file)

-- `handle.truncate(size)`
unfoldable pub truncate : ℕ → List ℕ → List ℕ
unfolding zeros
truncate size file = take size (file ++ zeros (size - length file))

-- `handle.read(buffer, 0, count, position)`
unfoldable pub read_at : ℕ → ℕ → List ℕ → List ℕ
read_at position count file = take count (drop position file)

-- Writing at the end of the file appends.
pub write_at_end :
    (position : ℕ) (bytes file : List ℕ)
    → length file ≡ position
    → write_at position bytes file ≡ file ++ bytes
unfolding write_at
write_at_end position bytes file e =
    let none_missing : position - length file ≡ 0 = omega arith in
    rw
      (
        none_missing,
        append-nil,
        take_all position file (omega arith),
        drop_all (position + length bytes) file (omega arith),
        append-nil,
      )
      refl

-- Cutting a file that is long enough keeps its first bytes.
pub truncate_short :
    (size : ℕ) (file : List ℕ) → size ≤ length file → truncate size file ≡ take size file
unfolding truncate
truncate_short size file h =
    let none_missing : size - length file ≡ 0 = omega arith in rw (none_missing, append-nil) refl
