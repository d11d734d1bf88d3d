-- ===== src/Transfers/Manifest.antt =====
-- The manifest of a directory: `summarizeManifest`, `validateManifestSummary` and
-- `assertManifestMatches`. The hash of a manifest is a parameter. A summary's numbers are natural, so that
-- what is no integer or negative is refused before.
use mira_bridge.Base.{
  ℕ, ◌≤◌, String, Bool, true, false, Option, List, [], ◌∷◌, ◌==◌, ◌&&◌, ◌||◌, not, eqb, ltb, length,
  count_by, sum_by, if◌then◌else◌, Result, ok, err, ◌≡◌, arith, eq_iff,
}
use mira_bridge.Transfers.{Failure, failed}

pub data EntryType : Type 0 where
  of_file of_directory : EntryType

pub record ManifestEntry : Type 0 where
  pub path : String
  pub entry_type : EntryType
  pub size : ℕ
  pub sha256 : Option String

pub record ManifestSummary : Type 0 where
  pub entries : ℕ
  pub files : ℕ
  pub total_file_bytes : ℕ

abbrev is_file : ManifestEntry → Bool
is_file e = elim e.entry_type [ of_file ↦ true | of_directory ↦ false ]

unfoldable pub summarize_manifest : List ManifestEntry → ManifestSummary
summarize_manifest manifest = record {
  entries = length manifest;
  files = count_by is_file manifest;
  total_file_bytes = sum_by (λ e. e.size) manifest;
}

abbrev pub max_directory_transfer_entries : ℕ
max_directory_transfer_entries = 250000

abbrev pub max_safe_integer : ℕ
max_safe_integer = 9007199254740991

unfoldable pub validate_manifest_summary : ManifestSummary → Result Failure ManifestSummary
validate_manifest_summary s =
    if ltb max_safe_integer s.entries || ltb max_directory_transfer_entries s.entries
    then err failed
    else if ltb max_safe_integer s.files || ltb s.entries s.files
    then err failed
    else if ltb max_safe_integer s.total_file_bytes
    then err failed
    else ok s

abbrev same_summary : ManifestSummary → ManifestSummary → Bool
same_summary a b =
    eqb a.entries b.entries && (eqb a.files b.files && eqb a.total_file_bytes b.total_file_bytes)

unfoldable pub assert_manifest_matches :
    (List ManifestEntry → String)
    → List ManifestEntry
    → String
    → ManifestSummary
    → Result Failure ManifestSummary
unfolding summarize_manifest
assert_manifest_matches hash actual expected_hash expected_summary =
    if not (hash actual == expected_hash)
    then err failed
    else if not (same_summary (summarize_manifest actual) expected_summary)
    then err failed
    else ok (summarize_manifest actual)

files_within : (manifest : List ManifestEntry) → count_by is_file manifest ≤ length manifest
files_within [] = omega arith
files_within (e ∷ manifest) = ground (arith, files_within manifest)

-- The summary of a manifest within the limits is valid.
pub validate_manifest_summary-summarize_manifest :
    (manifest : List ManifestEntry)
    → length manifest ≤ max_directory_transfer_entries
    → sum_by (λ e. e.size) manifest ≤ max_safe_integer
    → validate_manifest_summary (summarize_manifest manifest) ≡ ok (summarize_manifest manifest)
unfolding validate_manifest_summary summarize_manifest
validate_manifest_summary-summarize_manifest manifest few small =
    ground (arith, few, small, files_within manifest)

-- A directory matches the hash and the summary of its own manifest.
pub assert_manifest_matches_itself :
    (hash : List ManifestEntry → String) (manifest : List ManifestEntry)
    → assert_manifest_matches hash manifest (hash manifest) (summarize_manifest manifest)
      ≡ ok (summarize_manifest manifest)
unfolding assert_manifest_matches summarize_manifest
assert_manifest_matches_itself hash manifest =
    ground (arith, eq_iff (hash manifest) (hash manifest))
