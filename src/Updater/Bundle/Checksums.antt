-- ===== src/Updater/Bundle/Checksums.antt =====
-- services/updater/src/bundle.rs: `parse_sha256sum` and `validate_relative_path`.
use lokan_os.Prelude.{
  ℕ, ◌+◌, Bool, true, false, ◌&&◌, Option, none, some, List, [], ◌∷◌, length, all, if◌then◌else◌,
  ◌==◌,
}
use lokan_os.Prelude.Text.{
  codes, codes_eq, codes_lt, byte_len, is_ascii_hexdigit, trim, split_whitespace, lines, pieces,
}
use lokan_os.Prelude.Keys.{codes_key}
use lokan_os.Prelude.Dict.{Dict, get, insert}
use lokan_os.Prelude.Result.{Result, ok, err, ◌>>=◌, ◌>>◌}
use lokan_os.Updater.Bundle.Formats.{
  BundleError, invalid_component_path, invalid_checksum_format, require,
}

abbrev pub is_digest : List ℕ → Bool
is_digest digest = byte_len digest == 64 && all is_ascii_hexdigit digest

module _ (lower : List ℕ → List ℕ) where
  -- map.insert(path, digest), which must not replace an entry. `details` of a duplicate names the
  -- path in the source; the text is not modelled.
  unfoldable pub insert_new :
      ℕ → List ℕ → List ℕ → Dict (List ℕ) (List ℕ) → Result BundleError (Dict (List ℕ) (List ℕ))
  insert_new line path digest m = elim (get m path) [
    | none ↦ ok (insert m path digest)
    | some _ ↦ err (invalid_checksum_format line "duplicate entry")
  ]

  unfoldable pub parse_parts :
      ℕ → List (List ℕ) → Dict (List ℕ) (List ℕ) → Result BundleError (Dict (List ℕ) (List ℕ))
  unfolding insert_new
  parse_parts line (digest ∷ path ∷ []) m = do
    require (is_digest (lower digest)) (invalid_checksum_format line "invalid sha256 digest")
    insert_new line path (lower digest) m
  parse_parts line _ m = err (invalid_checksum_format line "expected '<sha256> <path>'")

  unfoldable pub parse_line :
      ℕ → List ℕ → Dict (List ℕ) (List ℕ) → Result BundleError (Dict (List ℕ) (List ℕ))
  unfolding parse_parts trim split_whitespace
  parse_line line text m =
      if length (trim text) == 0 then ok m else parse_parts line (split_whitespace (trim text)) m

  unfoldable pub parse_lines :
      ℕ → List (List ℕ) → Dict (List ℕ) (List ℕ) → Result BundleError (Dict (List ℕ) (List ℕ))
  parse_lines index [] m = ok m
  parse_lines index (text ∷ rest) m = do
    m' ← parse_line (index + 1) text m
    parse_lines (index + 1) rest m'

  unfoldable pub parse_sha256sum : List ℕ → Result BundleError (Dict (List ℕ) (List ℕ))
  unfolding parse_lines lines
  parse_sha256sum contents = parse_lines 0 (lines contents) []

-- The first key of a BTreeMap is the least one.
abbrev lesser : List ℕ → Option (List ℕ) → Option (List ℕ)
lesser k none = some k
lesser k (some j) = some (if codes_lt j k then j else k)

unfoldable pub least_key : Dict (List ℕ) (List ℕ) → Option (List ℕ)
least_key [] = none
least_key ((k, v) ∷ m) = lesser k (least_key m)

-- std::path::Component on Unix
pub data Component : Type 0 where
  cur_dir parent_dir : Component
  normal : List ℕ → Component

abbrev is_slash : ℕ → Bool
is_slash c = c == b'/'

-- A `.` counts only where it begins the path.
abbrev component : Bool → List ℕ → List Component → List Component
component first piece rest =
    if codes_eq piece (codes ".")
    then (if first then cur_dir ∷ rest else rest)
    else if codes_eq piece (codes "..")
    then parent_dir ∷ rest
    else normal piece ∷ rest

components_of : Bool → List (List ℕ) → List Component
components_of first [] = []
components_of first (piece ∷ rest) = component first piece (components_of false rest)

-- Path::components of a relative path
unfoldable pub components : List ℕ → List Component
unfolding components_of pieces
components path = components_of true (pieces is_slash [] path)

abbrev pub is_absolute : List ℕ → Bool
is_absolute [] = false
is_absolute (c ∷ path) = is_slash c

abbrev pub is_inside : Component → Bool
is_inside parent_dir = false
is_inside _ = true

unfoldable pub validate_relative_path : List ℕ → Result BundleError (Unit {0})
validate_relative_path path =
    if is_absolute path
    then err (invalid_component_path path)
    else require (all is_inside (components path)) (invalid_component_path path)
