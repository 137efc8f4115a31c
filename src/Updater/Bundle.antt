-- ===== src/Updater/Bundle.antt =====
-- services/updater/src/bundle.rs: `FilesystemBundleVerifier`. The file system, `serde_json`, `pem`,
-- SHA-256, Ed25519 and Unicode lower case are the host's. Texts that are taken apart are lists of
-- code points.
pub mod Checksums
pub mod Formats
pub mod Listing
pub mod Soundness
mod Tests
use lokan_os.Prelude.{
  ℕ, String, Bool, true, false, not, Option, none, some, List, [], ◌∷◌, ◌++◌, length, str_eq,
  if◌then◌else◌, ◌==◌,
}
use lokan_os.Prelude.Text.{codes, codes_eq}
use lokan_os.Prelude.Keys.{codes_key}
use lokan_os.Prelude.Dict.{Dict, get, remove}
use lokan_os.Prelude.Result.{Result, ok, err, ◌>>=◌, ◌>>◌, map_err}
use lokan_os.Updater.Bundle.Formats.{
  IoError, not_found, other_error, ManifestComponent, Manifest, BundleError, missing, not_directory,
  io_error, bad_manifest, empty_components, missing_component_file, missing_checksum_entry,
  checksum_mismatch, unexpected_checksum_entry, invalid_checksum_encoding, invalid_signature,
  unexpected_signature_label, invalid_signature_length, signature_mismatch, Pem, Host, require,
}
use lokan_os.Updater.Bundle.Checksums.{parse_sha256sum, least_key, validate_relative_path}

module _ (host : Host) where
  open host use {
    lower, join, is_dir, is_file, read, chunks, sha256_hex, parse_manifest, from_utf8, parse_pem,
    verify_signature,
  }

  abbrev io {ℓ} : {A : Type ℓ} → Result IoError A → Result BundleError A
  io r = map_err io_error r

  -- The loop of compute_sha256 over what the reads return: it ends at the first empty read.
  pub hash_chunks : List ℕ → List (Result IoError (List ℕ)) → Result BundleError (List ℕ)
  hash_chunks fed [] = ok (sha256_hex fed)
  hash_chunks fed (err e ∷ rest) = err (io_error e)
  hash_chunks fed (ok [] ∷ rest) = ok (sha256_hex fed)
  hash_chunks fed (ok (x ∷ xs) ∷ rest) = hash_chunks (fed ++ (x ∷ xs)) rest

  pub compute_sha256 : String → Result BundleError (List ℕ)
  compute_sha256 path = do opened ← io (chunks path); hash_chunks [] opened

  pub root_kind : String → Result IoError Bool → Result BundleError (Unit {0})
  root_kind path (ok true) = ok tt
  root_kind path (ok false) = err (not_directory path)
  root_kind path (err not_found) = err (missing path)
  root_kind path (err (other_error e)) = err (io_error (other_error e))

  pub component_kind : List ℕ → Result IoError Bool → Result BundleError (Unit {0})
  component_kind path (ok true) = ok tt
  component_kind path (ok false) = err (missing_component_file path)
  component_kind path (err not_found) = err (missing_component_file path)
  component_kind path (err (other_error e)) = err (io_error (other_error e))

  pub entry_of : List ℕ → Option (List ℕ) → Result BundleError (List ℕ)
  entry_of path none = err (missing_checksum_entry path)
  entry_of path (some digest) = ok digest

  -- One round of the loop over the components; it takes the component's entry off the map.
  pub check_component :
      String
      → Dict (List ℕ) (List ℕ)
      → ManifestComponent
      → Result BundleError (Dict (List ℕ) (List ℕ))
  check_component root entries c = do
    validate_relative_path c.path
    component_kind c.path (is_file (join root c.path))
    let expected = lower c.sha256
    entry ← entry_of c.path (get entries c.path)
    require (codes_eq (lower entry) expected) (checksum_mismatch c.path expected entry)
    actual ← compute_sha256 (join root c.path)
    require (codes_eq actual expected) (checksum_mismatch c.path expected actual)
    ok (remove entries c.path)

  pub check_components :
      String
      → Dict (List ℕ) (List ℕ)
      → List ManifestComponent
      → Result BundleError (Dict (List ℕ) (List ℕ))
  check_components root entries [] = ok entries
  check_components root entries (c ∷ cs) = do
    rest ← check_component root entries c
    check_components root rest cs

  no_entries : Option (List ℕ) → Result BundleError (Unit {0})
  no_entries none = ok tt
  no_entries (some path) = err (unexpected_checksum_entry path)

  pub check_manifest : String → Manifest → List ℕ → Result BundleError (Unit {0})
  unfolding no_entries
  check_manifest root manifest checksum_bytes = do
    text ← map_err invalid_checksum_encoding (from_utf8 checksum_bytes)
    entries ← parse_sha256sum lower text
    rest ← check_components root entries manifest.components
    no_entries (least_key rest)

  pub check_signature : String → List ℕ → List ℕ → Result BundleError (Unit {0})
  check_signature root key checksum_bytes = do
    signature_bytes ← io (read (join root (codes "sig/signature.pem")))
    pem ← map_err invalid_signature (parse_pem signature_bytes)
    require (str_eq pem.tag "ED25519 SIGNATURE") unexpected_signature_label
    require (length pem.contents == 64) invalid_signature_length
    require (verify_signature key checksum_bytes pem.contents) signature_mismatch

  -- FilesystemBundleVerifier::verify, with the verifier's key.
  pub verify : List ℕ → String → Result BundleError Manifest
  verify key root = do
    root_kind root (is_dir root)
    manifest_bytes ← io (read (join root (codes "manifest.json")))
    manifest ← map_err bad_manifest (parse_manifest manifest_bytes)
    require (not (length manifest.components == 0)) empty_components
    checksum_bytes ← io (read (join root (codes "sig/sha256sum")))
    check_manifest root manifest checksum_bytes
    check_signature root key checksum_bytes
    ok manifest
