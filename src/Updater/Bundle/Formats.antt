-- ===== src/Updater/Bundle/Formats.antt =====
-- services/updater/src/bundle.rs: manifests, errors, and what the verifier takes from libraries.
use lokan_os.Prelude.{ℕ, String, Bool, true, false, List}
use lokan_os.Prelude.Result.{Result, ok, err}
use lokan_os.Updater.Slots.{Slot}

pub data IoError : Type 0 where
  not_found : IoError
  other_error : String → IoError

pub record ManifestComponent : Type 0 where
  pub name : String
  pub path : List ℕ
  pub sha256 : List ℕ

pub record Manifest : Type 0 where
  pub version : String
  pub build_sha : String
  pub created_at : ℕ  -- a chrono time
  pub target_slot : Slot
  pub components : List ManifestComponent

-- `missing` is the source's NotFound, `bad_manifest` its Manifest.
pub data BundleError : Type 0 where
  missing : String → BundleError
  not_directory : String → BundleError
  io_error : IoError → BundleError
  bad_manifest : String → BundleError
  empty_components : BundleError
  invalid_component_path : List ℕ → BundleError
  missing_component_file : List ℕ → BundleError
  missing_checksum_entry : List ℕ → BundleError
  checksum_mismatch : (path expected actual : List ℕ) → BundleError
  unexpected_checksum_entry : List ℕ → BundleError
  invalid_checksum_format : (line : ℕ) → (details : String) → BundleError
  invalid_checksum_encoding : String → BundleError
  invalid_signature : String → BundleError
  unexpected_signature_label : BundleError
  invalid_signature_length : BundleError
  signature_mismatch : BundleError

pub record Pem : Type 0 where
  pub tag : String
  pub contents : List ℕ

-- `is_dir` and `is_file` are `fs::metadata` with the test of the kind. `chunks` are the results of
-- the reads of an opened file. `sha256_hex` is the digest of all that the hasher was fed.
pub record Host : Type 0 where
  pub lower : List ℕ → List ℕ
  pub join : String → List ℕ → String
  pub is_dir : String → Result IoError Bool
  pub is_file : String → Result IoError Bool
  pub read : String → Result IoError (List ℕ)
  pub chunks : String → Result IoError (List (Result IoError (List ℕ)))
  pub sha256_hex : List ℕ → List ℕ
  pub parse_manifest : List ℕ → Result String Manifest
  pub from_utf8 : List ℕ → Result String (List ℕ)
  pub parse_pem : List ℕ → Result String Pem
  pub verify_signature : (key message signature : List ℕ) → Bool

abbrev pub require : Bool → BundleError → Result BundleError (Unit {0})
require true e = ok tt
require false e = err e
