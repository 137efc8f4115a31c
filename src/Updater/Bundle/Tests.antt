-- ===== src/Updater/Bundle/Tests.antt =====
-- services/updater/src/bundle.rs: a small bundle.
use lokan_os.Prelude.{
  ℕ, ◌&&◌, String, ◌≡◌, ◌≢◌, refl, true, List, [], ◌∷◌, ◌++◌, str_eq, if◌then◌else◌,
}
use lokan_os.Prelude.Text.{codes, codes_eq, trim, split_whitespace, lines, pieces}
use lokan_os.Prelude.Dict.{get, insert, remove}
use lokan_os.Prelude.Result.{Result, ok, err}
use lokan_os.Updater.Slots.{b}
use lokan_os.Updater.Bundle.Formats.{IoError, not_found, Manifest, Host}
use lokan_os.Updater.Bundle.Checksums.{
  parse_sha256sum, parse_lines, parse_line, validate_relative_path, components, least_key,
}
use lokan_os.Updater.Bundle.{
  verify, root_kind, component_kind, entry_of, check_component, check_components, check_manifest,
  check_signature, compute_sha256, hash_chunks,
}
use lokan_os.Updater.Bundle.Soundness.{Accepted, Signed, verify_sound}

-- Sixty-four times the letter a.
abbrev digest_a : List ℕ
digest_a = codes "aaaaaaaaaaaaaaaaaaaaaaaaaaaaaaaaaaaaaaaaaaaaaaaaaaaaaaaaaaaaaaaa"

abbrev one_part : Manifest
one_part = record {
  version = "2.0";
  build_sha = "abc";
  created_at = 0;
  target_slot = b;
  components = record { name = "app"; path = codes "app"; sha256 = digest_a } ∷ [];
}

abbrev sums : List ℕ
sums = digest_a ++ codes "  app"

abbrev file_at : String → Result IoError (List ℕ)
file_at path =
    if str_eq path "sig/sha256sum"
    then ok sums
    else if str_eq path "manifest.json"
    then ok (codes "{}")
    else if str_eq path "sig/signature.pem"
    then ok (codes "pem")
    else err not_found

abbrev joined : String → List ℕ → String
joined root path =
    if codes_eq path (codes "sig/sha256sum")
    then "sig/sha256sum"
    else if codes_eq path (codes "manifest.json")
    then "manifest.json"
    else if codes_eq path (codes "sig/signature.pem")
    then "sig/signature.pem"
    else "app"

-- The libraries for this bundle alone: any digest is the letter a, and any signature of the sums
-- verifies under the key 1.
abbrev desk : Host
desk = record {
  lower = λ s. s;
  join = joined;
  is_dir = λ p. ok true;
  is_file = λ p. ok (str_eq p "app");
  read = file_at;
  chunks = λ p. ok (ok (1 ∷ 2 ∷ []) ∷ ok [] ∷ []);
  sha256_hex = λ s. digest_a;
  parse_manifest = λ s. ok one_part;
  from_utf8 = λ s. ok s;
  parse_pem = λ s. ok record { tag = "ED25519 SIGNATURE"; contents = digest_a };
  verify_signature = λ key message signature. codes_eq key (1 ∷ []) && codes_eq message sums;
}

verify-one_part : verify desk (1 ∷ []) "bundle" ≡ ok one_part
unfolding verify root_kind component_kind entry_of check_component check_components check_manifest
    check_signature compute_sha256 hash_chunks parse_sha256sum parse_lines parse_line lines trim
    split_whitespace pieces validate_relative_path components least_key get insert remove
verify-one_part = refl

verify_sound_example :
    (checksum_bytes : List ℕ) × (desk.read (desk.join "bundle" (codes "sig/sha256sum"))
      ≡ ok checksum_bytes)
    × (one_part.components ≢ [])
    × Accepted desk "bundle" one_part checksum_bytes
    × Signed desk "bundle" (1 ∷ []) checksum_bytes
verify_sound_example = verify_sound desk (1 ∷ []) "bundle" one_part verify-one_part
