-- ===== src/Updater/Bundle/Soundness.antt =====
-- services/updater/src/bundle.rs: what an accepted bundle is known to be.
use lokan_os.Prelude.{
  ℕ, String, ◌≡◌, refl, subst, ◌≢◌, Bool, true, false, not, none, some, List, [], ◌∷◌, length,
  arith, All, if◌then◌else◌, ◌==◌, any, all, str_eq, ==_iff,
}
use lokan_os.Prelude.Text.{lines, codes, codes_eq, codes_eq-eq}
use lokan_os.Prelude.Keys.{codes_key}
use lokan_os.Prelude.Dict.{Dict, get, remove, get-remove}
use lokan_os.Prelude.Result.{Result, ok, >>=-eq-ok, map_err}
use lokan_os.Updater.Bundle.Formats.{
  ManifestComponent, Manifest, BundleError, Pem, Host, require, invalid_checksum_encoding, io_error,
  bad_manifest, invalid_signature,
}
use lokan_os.Updater.Bundle.Checksums.{
  parse_sha256sum, least_key, validate_relative_path, is_absolute, is_inside, components,
}
use lokan_os.Updater.Bundle.{
  root_kind, component_kind, entry_of, compute_sha256, check_component, check_components,
  check_manifest, check_signature, verify,
}
use lokan_os.Updater.Bundle.Listing.{
  require-true, map_err-ok, Listed, parse_sha256sum-Listed, HasDigest, compute_sha256-HasDigest,
}

module _ (host : Host) where
  -- One component: its path stays inside the bundle, it is a file, the digest of all that is read of
  -- the file is the one that the manifest states, and so is the one in the checksum file.
  pub record IsGenuine (root : String) (entries : Dict (List ℕ) (List ℕ)) (c : ManifestComponent)
      : Type 0 where
    pub relative : is_absolute c.path ≡ false
    pub inside : all is_inside (components c.path) ≡ true
    pub file : host.is_file (host.join root c.path) ≡ ok true
    pub digest : HasDigest host (host.join root c.path) (host.lower c.sha256)
    pub listed :
        (entry : List ℕ) × (get entries c.path ≡ some entry)
        × (host.lower entry ≡ host.lower c.sha256)

  validate-true :
      (path : List ℕ) (u : Unit {0})
      → validate_relative_path path ≡ ok u
      → (is_absolute path ≡ false) × (all is_inside (components path) ≡ true)
  unfolding validate_relative_path
  validate-true path u h = (ground arith, ground arith)

  check_component-IsGenuine :
      (root : String) (entries rest : Dict (List ℕ) (List ℕ)) (c : ManifestComponent)
      → check_component host root entries c ≡ ok rest
      → IsGenuine root entries c × (rest ≡ remove entries c.path)
  unfolding check_component component_kind entry_of
  check_component-IsGenuine root entries rest c h =
      let (u1, v, h1) = >>=-eq-ok (validate_relative_path c.path) _ h in
      let (u2, k, h2) =
        >>=-eq-ok (component_kind host c.path (host.is_file (host.join root c.path))) _ h1 in
      let (entry, g, h3) = >>=-eq-ok (entry_of host c.path (get entries c.path)) _ h2 in
      let (u4, m, h4) =
        >>=-eq-ok (require (codes_eq (host.lower entry) (host.lower c.sha256)) _) _ h3 in
      let (actual, d, h5) = >>=-eq-ok (compute_sha256 host (host.join root c.path)) _ h4 in
      let (u6, n, h6) = >>=-eq-ok (require (codes_eq actual (host.lower c.sha256)) _) _ h5 in
      let m' = codes_eq-eq (host.lower entry) (host.lower c.sha256) (require-true _ _ u4 m) in
      let n' = codes_eq-eq actual (host.lower c.sha256) (require-true _ _ u6 n) in
      (
        record {
          relative = (validate-true c.path u1 v).0;
          inside = (validate-true c.path u1 v).1;
          file = ground arith;
          digest =
              subst (HasDigest host (host.join root c.path)) n'
                (compute_sha256-HasDigest host (host.join root c.path) actual d);
          listed = (entry, ground arith, m');
        },
        cc h6,
      )

  -- Some component has this path.
  abbrev pub names : List ManifestComponent → List ℕ → Bool
  names cs path = any (λ c. codes_eq c.path path) cs

  IsGenuine-remove :
      (root : String) (entries : Dict (List ℕ) (List ℕ)) (path : List ℕ) (c : ManifestComponent)
      → IsGenuine root (remove entries path) c
      → IsGenuine root entries c
  IsGenuine-remove root entries path c g = record {
    relative = g.relative;
    inside = g.inside;
    file = g.file;
    digest = g.digest;
    listed = (g.listed.0, ground (arith, get-remove entries path c.path, g.listed.1), g.listed.2);
  }

  All-remove :
      (root : String) (entries : Dict (List ℕ) (List ℕ)) (path : List ℕ)
      (cs : List ManifestComponent)
      → All (IsGenuine root (remove entries path)) cs
      → All (IsGenuine root entries) cs
  All-remove root entries path [] h = tt
  All-remove root entries path (c ∷ cs) h =
      (IsGenuine-remove root entries path c h.0, All-remove root entries path cs h.1)

  check_components-IsGenuine :
      (root : String) (entries rest : Dict (List ℕ) (List ℕ)) (cs : List ManifestComponent)
      → check_components host root entries cs ≡ ok rest
      → All (IsGenuine root entries) cs
        × ((k : List ℕ) → get rest k ≡ (if names cs k then none else get entries k))
  unfolding check_components
  check_components-IsGenuine root entries rest [] h = (tt, λ k. cc)
  check_components-IsGenuine root entries rest (c ∷ cs) h =
      let (mid, e, h1) = >>=-eq-ok (check_component host root entries c) _ h in
      let (g, r) = check_component-IsGenuine root entries mid c e in
      let (gs, left) = check_components-IsGenuine root mid rest cs h1 in
      (
        (g, All-remove root entries c.path cs (rw r at gs)),
        λ k. ground (arith, left k, r, get-remove entries c.path k),
      )

  get-least_key : (m : Dict (List ℕ) (List ℕ)) (k : List ℕ) → least_key m ≡ none → get m k ≡ none
  unfolding least_key get
  get-least_key [] k h = refl
  get-least_key ((j, v) ∷ m) k h = ground arith

  -- What holds of a bundle whose checksum file has the bytes `checksum_bytes`.
  pub record Accepted (root : String) (m : Manifest) (checksum_bytes : List ℕ) : Type 0 where
    pub text : List ℕ
    pub decoded : host.from_utf8 checksum_bytes ≡ ok text
    pub entries : Dict (List ℕ) (List ℕ)
    pub parsed : parse_sha256sum host.lower text ≡ ok entries
    pub stated :
        (path digest : List ℕ)
        → get entries path ≡ some digest
        → Listed host.lower (lines text) path digest
    pub genuine : All (IsGenuine root entries) m.components
    pub exact :
        (path digest : List ℕ) → get entries path ≡ some digest → names m.components path ≡ true

  check_manifest-Accepted :
      (root : String) (m : Manifest) (checksum_bytes : List ℕ) (u : Unit {0})
      → check_manifest host root m checksum_bytes ≡ ok u
      → Accepted root m checksum_bytes
  unfolding check_manifest
  check_manifest-Accepted root m checksum_bytes u h =
      let (text, d, h1) =
        >>=-eq-ok (map_err invalid_checksum_encoding (host.from_utf8 checksum_bytes)) _ h in
      let (entries, p, h2) = >>=-eq-ok (parse_sha256sum host.lower text) _ h1 in
      let (rest, c, h3) = >>=-eq-ok (check_components host root entries m.components) _ h2 in
      let (gs, left) = check_components-IsGenuine root entries rest m.components c in
      record {
        text = text;
        decoded = ground arith;
        entries = entries;
        parsed = p;
        stated = λ path digest e. parse_sha256sum-Listed host.lower text entries path digest p e;
        genuine = gs;
        exact = λ path digest e. ground (arith, left path, get-least_key rest path (ground arith));
      }

  -- The file sig/signature.pem is a PEM text of its label, and its 64 bytes verify.
  pub record Signed (root : String) (key message : List ℕ) : Type 0 where
    pub bytes : List ℕ
    pub pem : Pem
    pub stored : host.read (host.join root (codes "sig/signature.pem")) ≡ ok bytes
    pub parsed : host.parse_pem bytes ≡ ok pem
    pub labelled : str_eq pem.tag "ED25519 SIGNATURE" ≡ true
    pub long : length pem.contents ≡ 64
    pub verified : host.verify_signature key message pem.contents ≡ true

  check_signature-Signed :
      (root : String) (key checksum_bytes : List ℕ) (u : Unit {0})
      → check_signature host root key checksum_bytes ≡ ok u
      → Signed root key checksum_bytes
  unfolding check_signature
  check_signature-Signed root key checksum_bytes u h =
      let (bytes, r, h1) =
        >>=-eq-ok (map_err io_error (host.read (host.join root (codes "sig/signature.pem")))) _ h in
      let (pem, p, h2) = >>=-eq-ok (map_err invalid_signature (host.parse_pem bytes)) _ h1 in
      let (u3, t, h3) = >>=-eq-ok (require (str_eq pem.tag "ED25519 SIGNATURE") _) _ h2 in
      let (u4, l, h4) = >>=-eq-ok (require (length pem.contents == 64) _) _ h3 in
      record {
        bytes = bytes;
        pem = pem;
        stored =
            map_err-ok io_error (host.read (host.join root (codes "sig/signature.pem"))) bytes r;
        parsed = map_err-ok invalid_signature (host.parse_pem bytes) pem p;
        labelled = require-true _ _ u3 t;
        long = (==_iff _ _).0 (require-true _ _ u4 l);
        verified = require-true _ _ u h4;
      }

  Accepted-of_eq :
      (root : String) (manifest m : Manifest) (checksum_bytes : List ℕ)
      → manifest ≡ m
      → Accepted root manifest checksum_bytes
      → Accepted root m checksum_bytes
  Accepted-of_eq root manifest m checksum_bytes e a =
      subst (λ x. Accepted root x checksum_bytes) e a

  components-ne-nil :
      (manifest m : Manifest)
      → manifest ≡ m
      → not (length manifest.components == 0) ≡ true
      → m.components ≢ []
  components-ne-nil manifest m e n = λ z. ground arith

  ok-injective : (x y : Manifest) → ◌≡◌ {A = Result BundleError Manifest} (ok x) (ok y) → x ≡ y
  ok-injective x y h = ground arith

  -- A bundle that `verify` accepts has a manifest with components, each of them genuine. Its checksum
  -- file sig/sha256sum, whose entries stand on its lines with digests of 64 hexadecimal digits, lists
  -- these components and no others. And sig/signature.pem is a PEM text with the label ED25519
  -- SIGNATURE whose 64 bytes verify against the bytes of the checksum file under the verifier's key.
  pub verify_sound :
      (key : List ℕ) (root : String) (m : Manifest)
      → verify host key root ≡ ok m
      → (checksum_bytes : List ℕ) × (host.read (host.join root (codes "sig/sha256sum"))
          ≡ ok checksum_bytes)
        × (m.components ≢ [])
        × Accepted root m checksum_bytes
        × Signed root key checksum_bytes
  unfolding verify
  verify_sound key root m h =
      let (u0, k, h0) = >>=-eq-ok (root_kind host root (host.is_dir root)) _ h in
      let (bytes, r, h1) =
        >>=-eq-ok (map_err io_error (host.read (host.join root (codes "manifest.json")))) _ h0 in
      let (manifest, p, h2) = >>=-eq-ok (map_err bad_manifest (host.parse_manifest bytes)) _ h1 in
      let (u3, n, h3) = >>=-eq-ok (require (not (length manifest.components == 0)) _) _ h2 in
      let (cb, c, h4) =
        >>=-eq-ok (map_err io_error (host.read (host.join root (codes "sig/sha256sum")))) _ h3 in
      let (u5, a, h5) = >>=-eq-ok (check_manifest host root manifest cb) _ h4 in
      let (u6, s, h6) = >>=-eq-ok (check_signature host root key cb) _ h5 in
      let same : manifest ≡ m = ok-injective manifest m h6 in
      (
        cb,
        map_err-ok io_error (host.read (host.join root (codes "sig/sha256sum"))) cb c,
        components-ne-nil manifest m same (require-true _ _ u3 n),
        Accepted-of_eq root manifest m cb same (check_manifest-Accepted root manifest cb u5 a),
        check_signature-Signed root key cb u6 s,
      )
