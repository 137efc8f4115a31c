-- ===== src/Updater/Bundle/Listing.antt =====
-- services/updater/src/bundle.rs: what `parse_sha256sum` and `compute_sha256` read.
use lokan_os.Prelude.{
  ℕ, String, ◌≡◌, sym, ap, ◌∙◌, ◌⊎◌, inl, inr, true, Bool, Option, Option-cases, some, none, List,
  [], ◌∷◌, ◌++◌, arith, length, ◌==◌, if-cases, ◌+◌,
}
use mathlib.Core.Option.{some-injective}
use mathlib.Core.List.{append_assoc, append-nil}
use lokan_os.Prelude.Text.{codes_eq, codes_eq-eq, trim, split_whitespace, lines}
use lokan_os.Prelude.Keys.{codes_key}
use lokan_os.Prelude.Dict.{Dict, get, insert, get-insert}
use lokan_os.Prelude.Result.{Result, ok, err, >>=-eq-ok, map_err}
use lokan_os.Updater.Bundle.Formats.{
  IoError, io_error, BundleError, Host, require, invalid_checksum_format,
}
use lokan_os.Updater.Bundle.Checksums.{
  is_digest, insert_new, parse_parts, parse_line, parse_lines, parse_sha256sum,
}
use lokan_os.Updater.Bundle.{hash_chunks, compute_sha256}

pub require-true : (t : Bool) (e : BundleError) (u : Unit {0}) → require t e ≡ ok u → t ≡ true
require-true t e u h = ground arith

ok-injective : {A : Type 0} (x y : A) → ◌≡◌ {A = Result BundleError A} (ok x) (ok y) → x ≡ y
ok-injective x y h = cc h

pub map_err-ok {ℓ κ ι} :
    {E : Type ℓ} {F : Type κ} {A : Type ι} (f : E → F) (r : Result E A) (x : A)
    → map_err f r ≡ ok x
    → r ≡ ok x
map_err-ok f (ok y) x h = ground arith
map_err-ok f (err e) x h = cc

module _ (lower : List ℕ → List ℕ) where
  -- These two words are a digest, in lower case as given here, and a path.
  abbrev pub IsEntry : List (List ℕ) → List ℕ → List ℕ → Type 0
  IsEntry words path digest =
      (spelled : List ℕ) × (words ≡ spelled ∷ path ∷ [])
      × (lower spelled ≡ digest)
      × (is_digest digest ≡ true)

  -- One of these lines has this entry.
  abbrev pub Listed : List (List ℕ) → List ℕ → List ℕ → Type 0
  Listed [] path digest = ⊥
  Listed (line ∷ rest) path digest =
      IsEntry (split_whitespace (trim line)) path digest ⊎ Listed rest path digest

  insert_new_lem :
      (n : ℕ) (path digest : List ℕ) (m m' : Dict (List ℕ) (List ℕ)) (k v : List ℕ)
      → insert_new lower n path digest m ≡ ok m'
      → get m' k ≡ some v
      → (get m k ≡ some v) ⊎ ((path ≡ k) × (digest ≡ v))
  unfolding insert_new
  insert_new_lem n path digest m m' k v h g = elim (Option-cases (get m path)) [
    | inr (old, there) ↦ absurd (cc (sym (ap chosen there) ∙ h))
    | inl fresh ↦
        let same : insert m path digest ≡ m' = cc (sym (ap chosen fresh) ∙ h) in
        if-cases (λ o. o ≡ some v → (get m k ≡ some v) ⊎ ((path ≡ k) × (digest ≡ v)))
          (codes_eq path k) (some digest) (get m k)
          (λ e is. inr (codes_eq-eq path k e, some-injective digest v is)) (λ e is. inl is)
          (sym (get-insert m path digest k) ∙ ap (λ x. get x k) same ∙ g)
  ]
    where
      chosen : Option (List ℕ) → Result BundleError (Dict (List ℕ) (List ℕ))
      chosen o = elim o [
        | none ↦ ok (insert m path digest)
        | some _ ↦ err (invalid_checksum_format n "duplicate entry")
      ]

  parse_parts_lem :
      (n : ℕ) (words : List (List ℕ)) (m m' : Dict (List ℕ) (List ℕ)) (k v : List ℕ)
      → parse_parts lower n words m ≡ ok m'
      → get m' k ≡ some v
      → (get m k ≡ some v) ⊎ IsEntry words k v
  unfolding parse_parts
  parse_parts_lem n [] m m' k v h g = absurd (cc h)
  parse_parts_lem n (a ∷ []) m m' k v h g = absurd (cc h)
  parse_parts_lem n (a ∷ b ∷ c ∷ words) m m' k v h g = absurd (cc h)
  parse_parts_lem n (a ∷ b ∷ []) m m' k v h g =
      let (u, digest, inserted) =
        >>=-eq-ok
          (require (is_digest (lower a)) (invalid_checksum_format n "invalid sha256 digest")) _ h in
      elim (insert_new_lem n b (lower a) m m' k v inserted g) [
        | inl old ↦ inl old
        | inr (same, is) ↦
            inr
              (a, ap (λ p. a ∷ p ∷ []) same, is, ap is_digest (sym is) ∙ require-true _ _ u digest)
      ]

  parse_line_lem :
      (n : ℕ) (line : List ℕ) (m m' : Dict (List ℕ) (List ℕ)) (k v : List ℕ)
      → parse_line lower n line m ≡ ok m'
      → get m' k ≡ some v
      → (get m k ≡ some v) ⊎ IsEntry (split_whitespace (trim line)) k v
  unfolding parse_line
  parse_line_lem n line m m' k v h g =
      if-cases (λ r. r ≡ ok m' → (get m k ≡ some v) ⊎ IsEntry (split_whitespace (trim line)) k v)
        (length (trim line) == 0) (ok m) (parse_parts lower n (split_whitespace (trim line)) m)
        (λ blank same. inl (ap (λ x. get x k) (ok-injective m m' same) ∙ g))
        (λ words parsed. parse_parts_lem n (split_whitespace (trim line)) m m' k v parsed g) h

  parse_lines_lem :
      (n : ℕ) (ls : List (List ℕ)) (m m' : Dict (List ℕ) (List ℕ)) (k v : List ℕ)
      → parse_lines lower n ls m ≡ ok m'
      → get m' k ≡ some v
      → (get m k ≡ some v) ⊎ Listed ls k v
  unfolding parse_lines
  parse_lines_lem n [] m m' k v h g = inl (ap (λ x. get x k) (ok-injective m m' h) ∙ g)
  parse_lines_lem n (line ∷ ls) m m' k v h g =
      let (mid, e, rest) = >>=-eq-ok (parse_line lower (n + 1) line m) _ h in
      elim (parse_lines_lem (n + 1) ls mid m' k v rest g) [
        | inr later ↦ inr (inr later)
        | inl there ↦ elim (parse_line_lem (n + 1) line m mid k v e there) [
          | inl before ↦ inl before
          | inr here ↦ inr (inl here)
        ]
      ]

  -- Each entry that the checksum file is read to have stands on one of its lines.
  pub parse_sha256sum-Listed :
      (contents : List ℕ) (entries : Dict (List ℕ) (List ℕ)) (path digest : List ℕ)
      → parse_sha256sum lower contents ≡ ok entries
      → get entries path ≡ some digest
      → Listed (lines contents) path digest
  unfolding parse_sha256sum get
  parse_sha256sum-Listed contents entries path digest h g =
      elim (parse_lines_lem 0 (lines contents) [] entries path digest h g) [
        | inl empty_map ↦ absurd (cc empty_map)
        | inr there ↦ there
      ]

-- What a file that is read piece by piece has: the pieces up to the first that is empty.
pub data Reads : List (Result IoError (List ℕ)) → List ℕ → Type 0 where
  all_read : Reads [] []
  stopped : (rest : List (Result IoError (List ℕ))) → Reads (ok [] ∷ rest) []
  more :
      (x : ℕ) (xs bytes : List ℕ) (rest : List (Result IoError (List ℕ)))
      → Reads rest bytes
      → Reads (ok (x ∷ xs) ∷ rest) ((x ∷ xs) ++ bytes)

module _ (host : Host) where
  hash_chunks-Reads :
      (fed digest : List ℕ) (reads : List (Result IoError (List ℕ)))
      → hash_chunks host fed reads ≡ ok digest
      → (bytes : List ℕ) × Reads reads bytes × (host.sha256_hex (fed ++ bytes) ≡ digest)
  unfolding hash_chunks
  hash_chunks-Reads fed digest [] h =
      ([], all_read, ap host.sha256_hex (append-nil fed) ∙ ok-injective _ _ h)
  hash_chunks-Reads fed digest (err e ∷ rest) h = absurd (cc h)
  hash_chunks-Reads fed digest (ok [] ∷ rest) h =
      ([], stopped rest, ap host.sha256_hex (append-nil fed) ∙ ok-injective _ _ h)
  hash_chunks-Reads fed digest (ok (x ∷ xs) ∷ rest) h =
      let (bytes, read, same) = hash_chunks-Reads (fed ++ (x ∷ xs)) digest rest h in
      (
        (x ∷ xs) ++ bytes,
        more x xs bytes rest read,
        ap host.sha256_hex (sym (append_assoc fed (x ∷ xs) bytes)) ∙ same,
      )

  -- This is the digest of what the file has.
  abbrev pub HasDigest : String → List ℕ → Type 0
  HasDigest path digest =
      (reads : List (Result IoError (List ℕ))) × (bytes : List ℕ) × (host.chunks path ≡ ok reads)
      × Reads reads bytes
      × (host.sha256_hex bytes ≡ digest)

  pub compute_sha256-HasDigest :
      (path : String) (digest : List ℕ)
      → compute_sha256 host path ≡ ok digest
      → HasDigest path digest
  unfolding compute_sha256
  compute_sha256-HasDigest path digest h =
      let (reads, opened, hashed) = >>=-eq-ok (map_err io_error (host.chunks path)) _ h in
      let (bytes, read, same) = hash_chunks-Reads [] digest reads hashed in
      (reads, bytes, map_err-ok io_error (host.chunks path) reads opened, read, same)
