-- ===== src/OasBundle/Lookups.antt =====
-- tools/oas-bundle.rs: what stands under two keys of the bundle.
use lokan_os.Prelude.{
  ◌&&◌, Option, some, if◌then◌else◌, ◌≡◌, refl, arith, inl, inr, Bool-cases, Option-cases,
}
use lokan_os.Prelude.Text.{Text, codes_eq}
use lokan_os.Prelude.Keys.{codes_eq_iff, codes_eq_refl}
use lokan_os.OasBundle.Values.{Yaml, IndexMap, Unicode, and_then}
use lokan_os.OasBundle.{Nested, Entries, bucket_of}

module _ (yaml : Yaml) (index : (V : Type 0) → IndexMap V) (unicode : Unicode) where
  open yaml use {Value}

  -- What stands under two keys, such as a path and a method.
  abbrev pub value_at : Nested yaml index unicode → Text → Text → Option Value
  value_at combined p m =
      and_then ((index (Entries yaml index unicode)).get combined p)
        (λ bucket. (index Value).get bucket m)

  -- So too while the bucket of a path is filled.
  abbrev pub look_in :
      Nested yaml index unicode → Text → Entries yaml index unicode → Text → Text → Option Value
  look_in combined path bucket p m =
      if codes_eq path p then (index Value).get bucket m else value_at combined p m

  get-bucket_of :
      (combined : Nested yaml index unicode) (p m : Text)
      → (index Value).get (bucket_of yaml index unicode combined p) m ≡ value_at combined p m
  get-bucket_of combined p m =
      elim (Option-cases ((index (Entries yaml index unicode)).get combined p)) [
        | inl missing ↦ rw missing ((index Value).get-empty m)
        | inr (bucket, there) ↦ rw there refl
      ]

  pub look_in-bucket_of :
      (combined : Nested yaml index unicode) (path p m : Text)
      → look_in combined path (bucket_of yaml index unicode combined path) p m
        ≡ value_at combined p m
  look_in-bucket_of combined path p m = elim (Bool-cases (codes_eq path p)) [
    | inl same ↦ rw ((codes_eq_iff path p).0 same, codes_eq_refl p) (get-bucket_of combined p m)
    | inr other ↦ rw other refl
  ]

  pub value_at-insert :
      (combined : Nested yaml index unicode) (path : Text) (bucket : Entries yaml index unicode)
      (p m : Text)
      → value_at ((index (Entries yaml index unicode)).insert combined path bucket) p m
        ≡ look_in combined path bucket p m
  value_at-insert combined path bucket p m =
      rw ((index (Entries yaml index unicode)).get-insert combined path bucket p) (ground arith)

  pub look_in-insert :
      (combined : Nested yaml index unicode) (path : Text) (bucket : Entries yaml index unicode)
      (method : Text) (value : Value) (p m : Text)
      → look_in combined path ((index Value).insert bucket method value) p m ≡ (
          if codes_eq path p && codes_eq method m
          then some value
          else look_in combined path bucket p m)
  look_in-insert combined path bucket method value p m =
      ground (arith, (index Value).get-insert bucket method value m)
