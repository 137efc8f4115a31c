-- ===== src/Bus/Maps.antt =====
-- What is in a `DashMap` after a change.
use lokan_os.Prelude.{◌≡◌, ◌≢◌, none, some, arith, ◌⊎◌, inl, inr, Bool-cases}
use lokan_os.Prelude.Text.{Text, codes_eq}
use lokan_os.Prelude.Keys.{codes_eq_iff}
use lokan_os.Bus.Tokio.{DashMap}

module _ {V : Type 0} (maps : DashMap V) where
  pub get-insert_cases :
      (m : maps.Map) (k : Text) (v : V) (j : Text) (w : V)
      → maps.get (maps.insert m k v) j ≡ some w
      → ((k ≡ j) × (w ≡ v)) ⊎ ((k ≢ j) × (maps.get m j ≡ some w))
  get-insert_cases m k v j w h = elim (Bool-cases (codes_eq k j)) [
    | inl same ↦ inl ((codes_eq_iff k j).0 same, ground (arith, maps.get-insert m k v j))
    | inr other ↦ inr (ground (arith, codes_eq_iff k j), ground (arith, maps.get-insert m k v j))
  ]

  pub get-remove_cases :
      (m : maps.Map) (k j : Text) (w : V)
      → maps.get (maps.remove m k) j ≡ some w
      → (k ≢ j) × (maps.get m j ≡ some w)
  get-remove_cases m k j w h = elim (Bool-cases (codes_eq k j)) [
    | inl same ↦ absurd (ground (arith, maps.get-remove m k j))
    | inr other ↦ (ground (arith, codes_eq_iff k j), ground (arith, maps.get-remove m k j))
  ]

  pub get-insert_other :
      (m : maps.Map) (k : Text) (v : V) (j : Text)
      → k ≢ j
      → maps.get (maps.insert m k v) j ≡ maps.get m j
  get-insert_other m k v j h = ground (arith, maps.get-insert m k v j, codes_eq_iff k j)

  pub get-remove_other :
      (m : maps.Map) (k j : Text) → k ≢ j → maps.get (maps.remove m k) j ≡ maps.get m j
  get-remove_other m k j h = ground (arith, maps.get-remove m k j, codes_eq_iff k j)

  pub get-insert_self : (m : maps.Map) (k : Text) (v : V) → maps.get (maps.insert m k v) k ≡ some v
  get-insert_self m k v = ground (arith, maps.get-insert m k v k, codes_eq_iff k k)

  pub get-remove_self : (m : maps.Map) (k : Text) → maps.get (maps.remove m k) k ≡ none
  get-remove_self m k = ground (arith, maps.get-remove m k k, codes_eq_iff k k)
