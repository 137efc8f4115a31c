-- ===== src/Prelude/Dict.antt =====
-- Rust's maps as association lists. A `HashMap` fixes no order of iteration, so the theorems about
-- loops over a map range over every list of entries.
use mathlib.Core.Path.{◌≡◌, refl, ap, ◌∙◌}
use mathlib.Core.Logic.{inl, inr}
use mathlib.Core.Bool.{Bool, true, false, not, ◌&&◌, ◌||◌}
use mathlib.Core.Option.{Option, none, some}
use mathlib.Core.List.{List, [], ◌∷◌}
use native.Mathlib.Omega.{arith}
use lokan_os.Prelude.Tests.{if◌then◌else◌, Option-cases}
use lokan_os.Prelude.Keys.{Eq}

abbrev pub Dict {ℓ κ} : Type ℓ → Type κ → Type (ℓ ⊔ κ)
Dict K V = List (K × V)

-- Option::unwrap_or
abbrev pub unwrap_or {ℓ} : {A : Type ℓ} → Option A → A → A
unwrap_or none d = d
unwrap_or (some x) d = x

abbrev is_some {ℓ} : {A : Type ℓ} → Option A → Bool
is_some none = false
is_some (some x) = true

module _ {ℓ κ} {K : Type ℓ} {V : Type κ} ⦃e : Eq K⦄ where
  -- map.get(key).cloned()
  unfoldable pub get : Dict K V → K → Option V
  get [] k = none
  get ((j, v) ∷ m) k = if e.beq j k then some v else get m k

  -- map.insert(key, value)
  unfoldable pub insert : Dict K V → K → V → Dict K V
  insert [] k v = (k, v) ∷ []
  insert ((j, w) ∷ m) k v = if e.beq j k then (k, v) ∷ m else (j, w) ∷ insert m k v

  -- map.remove(key), which drops the entry
  unfoldable pub remove : Dict K V → K → Dict K V
  remove [] k = []
  remove ((j, w) ∷ m) k = let rest = remove m k in if e.beq j k then rest else (j, w) ∷ rest

  unfoldable pub contains_key : Dict K V → K → Bool
  contains_key m k = is_some (get m k)

  -- map.get_mut(key), with a change of the value that is there
  unfoldable pub modify : (V → V) → Dict K V → K → Dict K V
  modify f m k = elim (get m k) [ none ↦ m | some v ↦ insert m k (f v) ]

  -- map.entry(key).or_insert(value)
  unfoldable pub or_insert : Dict K V → K → V → Dict K V
  or_insert m k v = if contains_key m k then m else insert m k v

  pub get-insert :
      (m : Dict K V) (k : K) (v : V) (j : K)
      → get (insert m k v) j ≡ (if e.beq k j then some v else get m j)
  unfolding get insert
  get-insert [] k v j = refl
  get-insert ((i, w) ∷ m) k v j =
      ground (arith, e.beq_iff k j, e.beq_iff i k, e.beq_iff i j, get-insert m k v j)

  pub get-remove :
      (m : Dict K V) (k j : K) → get (remove m k) j ≡ (if e.beq k j then none else get m j)
  unfolding get remove
  get-remove [] k j = ground arith
  get-remove ((i, w) ∷ m) k j =
      ground (arith, e.beq_iff k j, e.beq_iff i k, e.beq_iff i j, get-remove m k j)

  pub get-insert_self : (m : Dict K V) (k : K) (v : V) → get (insert m k v) k ≡ some v
  get-insert_self m k v = rw (get-insert, (e.beq_iff k k).1 refl)

  pub contains_key-insert :
      (m : Dict K V) (k : K) (v : V) (j : K)
      → contains_key (insert m k v) j ≡ (e.beq k j || contains_key m j)
  unfolding contains_key
  contains_key-insert m k v j = rw get-insert (ground arith)

  pub contains_key-remove :
      (m : Dict K V) (k j : K) → contains_key (remove m k) j ≡ (not (e.beq k j) && contains_key m j)
  unfolding contains_key
  contains_key-remove m k j = rw get-remove (ground arith)

  get-or_insert :
      (m : Dict K V) (k : K) (v : V) (j : K)
      → get (or_insert m k v) j ≡ (if e.beq k j then some (unwrap_or (get m k) v) else get m j)
  unfolding or_insert contains_key
  get-or_insert m k v j = elim (Option-cases (get m k)) [
    | inl h ↦ rw (h, get-insert) refl
    | inr (w, h) ↦ rw h (grind (arith, e.beq_iff k j))
  ]

  get-modify :
      (f : V → V) (m : Dict K V) (k : K) (v : V) (j : K)
      → get m k ≡ some v
      → get (modify f m k) j ≡ (if e.beq k j then some (f v) else get m j)
  unfolding modify
  get-modify f m k v j h =
      ap (λ o. get (elim o [ none ↦ m | some w ↦ insert m k (f w) ]) j) h ∙ get-insert m k (f v) j

  -- The change of an entry that is first made where it is missing.
  pub get-modify-or_insert :
      (f : V → V) (m : Dict K V) (k : K) (v : V) (j : K)
      → get (modify f (or_insert m k v) k) j
        ≡ (if e.beq k j then some (f (unwrap_or (get m k) v)) else get m j)
  get-modify-or_insert f m k v j =
      get-modify f (or_insert m k v) k (unwrap_or (get m k) v) j
        (rw (get-or_insert, (e.beq_iff k k).1 refl) refl)
      ∙ rw get-or_insert (ground arith)
