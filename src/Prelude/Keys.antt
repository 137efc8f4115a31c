-- ===== src/Prelude/Keys.antt =====
-- Types whose values can be compared, as the keys of a map are.
use Prim.Native.Nat.{ℕ}
use Prim.Native.String.{String}
use mathlib.Core.Path.{◌≡◌, refl}
use mathlib.Core.Logic.{◌↔◌}
use mathlib.Core.Bool.{Bool, true, false, ◌&&◌}
use mathlib.Core.List.{List, [], ◌∷◌}
use native.Mathlib.Omega.{arith}
use text.Mathlib.Text.{◌==◌ as str_eq}
use text.Mathlib.TextEquality.{eq_iff}
use lokan_os.Prelude.Tests.{◌==◌, ==_iff}
use lokan_os.Prelude.Text.{codes_eq, codes_eq-eq}

pub record Eq {ℓ} (K : Type ℓ) : Type ℓ where
  pub beq : K → K → Bool
  pub beq_iff : (k j : K) → (beq k j ≡ true) ↔ (k ≡ j)

pub codes_eq_refl : (s : List ℕ) → codes_eq s s ≡ true
codes_eq_refl [] = refl
codes_eq_refl (c ∷ s) = ground (arith, codes_eq_refl s)

pub codes_eq_iff : (s t : List ℕ) → (codes_eq s t ≡ true) ↔ (s ≡ t)
codes_eq_iff s t = (codes_eq-eq s t, λ e. rw (← e) (codes_eq_refl s))

instance abbrev pub nat_key : Eq ℕ
nat_key = record { beq = ◌==◌; beq_iff = ==_iff }

instance abbrev pub string_key : Eq String
string_key = record { beq = str_eq; beq_iff = eq_iff }

instance abbrev pub codes_key : Eq (List ℕ)
codes_key = record { beq = codes_eq; beq_iff = codes_eq_iff }

pub texts_eq : List (List ℕ) → List (List ℕ) → Bool
texts_eq [] [] = true
texts_eq (s ∷ ss) (t ∷ ts) = codes_eq s t && texts_eq ss ts
texts_eq _ _ = false

pub texts_eq_iff : (ss ts : List (List ℕ)) → (texts_eq ss ts ≡ true) ↔ (ss ≡ ts)
unfolding texts_eq
texts_eq_iff [] [] = ground arith
texts_eq_iff [] (t ∷ ts) = ground arith
texts_eq_iff (s ∷ ss) [] = ground arith
texts_eq_iff (s ∷ ss) (t ∷ ts) = ground (arith, codes_eq_iff s t, texts_eq_iff ss ts)

instance abbrev pub texts_key : Eq (List (List ℕ))
texts_key = record { beq = texts_eq; beq_iff = texts_eq_iff }
