-- ===== src/Obs/Trace/Places.antt =====
-- crates/common-obs/src/lib.rs: the contexts by their places, and maps from spans to places.
use lokan_os.Prelude.{
  ℕ, zero, suc, ◌≤◌, ◌<◌, ◌≡◌, ◌⊎◌, refl, if-cases, ap, sym, ◌∙◌, Bool, true, false, Option, none,
  some, List, [], ◌∷◌, ◌++◌, length, if◌then◌else◌, ◌==◌, arith, inl, inr,
}
use mathlib.Core.Option.{some-injective}
use lokan_os.Prelude.Text.{Text}
use lokan_os.Prelude.Keys.{nat_key}
use lokan_os.Prelude.Dict.{Dict, get, insert, remove, get-insert, get-remove}
use lokan_os.Obs.Trace.{TraceContext, at, set_at}

-- Every span of the map has a context below this number.
unfoldable pub IsBelow : ℕ → Dict ℕ ℕ → Type 0
IsBelow n map = (id k : ℕ) → get map id ≡ some k → k < n

pub at_lt :
    (made : List TraceContext) (k : ℕ) (c : TraceContext) → at made k ≡ some c → k < length made
at_lt [] k c h = cc
at_lt (x ∷ made) zero c h = omega arith
at_lt (x ∷ made) (suc k) c h = omega (arith, at_lt made k c h)

pub at-append :
    (made : List TraceContext) (x : TraceContext) (k : ℕ) (c : TraceContext)
    → at (made ++ x ∷ []) k ≡ some c
    → (at made k ≡ some c) ⊎ ((k ≡ length made) × (x ≡ c))
at-append [] x zero c h = inr (refl, some-injective x c h)
at-append [] x (suc k) c h = cc
at-append (y ∷ made) x zero c h = inl h
at-append (y ∷ made) x (suc k) c h = elim (at-append made x k c h) [
  | inl e ↦ inl e
  | inr (e, same) ↦ inr (ap suc e, same)
]

abbrev pub asked : Text → Option TraceContext → Option TraceContext
asked value none = none
asked value (some c) = some (record { trace_id = c.trace_id; request_id = some value })

pub at-set_at :
    (made : List TraceContext) (a : ℕ) (value : Text) (k : ℕ)
    → at (set_at made a value) k ≡ (if a == k then asked value (at made k) else at made k)
unfolding set_at
at-set_at [] a value k = ground arith
at-set_at (x ∷ made) zero value zero = refl
at-set_at (x ∷ made) zero value (suc k) = ground arith
at-set_at (x ∷ made) (suc a) value zero = ground arith
at-set_at (x ∷ made) (suc a) value (suc k) = at-set_at made a value k ∙ ground arith

pub length-set_at :
    (made : List TraceContext) (a : ℕ) (value : Text) → length (set_at made a value) ≡ length made
unfolding set_at
length-set_at [] a value = refl
length-set_at (x ∷ made) zero value = refl
length-set_at (x ∷ made) (suc a) value = ap suc (length-set_at made a value)

pub insert-IsBelow :
    (n : ℕ) (map : Dict ℕ ℕ) (id a : ℕ) → a < n → IsBelow n map → IsBelow n (insert map id a)
unfolding IsBelow
insert-IsBelow n map id a h b j k e =
    if-cases (λ o. o ≡ some k → k < n) (nat_key.beq id j) (some a) (get map j)
      (λ _ same. omega (arith, h, some-injective a k same)) (λ _ same. b j k same)
      (sym (get-insert map id a j) ∙ e)

pub remove-IsBelow : (n : ℕ) (map : Dict ℕ ℕ) (id : ℕ) → IsBelow n map → IsBelow n (remove map id)
unfolding IsBelow
remove-IsBelow n map id b j k e =
    if-cases (λ o. o ≡ some k → k < n) (nat_key.beq id j) none (get map j) (λ _ same. absurd cc)
      (λ _ same. b j k same) (sym (get-remove map id j) ∙ e)

pub longer-IsBelow : (n m : ℕ) (map : Dict ℕ ℕ) → n ≤ m → IsBelow n map → IsBelow m map
unfolding IsBelow
longer-IsBelow n m map h b j k e = omega (arith, h, b j k e)

pub asked_id :
    (b : Bool) (value : Text) (o : Option TraceContext) (c : TraceContext)
    → (if b then asked value o else o) ≡ some c
    → (old : TraceContext) × (o ≡ some old) × (c.trace_id ≡ old.trace_id)
asked_id true value none c h = absurd cc
asked_id true value (some old) c h = (old, refl, ap (λ x. x.trace_id) (sym (some-injective _ c h)))
asked_id false value o c h = (c, h, refl)
