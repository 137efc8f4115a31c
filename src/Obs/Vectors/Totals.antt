-- ===== src/Obs/Vectors/Totals.antt =====
-- crates/common-obs/src/metrics.rs: what a counter has after a sequence of calls.
use lokan_os.Prelude.{
  ℕ, ◌+◌, ◌≡◌, refl, ap, sym, subst, ◌∙◌, Bool, true, false, ◌||◌, Option, none, some, List, [],
  ◌∷◌, length, u64, All, if◌then◌else◌, ==_iff, arith,
}
use lokan_os.Prelude.Text.{Text}
use lokan_os.Prelude.Keys.{texts_key}
use lokan_os.Prelude.Dict.{get, unwrap_or, or_insert, get-modify-or_insert}
use lokan_os.Obs.Vectors.{VecInner, with_values, new, get_or_create, update, update_at, inc}

-- Calls of `inc`, one after the other.
unfoldable pub inc_all : VecInner ℕ → List (List Text × ℕ) → Option (VecInner ℕ)
inc_all vec [] = some vec
inc_all vec ((labels, amount) ∷ calls) = elim (inc vec labels amount) [
  | none ↦ none
  | some after ↦ inc_all after calls
]

-- Some call has these labels.
abbrev pub called : List Text → List (List Text × ℕ) → Bool
called labels [] = false
called labels (call ∷ calls) = texts_key.beq call.0 labels || called labels calls

-- The sum of the amounts of the calls with these labels.
abbrev pub total : List Text → List (List Text × ℕ) → ℕ
total labels [] = 0
total labels (call ∷ calls) =
    (if texts_key.beq call.0 labels then call.1 else 0) + total labels calls

-- What one call does.
inc_lem :
    (vec : VecInner ℕ) (labels : List Text) (amount : ℕ)
    → length vec.label_names ≡ length labels
    → (after : VecInner ℕ) × (inc vec labels amount ≡ some after)
      × (after.label_names ≡ vec.label_names)
      × ((l : List Text)
          → get after.values l ≡ (
              if texts_key.beq labels l
              then some (u64 (unwrap_or (get vec.values labels) 0 + amount))
              else get vec.values l))
unfolding inc update_at get_or_create update
inc_lem vec labels amount same =
    let as_many = (==_iff (length vec.label_names) (length labels)).1 same in
    let add : Option (VecInner ℕ) → Option (VecInner ℕ) = λ o. elim o [
      | none ↦ none
      | some v ↦ some (update (λ value. u64 (value + amount)) v labels)
    ] in
    let fresh = with_values vec (or_insert vec.values labels 0) in
    (
      update (λ value. u64 (value + amount)) fresh labels,
      ap (λ b. add (if b then some fresh else none)) as_many,
      refl,
      λ l. get-modify-or_insert (λ value. u64 (value + amount)) vec.values labels 0 l,
    )

not_called :
    (labels : List Text) (calls : List (List Text × ℕ))
    → called labels calls ≡ false
    → total labels calls ≡ 0
not_called labels [] h = refl
not_called labels (call ∷ calls) h = ground (arith, not_called labels calls)

-- One call and the later ones together, where `b` says that the call has the labels in question,
-- and `c` that a later one has.
together :
    (b c : Bool) (old now : Option ℕ) (amount rest : ℕ)
    → (b ≡ true → now ≡ old)
    → (c ≡ false → rest ≡ 0)
    → (let next = if b then some (u64 (unwrap_or now 0 + amount)) else old in
        if c then some (u64 (unwrap_or next 0 + rest)) else next)
      ≡ (if b || c then some (u64 (unwrap_or old 0 + ((if b then amount else 0) + rest))) else old)
together true true old now amount rest h k = rw (h refl) (ap some (omega arith))
together true false old now amount rest h k = rw (h refl, k refl) (ap some (omega arith))
together false true old now amount rest h k = ap some (omega arith)
together false false old now amount rest h k = refl

inc_all_lem :
    (vec : VecInner ℕ) (calls : List (List Text × ℕ))
    → All (λ call. length vec.label_names ≡ length call.0) calls
    → (after : VecInner ℕ) × (inc_all vec calls ≡ some after)
      × ((l : List Text)
          → get after.values l ≡ (
              if called l calls
              then some (u64 (unwrap_or (get vec.values l) 0 + total l calls))
              else get vec.values l))
unfolding inc_all
inc_all_lem vec [] same = (vec, refl, λ l. refl)
inc_all_lem vec ((labels, amount) ∷ calls) same =
    let (next, first, names, values) = inc_lem vec labels amount same.0 in
    let (after, rest, counts) =
      inc_all_lem next calls
        (subst (λ ns. All (λ call. length ns ≡ length call.0) calls) (sym names) same.1) in
    let next_calls : Option (VecInner ℕ) → Option (VecInner ℕ) =
      λ o. elim o [ none ↦ none | some v ↦ inc_all v calls ] in
    (
      after,
      ap next_calls first ∙ rest,
      λ l.
          counts l
          ∙ ap (λ o. if called l calls then some (u64 (unwrap_or o 0 + total l calls)) else o)
              (values l)
          ∙ together (texts_key.beq labels l) (called l calls) (get vec.values l)
              (get vec.values labels) amount (total l calls)
              (λ b. ap (λ k. get vec.values k) ((texts_key.beq_iff labels l).0 b))
              (not_called l calls),
    )

-- Let each call of `inc` on a new counter give as many labels as the counter has names. Then no call
-- panics, and afterwards the counter has an entry for just the labels that some call gave, with the
-- sum of the amounts of these calls, modulo 2^64.
pub inc_all-new :
    (name help : Text) (label_names : List Text) (calls : List (List Text × ℕ))
    → All (λ call. length label_names ≡ length call.0) calls
    → (after : VecInner ℕ) × (inc_all (new name help label_names) calls ≡ some after)
      × ((l : List Text)
          → get after.values l ≡ (if called l calls then some (u64 (total l calls)) else none))
unfolding new get
inc_all-new name help label_names calls same =
    let (after, run, counts) = inc_all_lem (new name help label_names) calls same in
    (
      after,
      run,
      λ l. counts l ∙ ap (λ n. if called l calls then some (u64 n) else none) (omega arith),
    )
