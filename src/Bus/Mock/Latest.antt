-- ===== src/Bus/Mock/Latest.antt =====
-- crates/common-msgbus/src/lib.rs: the latest messages, all that a channel keeps for a receiver.
use lokan_os.Prelude.{
  ℕ, suc, ◌≤◌, ◌≡◌, refl, sym, ap, ◌∙◌, Bool, true, false, ◌==◌, ltb, arith, List, [], ◌∷◌, ◌++◌,
  append-nil, if◌then◌else◌, inl, inr, Bool-cases, length, length-append, ltb→lt,
}
use lokan_os.Prelude.Text.{Text, codes_eq}
use lokan_os.Bus.Messages.{BusMessage}
use lokan_os.Bus.Tokio.{latest}

module _ {ℓ} {A : Type ℓ} where
  pub latest_all : (n : ℕ) (xs : List A) → length xs ≤ n → latest n xs ≡ xs
  latest_all n [] h = refl
  latest_all n (x ∷ xs) h = ground (arith, latest_all n xs)

  latest-cons : (n : ℕ) (x : A) (xs : List A) → n ≤ length xs → latest n (x ∷ xs) ≡ latest n xs
  latest-cons n x xs h = ground arith

  pub length-latest_le : (n : ℕ) (xs : List A) → length (latest n xs) ≤ n
  length-latest_le n [] = omega arith
  length-latest_le n (x ∷ xs) =
      ground (arith, length-latest_le n xs, latest_all n xs, ltb→lt n (suc (length xs)))

  -- What was pushed out before would be pushed out now.
  latest-latest : (n : ℕ) (xs ys : List A) → latest n (latest n xs ++ ys) ≡ latest n (xs ++ ys)
  latest-latest n [] ys = refl
  latest-latest n (x ∷ xs) ys = elim (Bool-cases (ltb n (suc (length xs)))) [
    | inl full ↦
        ap (λ zs. latest n (zs ++ ys))
          (latest-cons n x xs (omega (arith, ltb→lt n (suc (length xs)) full)))
        ∙ latest-latest n xs ys
        ∙ sym (
            latest-cons n x (xs ++ ys)
              (omega (arith, ltb→lt n (suc (length xs)) full, length-append xs ys)))
    | inr small ↦ ap (λ zs. latest n (zs ++ ys)) (latest_all n (x ∷ xs) (ground arith))
  ]

pub pushed :
    (m : BusMessage) (xs ys : List BusMessage) (channel n room : ℕ) (hit : Bool)
    → (channel == n) ≡ hit
    → room ≡ 64
    → ys ≡ latest 64 xs
    → (if channel == n then latest room (ys ++ m ∷ []) else ys)
      ≡ latest 64 (xs ++ (if hit then m ∷ [] else []))
pushed m xs ys channel n room true e r h = rw (e, r, h) (latest-latest 64 xs (m ∷ []))
pushed m xs ys channel n room false e r h = rw (e, h, append-nil xs) refl

-- The messages on a subject.
abbrev pub on : Text → List BusMessage → List BusMessage
on subject [] = []
on subject (m ∷ ms) = if codes_eq m.subject subject then m ∷ on subject ms else on subject ms
