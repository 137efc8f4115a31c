-- ===== src/RuleEngine/Traces/Bounds.antt =====
-- services/rule-engine/src/main.rs: a trace holds the last hundred executions, the newest first.
use mathlib.Core.List.{reverse-append, append_assoc}
use lokan_os.Prelude.{
  ℕ, zero, suc, ◌≤◌, ◌<◌, String, ◌≡◌, refl, sym, ap, ◌∙◌, some, List, [], ◌∷◌, ◌++◌, reverse, take,
  length, length-append, arith, ◌==◌, Bool-cases, inl, inr, ==_iff,
}
use lokan_os.Prelude.Keys.{string_key}
use lokan_os.Prelude.Dict.{Dict, get, get-insert_self}
use lokan_os.RuleEngine.Traces.{max_trace_entries, or_default, push, record_trace, traces_for}

module _ {ℓ} {A : Type ℓ} where
  take-all : (n : ℕ) (xs : List A) → length xs ≤ n → take n xs ≡ xs
  take-all zero [] h = refl
  take-all zero (x ∷ xs) h = absurd (omega arith)
  take-all (suc n) [] h = refl
  take-all (suc n) (x ∷ xs) h = ap (λ t. x ∷ t) (take-all n xs (omega arith))

  take-append-take :
      (n k : ℕ) (xs ys : List A) → n ≤ k → take n (xs ++ take k ys) ≡ take n (xs ++ ys)
  take-append-take zero k xs ys h = refl
  take-append-take (suc n) k (x ∷ xs) ys h =
      ap (λ t. x ∷ t) (take-append-take n k xs ys (omega arith))
  take-append-take (suc n) zero [] ys h = absurd (omega arith)
  take-append-take (suc n) (suc k) [] [] h = refl
  take-append-take (suc n) (suc k) [] (y ∷ ys) h =
      ap (λ t. y ∷ t) (take-append-take n k [] ys (omega arith))

  take-snoc : (n : ℕ) (xs : List A) (x : A) → length xs ≡ n → take n (xs ++ x ∷ []) ≡ xs
  take-snoc zero [] x h = refl
  take-snoc zero (y ∷ xs) x h = absurd (omega arith)
  take-snoc (suc n) [] x h = absurd (omega arith)
  take-snoc (suc n) (y ∷ xs) x h = ap (λ t. y ∷ t) (take-snoc n xs x (omega arith))

  length-reverse : (xs : List A) → length (reverse xs) ≡ length xs
  length-reverse [] = refl
  length-reverse (x ∷ xs) = omega (
    arith,
    ap length (reverse-append (x ∷ []) xs),
    length-append (reverse xs) (x ∷ []),
    length-reverse xs,
  )

  push-full :
      (x : A) (deque : List A) (entry : A)
      → suc (length deque) ≡ max_trace_entries
      → reverse (deque ++ entry ∷ []) ≡ take max_trace_entries (entry ∷ reverse (x ∷ deque))
  push-full x deque entry h =
      rw (reverse-append deque (entry ∷ []), reverse-append (x ∷ []) deque)
        (ap (λ t. entry ∷ t)
          (sym (take-snoc 99 (reverse deque) x (omega (arith, length-reverse deque)))))

  push-room :
      (deque : List A) (entry : A)
      → length deque < max_trace_entries
      → reverse (deque ++ entry ∷ []) ≡ take max_trace_entries (entry ∷ reverse deque)
  push-room deque entry h = rw reverse-append (
      sym
        (take-all max_trace_entries (entry ∷ reverse deque) (omega (arith, length-reverse deque))))

  reverse-push :
      (deque : List A) (entry : A)
      → length deque ≤ max_trace_entries
      → reverse (push deque entry) ≡ take max_trace_entries (entry ∷ reverse deque)
  unfolding push
  reverse-push [] entry h = refl
  reverse-push (x ∷ deque) entry h = elim (Bool-cases (suc (length deque) == max_trace_entries)) [
    | inl full ↦ rw full (push-full x deque entry ((==_iff _ _).0 full))
    | inr room ↦ rw room (push-room (x ∷ deque) entry (ground arith))
  ]

  length-push :
      (deque : List A) (entry : A)
      → length deque ≤ max_trace_entries
      → length (push deque entry) ≤ max_trace_entries
  unfolding push
  length-push [] entry h = omega arith
  length-push (x ∷ deque) entry h = ground (arith, length-append deque (entry ∷ []))

  -- The entries of one rule, recorded one after another.
  unfoldable pub record_all : Dict String (List A) → String → List A → Dict String (List A)
  record_all traces rule_id [] = traces
  record_all traces rule_id (entry ∷ entries) =
      record_all (record_trace traces rule_id entry) rule_id entries

  get-record_trace :
      (traces : Dict String (List A)) (rule_id : String) (deque : List A) (entry : A)
      → get traces rule_id ≡ some deque
      → get (record_trace traces rule_id entry) rule_id ≡ some (push deque entry)
  unfolding record_trace
  get-record_trace traces rule_id deque entry h =
      get-insert_self traces rule_id (push (or_default (get traces rule_id)) entry)
      ∙ ap (λ o. some (push (or_default o) entry)) h

  shown :
      (deque : List A) (entry : A) (entries : List A)
      → length deque ≤ max_trace_entries
      → take max_trace_entries (reverse entries ++ reverse (push deque entry))
        ≡ take max_trace_entries (reverse (entry ∷ entries) ++ reverse deque)
  shown deque entry entries fits =
      rw (reverse-push deque entry fits, reverse-append (entry ∷ []) entries, append_assoc)
        (take-append-take max_trace_entries max_trace_entries (reverse entries)
          (entry ∷ reverse deque) (omega arith))

  -- A rule whose trace is within its limit shows, after any number of further executions, the last
  -- hundred of them all, the newest first.
  pub traces_for-record_all :
      (traces : Dict String (List A)) (rule_id : String) (deque entries : List A)
      → get traces rule_id ≡ some deque
      → length deque ≤ max_trace_entries
      → traces_for (record_all traces rule_id entries) rule_id
        ≡ some (take max_trace_entries (reverse entries ++ reverse deque))
  unfolding traces_for record_all
  traces_for-record_all traces rule_id deque [] h fits =
      rw (h, traces_for)
        (ap some
          (sym (take-all max_trace_entries (reverse deque) (omega (arith, length-reverse deque)))))
  traces_for-record_all traces rule_id deque (entry ∷ entries) h fits =
      traces_for-record_all (record_trace traces rule_id entry) rule_id (push deque entry) entries
        (get-record_trace traces rule_id deque entry h) (length-push deque entry fits)
      ∙ ap some (shown deque entry entries fits)
