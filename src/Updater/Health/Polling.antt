-- ===== src/Updater/Health/Polling.antt =====
-- services/updater/src/health.rs: the polling loop ends, and its answer is what the rounds showed.
use lokan_os.Prelude.{
  ℕ, zero, suc, ◌+◌, ◌≤◌, ◌<◌, ◌≡◌, refl, ◌⊎◌, inl, inr, String, Bool, true, false, some, List,
  arith, min, leb, leb→le, length, Bool-cases, ◌==◌, ◌||◌,
}
use native.Mathlib.Decide.{dec_lt}
use lokan_os.Prelude.Result.{Result, ok, err}
use lokan_os.Updater.Health.{Answer, count_healthy, poll, wait_for_quorum}

Result-cases {ℓ κ} :
    {E : Type ℓ} {A : Type κ} (r : Result E A) → ((x : A) × (r ≡ ok x)) ⊎ ((e : E) × (r ≡ err e))
Result-cases (ok x) = inl (x, refl)
Result-cases (err e) = inr (e, refl)

module _ (answers : ℕ → List Answer) (now : ℕ → ℕ) (quorum deadline_at : ℕ) where
  -- What an answer says of the rounds from `k` on: in some round the quorum was met; or in every
  -- round up to one at or after the deadline it was not; or a round ended with a transport error.
  abbrev pub Verdict : ℕ → Result String Bool → Type 0
  Verdict k (ok true) =
      (j : ℕ) × (k ≤ j) × (h : ℕ) × (count_healthy (answers j) 0 ≡ ok h) × (quorum ≤ h)
  Verdict k (ok false) =
      (j : ℕ) × (k ≤ j)
      × (deadline_at ≤ now j)
      × ((i : ℕ) → k ≤ i → i ≤ j → (h : ℕ) × (count_healthy (answers i) 0 ≡ ok h) × (h < quorum))
  Verdict k (err e) = (j : ℕ) × (k ≤ j) × (count_healthy (answers j) 0 ≡ err e)

  Verdict-back :
      (k h : ℕ) (r : Result String Bool)
      → count_healthy (answers k) 0 ≡ ok h
      → h < quorum
      → Verdict (suc k) r
      → Verdict k r
  Verdict-back k h (ok true) e l (j, le, n, c, q) = (j, omega arith, n, c, q)
  Verdict-back k h (ok false) e l (j, le, d, v) = (
    j,
    omega arith,
    d,
    λ i low high. elim (dec_lt k i) [ yes p ↦ v i p high | no p ↦ (h, rw (at_k i low p) e, l) ],
  )
    where
      at_k : (i : ℕ) → k ≤ i → ¬ (k < i) → i ≡ k
      at_k i low p = omega arith
  Verdict-back k h (err x) e l (j, le, v) = (j, omega arith, v)

  poll_total :
      (fuel k n : ℕ)
      → k ≤ n
      → n < fuel + k
      → deadline_at ≤ now n
      → (r : Result String Bool) × (poll answers now fuel k quorum deadline_at ≡ some r)
        × Verdict k r
  unfolding poll
  poll_total zero k n le lt d = absurd (omega arith)
  poll_total (suc fuel) k n le lt d = elim (Result-cases (count_healthy (answers k) 0)) [
    | inr (x, e) ↦ (err x, rw (e, poll), (k, omega arith, e))
    | inl (h, e) ↦ elim (Bool-cases (leb quorum h)) [
      | inl met ↦ (ok true, rw (e, met, poll), (k, omega arith, h, e, leb→le quorum h met))
      | inr short ↦ elim (Bool-cases (leb deadline_at (now k))) [
        | inl late ↦ (
          ok false,
          rw (e, short, late, poll),
          (
            k,
            omega arith,
            leb→le _ _ late,
            λ i low high. (h, rw (same k i low high) e, ground arith),
          ),
        )
        | inr early ↦
            let (r, eq, v) = poll_total fuel (suc k) n (ground arith) (omega arith) d in
            (r, rw (e, short, early, poll) eq, Verdict-back k h r e (ground arith) v)
      ]
    ]
  ]
    where
      same : (k i : ℕ) → k ≤ i → i ≤ k → i ≡ k
      same k i low high = omega arith

-- Once the clock of some round `n` has passed the deadline, fuel for the rounds up to it is enough:
-- the call returns. It returns true at once if no quorum is asked for or no endpoint is known, and
-- otherwise what the rounds showed, with the quorum cut down to the number of endpoints.
pub wait_for_quorum_total :
    (answers : ℕ → List Answer) (now : ℕ → ℕ) (fuel n start : ℕ) (endpoints : List String)
    (deadline quorum : ℕ)
    → n < fuel
    → start + deadline ≤ now n
    → (r : Result String Bool) × (wait_for_quorum answers now fuel start endpoints deadline quorum
        ≡ some r)
      × ((quorum ≡ 0) ⊎ (length endpoints ≡ 0) → r ≡ ok true)
      × (0 < quorum
          → 0 < length endpoints
          → Verdict answers now (min quorum (length endpoints)) (start + deadline) 0 r)
unfolding wait_for_quorum
wait_for_quorum_total answers now fuel n start endpoints deadline quorum lt late =
    elim (Bool-cases (quorum == 0 || length endpoints == 0)) [
      | inl trivial ↦ (ok true, rw trivial, λ _. refl, λ p q. absurd (ground arith))
      | inr real ↦
          let (r, e, v) =
            poll_total answers now (min quorum (length endpoints)) (start + deadline) fuel 0 n
              (omega arith) (omega arith) late in
          (r, rw real e, λ z. absurd (ground arith), λ p q. v)
    ]
