-- ===== src/Gateway/RateLimit/Burst.antt =====
-- services/api-gateway/src/rate_limit.rs: how many requests pass at once.
use lokan_os.Prelude.{
  ℕ, zero, suc, ◌+◌, ◌-◌, ◌≤◌, ◌<◌, ◌^◌, min, max, ◌≡◌, refl, ap, sym, subst, ◌∙◌, Bool, true,
  false, List, [], ◌∷◌, if◌then◌else◌, if-cases, Bool-cases, inl, inr, arith,
}
use lokan_os.Prelude.Result.{Result, ok, err, is_ok}
use lokan_os.Gateway.Errors.{ApiError, rate_limited}
use lokan_os.Gateway.RateLimit.{F64, RateLimitSettings, RateLimiter, new, refill, take_token, check}

module _ (f64 : F64) where
  open f64 use {Float, of_nat, sub, le, positive, as_secs, minimum, add, mul}

  -- The limiter after checks at these times, whatever they came to.
  unfoldable pub check_all : RateLimiter f64 → List ℕ → RateLimiter f64
  check_all limiter [] = limiter
  check_all limiter (now ∷ times) = check_all (check f64 limiter now).0 times

  -- How many of some checks at one time pass.
  unfoldable pub passed : ℕ → RateLimiter f64 → ℕ → ℕ
  passed zero limiter now = 0
  passed (suc k) limiter now =
      (if is_ok (check f64 limiter now).1 then 1 else 0) + passed k (check f64 limiter now).0 now

  -- No time has passed since the last refill that could count.
  IsFresh : RateLimiter f64 → ℕ → Type 0
  IsFresh limiter now = positive (as_secs (now - limiter.last_refill)) ≡ false

  -- The limiter has no more tokens than its capacity, which is this.
  record IsCapped (n : ℕ) (limiter : RateLimiter f64) : Type 0 where
    tokens : le limiter.tokens (of_nat n) ≡ true
    capacity : limiter.capacity ≡ of_nat n

  refill-IsFresh : (limiter : RateLimiter f64) (now : ℕ) → IsFresh (refill f64 limiter now) now
  unfolding refill IsFresh
  refill-IsFresh limiter now =
      let same : now - now ≡ 0 = omega arith in
      if-cases (λ l. positive (as_secs (now - l.last_refill)) ≡ false)
        (positive (as_secs (now - limiter.last_refill))) _ limiter
        (λ e. ap (λ n. positive (as_secs n)) same ∙ f64.no_time) (λ e. e)

  refill_same :
      (limiter : RateLimiter f64) (now : ℕ) → IsFresh limiter now → refill f64 limiter now ≡ limiter
  unfolding refill IsFresh
  refill_same limiter now h =
      let e : positive (as_secs (now - limiter.last_refill)) ≡ false = h in rw e refl

  refill-IsCapped :
      (n : ℕ) (limiter : RateLimiter f64) (now : ℕ)
      → n < 2 ^ 53
      → IsCapped n limiter
      → IsCapped n (refill f64 limiter now)
  unfolding refill
  refill-IsCapped n limiter now small c =
      if-cases (IsCapped n) (positive (as_secs (now - limiter.last_refill))) _ limiter
        (λ e. record {
          tokens =
              let full =
                add limiter.tokens
                  (mul (as_secs (now - limiter.last_refill)) limiter.rate_per_second) in
              subst (λ m. le (minimum full m) (of_nat n) ≡ true) (sym c.capacity)
                (f64.minimum_le full n small);
          capacity = c.capacity;
        })
        (λ e. c)

  take_token-IsCapped :
      (n : ℕ) (limiter : RateLimiter f64)
      → n + 1 < 2 ^ 53
      → IsCapped (suc n) limiter
      → IsCapped (suc n) (take_token f64 limiter).0
  unfolding take_token
  take_token-IsCapped n limiter small c =
      if-cases {A = RateLimiter f64 × Result ApiError (Unit {0})} (λ r. IsCapped (suc n) r.0)
        (le (of_nat 1) limiter.tokens) _ _
        (λ e. record {
          tokens =
              f64.le_suc _ n (omega arith) (f64.sub_le limiter.tokens n (omega arith) e c.tokens);
          capacity = c.capacity;
        })
        (λ e. c)

  check_all-IsCapped :
      (n : ℕ) (limiter : RateLimiter f64) (times : List ℕ)
      → n + 1 < 2 ^ 53
      → IsCapped (suc n) limiter
      → IsCapped (suc n) (check_all limiter times)
  unfolding check_all check
  check_all-IsCapped n limiter [] small c = c
  check_all-IsCapped n limiter (now ∷ times) small c =
      check_all-IsCapped n (check f64 limiter now).0 times small (
        take_token-IsCapped n (refill f64 limiter now) small
          (refill-IsCapped (suc n) limiter now (omega arith) c))

  check-refill :
      (limiter : RateLimiter f64) (now : ℕ)
      → check f64 (refill f64 limiter now) now ≡ check f64 limiter now
  unfolding check
  check-refill limiter now =
      ap (take_token f64) (refill_same (refill f64 limiter now) now (refill-IsFresh limiter now))

  passed-refill :
      (k : ℕ) (limiter : RateLimiter f64) (now : ℕ)
      → passed k (refill f64 limiter now) now ≡ passed k limiter now
  unfolding passed
  passed-refill zero limiter now = refl
  passed-refill (suc k) limiter now =
      ap (λ r. (if is_ok r.1 then 1 else 0) + passed k r.0 now) (check-refill limiter now)

  -- What a check of a fresh limiter comes to, by the test of its tokens.
  taken : RateLimiter f64 → Bool → RateLimiter f64 × Result ApiError (Unit {0})
  taken limiter b =
      if b
      then (
        record {
          tokens = sub limiter.tokens (of_nat 1);
          last_refill = limiter.last_refill;
          capacity = limiter.capacity;
          rate_per_second = limiter.rate_per_second;
        },
        ok tt,
      )
      else (limiter, err (rate_limited 1))

  check_fresh :
      (limiter : RateLimiter f64) (now : ℕ) (b : Bool)
      → IsFresh limiter now
      → le (of_nat 1) limiter.tokens ≡ b
      → check f64 limiter now ≡ taken limiter b
  unfolding check taken take_token
  check_fresh limiter now b h e =
      ap (take_token f64) (refill_same limiter now h) ∙ ap (taken limiter) e

  passed-fresh :
      (k : ℕ) (limiter : RateLimiter f64) (now : ℕ) (b : Bool)
      → IsFresh limiter now
      → le (of_nat 1) limiter.tokens ≡ b
      → passed (suc k) limiter now
        ≡ (if is_ok (taken limiter b).1 then 1 else 0) + passed k (taken limiter b).0 now
  unfolding passed
  passed-fresh k limiter now b h e =
      ap (λ r. (if is_ok r.1 then 1 else 0) + passed k r.0 now) (check_fresh limiter now b h e)

  passed_le :
      (k n : ℕ) (limiter : RateLimiter f64) (now : ℕ)
      → n < 2 ^ 53
      → IsFresh limiter now
      → le limiter.tokens (of_nat n) ≡ true
      → passed k limiter now ≤ n
  unfolding passed taken IsFresh
  passed_le zero n limiter now small h few = omega arith
  passed_le (suc k) zero limiter now small h few =
      let e = f64.one_le_zero limiter.tokens few in
      omega (arith, passed-fresh k limiter now false h e, passed_le k zero limiter now small h few)
  passed_le (suc k) (suc n) limiter now small h few =
      elim (Bool-cases (le (of_nat 1) limiter.tokens)) [
        | inl e ↦ omega (
          arith,
          passed-fresh k limiter now true h e,
          passed_le k n (taken limiter true).0 now (omega arith) h
              (f64.sub_le limiter.tokens n (omega arith) e few),
        )
        | inr e ↦ omega (
          arith,
          passed-fresh k limiter now false h e,
          passed_le k (suc n) limiter now small h few,
        )
      ]

  passed_eq :
      (k n : ℕ) (limiter : RateLimiter f64) (now : ℕ)
      → n < 2 ^ 53
      → IsFresh limiter now
      → limiter.tokens ≡ of_nat n
      → passed k limiter now ≡ min k n
  unfolding passed taken IsFresh
  passed_eq zero n limiter now small h full = omega arith
  passed_eq (suc k) zero limiter now small h full =
      let e =
        f64.one_le_zero limiter.tokens
          (ap (λ t. le t (of_nat 0)) full ∙ f64.le_refl 0 (omega arith)) in
      omega (arith, passed-fresh k limiter now false h e, passed_eq k zero limiter now small h full)
  passed_eq (suc k) (suc n) limiter now small h full =
      let e = ap (le (of_nat 1)) full ∙ f64.one_le n (omega arith) in
      omega (
        arith,
        passed-fresh k limiter now true h e,
        passed_eq k n (taken limiter true).0 now (omega arith) h
            (ap (λ t. sub t (of_nat 1)) full ∙ f64.sub-of_nat n (omega arith)),
      )

  passed_after :
      (n : ℕ) (limiter : RateLimiter f64) (times : List ℕ) (now k : ℕ)
      → n + 1 < 2 ^ 53
      → IsCapped (suc n) limiter
      → passed k (check_all limiter times) now ≤ suc n
  passed_after n limiter times now k small c =
      let before = check_all limiter times in
      let filled =
        refill-IsCapped (suc n) before now (omega arith)
          (check_all-IsCapped n limiter times small c) in
      omega (
        arith,
        passed-refill k before now,
        passed_le k (suc n) (refill f64 before now) now (omega arith) (refill-IsFresh before now)
            filled.tokens,
      )

  -- Let the settings allow a burst of less than 2^32. A new limiter lets through, of any number of
  -- requests at the time it is made, just the first `max burst 1`. Whatever requests came before, at
  -- whatever times by a clock that may even go back, of those that come at one time it lets through no
  -- more than that.
  pub passed-new :
      (settings : RateLimitSettings) (start k : ℕ)
      → settings.burst < 2 ^ 32
      → (passed k (new f64 settings start) start ≡ min k (max settings.burst 1))
        × ((times : List ℕ) (now : ℕ)
            → passed k (check_all (new f64 settings start) times) now ≤ max settings.burst 1)
  unfolding new IsFresh
  passed-new settings start k small =
      let n = max settings.burst 1 - 1 in
      let e : max settings.burst 1 ≡ suc n = omega arith in
      let same : start - start ≡ 0 = omega arith in
      let capped : IsCapped (suc n) (new f64 settings start) = record {
        tokens =
            ap (λ m. le (of_nat m) (of_nat (suc n))) e ∙ f64.le_refl (suc n) (omega (arith, e));
        capacity = ap of_nat e;
      } in
      (
        passed_eq k (max settings.burst 1) (new f64 settings start) start (omega arith)
            (ap (λ d. positive (as_secs d)) same ∙ f64.no_time) refl,
        λ times now.
            subst (λ m. passed k (check_all (new f64 settings start) times) now ≤ m) (sym e)
              (passed_after n (new f64 settings start) times now k (omega (arith, e)) capped),
      )
