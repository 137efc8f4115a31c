-- ===== src/Gateway/RateLimit.antt =====
-- services/api-gateway/src/rate_limit.rs: the token bucket. Instants are nanoseconds of a clock.
pub mod Burst
use lokan_os.Prelude.{ℕ, suc, ◌-◌, ◌<◌, ◌^◌, max, ◌≡◌, Bool, true, false, if◌then◌else◌}
use lokan_os.Prelude.Result.{Result, ok, err}
use lokan_os.Gateway.Errors.{ApiError, rate_limited}

-- What the limiter uses of `f64`: `of_nat` is the cast, which is exact below 2^53, `positive` the test
-- against 0.0, and `as_secs` is `Duration::as_secs_f64`. `min` is never above its second argument
-- where that is a number.
pub record F64 : Type 1 where
  pub Float : Type 0
  pub of_nat : ℕ → Float
  pub add : Float → Float → Float
  pub sub : Float → Float → Float
  pub mul : Float → Float → Float
  pub div : Float → Float → Float
  pub minimum : Float → Float → Float
  pub le : Float → Float → Bool
  pub positive : Float → Bool
  pub as_secs : ℕ → Float
  pub no_time : positive (as_secs 0) ≡ false
  pub le_refl : (n : ℕ) → n < 2 ^ 53 → le (of_nat n) (of_nat n) ≡ true
  pub le_suc :
      (x : Float) (n : ℕ) → n < 2 ^ 53 → le x (of_nat n) ≡ true → le x (of_nat (suc n)) ≡ true
  pub minimum_le : (x : Float) (n : ℕ) → n < 2 ^ 53 → le (minimum x (of_nat n)) (of_nat n) ≡ true
  pub sub_le :
      (x : Float) (n : ℕ)
      → n < 2 ^ 53
      → le (of_nat 1) x ≡ true
      → le x (of_nat (suc n)) ≡ true
      → le (sub x (of_nat 1)) (of_nat n) ≡ true
  pub one_le_zero : (x : Float) → le x (of_nat 0) ≡ true → le (of_nat 1) x ≡ false
  pub sub-of_nat : (n : ℕ) → n < 2 ^ 53 → sub (of_nat (suc n)) (of_nat 1) ≡ of_nat n
  pub one_le : (n : ℕ) → n < 2 ^ 53 → le (of_nat 1) (of_nat (suc n)) ≡ true

pub record RateLimitSettings : Type 0 where
  pub requests_per_minute : ℕ  -- u32
  pub burst : ℕ  -- u32

module _ (f64 : F64) where
  open f64 use {Float, of_nat, add, sub, mul, div, minimum, le, positive, as_secs}

  -- `Inner` with its `State`
  pub record RateLimiter : Type 0 where
    pub tokens : Float
    pub last_refill : ℕ
    pub capacity : Float
    pub rate_per_second : Float

  -- RateLimiter::new
  unfoldable pub new : RateLimitSettings → ℕ → RateLimiter
  new settings now = record {
    tokens = of_nat (max settings.burst 1);
    last_refill = now;
    capacity = of_nat (max settings.burst 1);
    rate_per_second = div (of_nat (max settings.requests_per_minute 1)) (of_nat 60);
  }

  -- The first part of `check`, which refills. `duration_since` is zero where the clock went back.
  unfoldable pub refill : RateLimiter → ℕ → RateLimiter
  refill limiter now =
      let elapsed = as_secs (now - limiter.last_refill) in
      if positive elapsed
      then record {
        tokens =
            minimum (add limiter.tokens (mul elapsed limiter.rate_per_second)) limiter.capacity;
        last_refill = now;
        capacity = limiter.capacity;
        rate_per_second = limiter.rate_per_second;
      }
      else limiter

  -- The second part of `check`, which takes a token.
  unfoldable pub take_token : RateLimiter → RateLimiter × Result ApiError (Unit {0})
  take_token limiter =
      if le (of_nat 1) limiter.tokens
      then (
        record {
          tokens = sub limiter.tokens (of_nat 1);
          last_refill = limiter.last_refill;
          capacity = limiter.capacity;
          rate_per_second = limiter.rate_per_second;
        },
        ok tt,
      )
      else (limiter, err (rate_limited 1))

  -- RateLimiter::check
  unfoldable pub check : RateLimiter → ℕ → RateLimiter × Result ApiError (Unit {0})
  unfolding refill take_token
  check limiter now = take_token (refill limiter now)
