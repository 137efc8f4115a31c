-- ===== src/Obs/Histogram.antt =====
-- crates/common-obs/src/metrics.rs: one histogram, `HistogramValue`, and the buckets as they are
-- exported. Counts are u64 and wrap.
pub mod Sums
pub mod Buckets
use lokan_os.Prelude.{
  ℕ, zero, suc, ◌+◌, Bool, true, false, Option, none, some, List, [], ◌∷◌, length, u64,
  if◌then◌else◌,
}
use lokan_os.Obs.Floats.{Floats}

pub replicate : ℕ → ℕ → List ℕ
replicate zero x = []
replicate (suc n) x = x ∷ replicate n x

-- `if let Some(slot) = counts.get_mut(idx) { *slot += 1 }`
unfoldable pub bump : List ℕ → ℕ → List ℕ
bump [] idx = []
bump (c ∷ counts) zero = u64 (c + 1) ∷ counts
bump (c ∷ counts) (suc idx) = c ∷ bump counts idx

-- `counts.get(idx).copied().unwrap_or(0)`
abbrev pub get_or_zero : List ℕ → ℕ → ℕ
get_or_zero [] idx = 0
get_or_zero (c ∷ counts) zero = c
get_or_zero (c ∷ counts) (suc idx) = get_or_zero counts idx

module _ (fl : Floats) where
  open fl use {Float, float_zero, add, le}

  pub record HistogramState : Type 0 where
    pub counts : List ℕ  -- u64
    pub sum : Float
    pub count : ℕ  -- u64

  -- HistogramValue::new
  unfoldable pub new : ℕ → HistogramState
  unfolding replicate
  new bucket_count = record { counts = replicate (suc bucket_count) 0; sum = float_zero; count = 0 }

  -- The index of the first bound that is not below the value, or the number of bounds.
  unfoldable pub bucket_index : List Float → Float → ℕ
  bucket_index [] value = 0
  bucket_index (bound ∷ buckets) value =
      let rest = suc (bucket_index buckets value) in if le value bound then 0 else rest

  -- HistogramValue::observe
  unfoldable pub observe : List Float → HistogramState → Float → HistogramState
  unfolding bump bucket_index
  observe buckets state value = record {
    counts = bump state.counts (bucket_index buckets value);
    sum = add state.sum value;
    count = u64 (state.count + 1);
  }

  -- The loop of `encode` over the bounds: the cumulative count for each, and at the end the one for
  -- `+Inf`.
  unfoldable pub cumulative_from : ℕ → ℕ → List Float → HistogramState → List ℕ
  cumulative_from acc idx [] state = u64 (acc + get_or_zero state.counts idx) ∷ []
  cumulative_from acc idx (bound ∷ buckets) state =
      let total = u64 (acc + get_or_zero state.counts idx) in
      total ∷ cumulative_from total (suc idx) buckets state
