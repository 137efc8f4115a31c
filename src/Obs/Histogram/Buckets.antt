-- ===== src/Obs/Histogram/Buckets.antt =====
-- crates/common-obs/src/metrics.rs: what the exported buckets count.
use lokan_os.Prelude.{
  ℕ, zero, suc, ◌+◌, ◌≤◌, ◌<◌, ◌^◌, ◌≡◌, refl, ap, sym, subst, ◌∙◌, Bool, true, List, [], ◌∷◌, ◌++◌,
  length, length-append, take, any, u64, arith, if◌then◌else◌, ltb, map, All,
}
use lokan_os.Obs.Floats.{Floats}
use lokan_os.Obs.Histogram.Sums.{
  prefix, total, prefix-bump, length-bump, prefix-replicate, length-replicate, next-prefix,
}
use lokan_os.Obs.Histogram.{
  replicate, bump, get_or_zero, HistogramState, new, bucket_index, observe, cumulative_from,
}

take-append : {A : Type 0} (xs ys : List A) → take (length xs) (xs ++ ys) ≡ xs
take-append [] ys = refl
take-append (x ∷ xs) ys = ap (x ∷◌) (take-append xs ys)

append_one : {A : Type 0} (xs ys : List A) (y : A) → (xs ++ y ∷ []) ++ ys ≡ xs ++ y ∷ ys
append_one [] ys y = refl
append_one (x ∷ xs) ys y = ap (x ∷◌) (append_one xs ys y)

module _ (fl : Floats) where
  open fl use {Float, le}

  -- Some of the bounds is not below the value.
  abbrev pub within : List Float → Float → Bool
  within bounds value = any (λ b. le value b) bounds

  -- How many of the values are within some of the bounds.
  abbrev pub count_within : List Float → List Float → ℕ
  count_within bounds [] = 0
  count_within bounds (value ∷ values) =
      (if within bounds value then 1 else 0) + count_within bounds values

  -- The state after these values, observed from the last to the first.
  pub observe_all : List Float → List Float → HistogramState fl
  observe_all buckets [] = new fl (length buckets)
  observe_all buckets (value ∷ values) = observe fl buckets (observe_all buckets values) value

  index-lt :
      (buckets : List Float) (value : Float) → bucket_index fl buckets value < suc (length buckets)
  unfolding bucket_index
  index-lt [] value = omega arith
  index-lt (b ∷ buckets) value = ground (arith, index-lt buckets value)

  index-within :
      (buckets : List Float) (value : Float) (k : ℕ)
      → k ≤ length buckets
      → ltb (bucket_index fl buckets value) k ≡ within (take k buckets) value
  unfolding bucket_index
  index-within buckets value zero h = ground arith
  index-within [] value (suc k) h = absurd (omega arith)
  index-within (b ∷ buckets) value (suc k) h =
      ground (arith, index-within buckets value k (omega arith))

  -- Counts that belong to these values.
  record Counts (buckets values : List Float) (s : HistogramState fl) : Type 0 where
    pub size : length s.counts ≡ suc (length buckets)
    pub count : s.count ≡ length values
    pub whole : total s.counts ≡ length values
    pub part :
        (k : ℕ) → k ≤ length buckets → prefix k s.counts ≡ count_within (take k buckets) values

  new-Counts : (buckets : List Float) → Counts buckets [] (new fl (length buckets))
  unfolding new total
  new-Counts buckets = record {
    size = length-replicate (suc (length buckets)) 0;
    count = refl;
    whole = prefix-replicate (length (replicate (suc (length buckets)) 0)) (suc (length buckets));
    part = λ k h. prefix-replicate k (suc (length buckets));
  }

  observe-Counts :
      (buckets values : List Float) (s : HistogramState fl) (value : Float)
      → length values + 1 < 2 ^ 64
      → Counts buckets values s
      → Counts buckets (value ∷ values) (observe fl buckets s value)
  unfolding observe total
  observe-Counts buckets values s value small c =
      let i = bucket_index fl buckets value in
      let low : i < length s.counts = omega (arith, c.size, index-lt buckets value) in
      let fits : total s.counts + 1 < 2 ^ 64 = omega (arith, c.whole) in
      record {
        size = length-bump s.counts i ∙ c.size;
        count = omega (arith, c.count);
        whole =
            ap (λ n. prefix n (bump s.counts i)) (length-bump s.counts i)
            ∙ ground (arith, prefix-bump s.counts i (length s.counts) low fits, c.whole, low);
        part = λ k h.
            ground (
              arith,
              prefix-bump s.counts i k low fits,
              index-within buckets value k h,
              c.part k h,
            );
      }

  observe_all-Counts :
      (buckets values : List Float)
      → length values < 2 ^ 64
      → Counts buckets values (observe_all buckets values)
  unfolding observe_all
  observe_all-Counts buckets [] small = new-Counts buckets
  observe_all-Counts buckets (value ∷ values) small =
      observe-Counts buckets values (observe_all buckets values) value (omega arith)
        (observe_all-Counts buckets values (omega arith))

  -- No later bound is below an earlier one.
  abbrev pub IsAscending : List Float → Type 0
  IsAscending [] = Unit
  IsAscending (b ∷ bounds) = All (λ c. le b c ≡ true) bounds × IsAscending bounds

  -- How many of the values are at most the bound.
  abbrev pub count_le : List Float → Float → ℕ
  count_le [] bound = 0
  count_le (value ∷ values) bound = (if le value bound then 1 else 0) + count_le values bound

  module _ (le_trans : (x y z : Float) → le x y ≡ true → le y z ≡ true → le x z ≡ true) where
    within-append :
        (seen : List Float) (bound value : Float)
        → All (λ s. le s bound ≡ true) seen
        → within (seen ++ bound ∷ []) value ≡ le value bound
    within-append [] bound value h = ground arith
    within-append (s ∷ seen) bound value h =
        ground (arith, within-append seen bound value h.1, le_trans value s bound, h.0)

    count_within-append :
        (seen values : List Float) (bound : Float)
        → All (λ s. le s bound ≡ true) seen
        → count_within (seen ++ bound ∷ []) values ≡ count_le values bound
    count_within-append seen [] bound h = refl
    count_within-append seen (value ∷ values) bound h =
        rw (within-append seen bound value h, count_within-append seen values bound h) refl

    Below : List Float → List Float → Type 0
    Below seen rest = All (λ b. All (λ s. le s b ≡ true) seen) rest

    All-append :
        (seen : List Float) (b c : Float)
        → All (λ s. le s c ≡ true) seen
        → le b c ≡ true
        → All (λ s. le s c ≡ true) (seen ++ b ∷ [])
    All-append [] b c h hb = (hb, tt)
    All-append (s ∷ seen) b c h hb = (h.0, All-append seen b c h.1 hb)

    Below-append :
        (seen : List Float) (b : Float) (rest : List Float)
        → Below seen rest
        → All (λ c. le b c ≡ true) rest
        → Below (seen ++ b ∷ []) rest
    unfolding Below
    Below-append seen b [] below up = tt
    Below-append seen b (c ∷ rest) below up =
        (All-append seen b c below.0 up.0, Below-append seen b rest below.1 up.1)

    cumulative_from-eq :
        (values seen rest : List Float) (s : HistogramState fl)
        → length values < 2 ^ 64
        → Counts (seen ++ rest) values s
        → Below seen rest
        → IsAscending rest
        → cumulative_from fl (prefix (length seen) s.counts) (length seen) rest s
          ≡ map (count_le values) rest ++ length values ∷ []
    unfolding cumulative_from Below total
    cumulative_from-eq values seen [] s small c below up =
        let none_left : List Float = [] in
        let size : length s.counts ≡ suc (length seen) =
          omega (arith, c.size, length-append seen none_left) in
        ap (◌∷ []) (
          next-prefix (length seen) s.counts (omega (arith, c.whole))
          ∙ ap (λ n. prefix n s.counts) (sym size)
          ∙ c.whole)
    cumulative_from-eq values seen (b ∷ rest) s small c below up =
        let longer : length (seen ++ b ∷ []) ≡ suc (length seen) =
          omega (arith, length-append seen (b ∷ [])) in
        let bounds = append_one seen rest b in
        let now : u64 (prefix (length seen) s.counts + get_or_zero s.counts (length seen))
            ≡ prefix (length (seen ++ b ∷ [])) s.counts =
          next-prefix (length seen) s.counts (omega (arith, c.whole))
          ∙ ap (λ n. prefix n s.counts) (sym longer) in
        let value : prefix (length (seen ++ b ∷ [])) s.counts ≡ count_le values b =
          c.part (length (seen ++ b ∷ [])) (omega (arith, longer, length-append seen (b ∷ rest)))
          ∙ ap (λ l. count_within (take (length (seen ++ b ∷ [])) l) values) (sym bounds)
          ∙ ap (λ l. count_within l values) (take-append (seen ++ b ∷ []) rest)
          ∙ count_within-append seen values b below.0 in
        let rec =
          cumulative_from-eq values (seen ++ b ∷ []) rest s small
            (subst (λ l. Counts l values s) (sym bounds) c) (Below-append seen b rest below.1 up.0)
            up.1 in
        rw (now, ← longer, rec, value) refl

    never-Below : (rest : List Float) → Below [] rest
    unfolding Below
    never-Below [] = tt
    never-Below (b ∷ rest) = (tt, never-Below rest)

    -- Let the order be transitive and no later bound below an earlier one. After fewer than 2^64
    -- values, each exported bucket counts the values that are at most its bound, and the last one,
    -- `+Inf`, counts all of them; the exported count is the number of values.
    pub cumulative_from-observe_all :
        (buckets values : List Float)
        → IsAscending buckets
        → length values < 2 ^ 64
        → (cumulative_from fl 0 0 buckets (observe_all buckets values)
            ≡ map (count_le values) buckets ++ length values ∷ [])
          × ((observe_all buckets values).count ≡ length values)
    unfolding prefix
    cumulative_from-observe_all buckets values up small =
        let c = observe_all-Counts buckets values small in
        (
          cumulative_from-eq values [] buckets (observe_all buckets values) small c
              (never-Below buckets) up,
          c.count,
        )
