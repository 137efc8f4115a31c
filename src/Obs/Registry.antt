-- ===== src/Obs/Registry.antt =====
-- crates/common-obs/src/metrics.rs: the registry of metrics, and its text. Metrics are shared
-- (`Arc<…VecInner>`): each that was made has an address, and a handle (`CounterVec`, `GaugeVec`,
-- `HistogramVec`) is an address.
pub mod Hidden
use lokan_os.Prelude.{
  ℕ, zero, suc, Bool, true, false, ◌||◌, ◌&&◌, Option, none, some, List, [], ◌∷◌, ◌++◌, map, length,
  any, ◌==◌, if◌then◌else◌,
}
use lokan_os.Prelude.Text.{Text, codes, codes_eq, codes_lt}
use lokan_os.Prelude.Keys.{texts_key}
use lokan_os.Prelude.Dict.{Dict}
use lokan_os.Prelude.Digits.{decimal}
use lokan_os.Obs.Floats.{Floats}
use lokan_os.Obs.Histogram.{HistogramState, cumulative_from}
use lokan_os.Obs.Labels.{write_labels, format_float}
use lokan_os.Obs.Vectors.{VecInner, new, HistogramVecInner, inc}

-- The order of `Vec<String>`.
abbrev labels_lt : List Text → List Text → Bool
labels_lt [] [] = false
labels_lt [] (t ∷ ts) = true
labels_lt (s ∷ ss) [] = false
labels_lt (s ∷ ss) (t ∷ ts) = codes_lt s t || (codes_eq s t && labels_lt ss ts)

insert_sorted : {V : Type 0} → List Text × V → List (List Text × V) → List (List Text × V)
insert_sorted sample [] = sample ∷ []
insert_sorted sample (other ∷ samples) =
    let rest = insert_sorted sample samples in
    if labels_lt other.0 sample.0 then other ∷ rest else sample ∷ other ∷ samples

-- `samples.sort_by(|a, b| a.0.cmp(&b.0))`
pub sort_samples : {V : Type 0} → List (List Text × V) → List (List Text × V)
unfolding insert_sorted
sort_samples [] = []
sort_samples (sample ∷ samples) = insert_sorted sample (sort_samples samples)

concat : List Text → Text
concat [] = []
concat (t ∷ ts) = t ++ concat ts

abbrev newline : Text
newline = 10 ∷ []

-- The lines `# HELP` and `# TYPE`.
heading : {V : Type 0} → VecInner V → Text → Text
heading vec kind =
    codes "# HELP "
    ++ vec.name
    ++ codes " "
    ++ vec.help
    ++ newline
    ++ codes "# TYPE "
    ++ vec.name
    ++ codes " "
    ++ kind
    ++ newline

-- One line: the name with its suffix, the labels and the value.
sample_line : Text → List Text → List Text → Text → Text
sample_line name label_names labels value =
    name ++ write_labels label_names labels ++ codes " " ++ value ++ newline

-- The counter branch of `Registry::encode`.
pub encode_counter : VecInner ℕ → Text
unfolding sort_samples concat heading sample_line
encode_counter vec =
    heading vec (codes "counter")
    ++ concat (
        map (λ sample. sample_line vec.name vec.label_names sample.0 (decimal sample.1))
          (sort_samples vec.values))

module _ (fl : Floats) where
  open fl use {Float, format_6}

  float_text : Float → Text
  float_text value = format_float (format_6 value)

  -- The gauge branch of `Registry::encode`.
  pub encode_gauge : VecInner Float → Text
  unfolding sort_samples concat heading sample_line float_text
  encode_gauge vec =
      heading vec (codes "gauge")
      ++ concat (
          map (λ sample. sample_line vec.name vec.label_names sample.0 (float_text sample.1))
            (sort_samples vec.values))

  -- The bucket lines of one histogram: its cumulative counts, and the bounds as texts, `+Inf` last.
  bucket_lines : VecInner (HistogramState fl) → List Text → List ℕ → List Text → Text
  bucket_lines vec labels (count ∷ counts) (bound ∷ bounds) =
      sample_line (vec.name ++ codes "_bucket") (vec.label_names ++ codes "le" ∷ [])
        (labels ++ bound ∷ []) (decimal count)
      ++ bucket_lines vec labels counts bounds
  bucket_lines vec labels _ _ = []

  -- All lines of one histogram.
  histogram_lines : HistogramVecInner fl → List Text × HistogramState fl → Text
  unfolding bucket_lines sample_line float_text
  histogram_lines histogram (labels, snapshot) =
      let vec = histogram.vec in
      bucket_lines vec labels (cumulative_from fl 0 0 histogram.buckets snapshot)
        (map float_text histogram.buckets ++ codes "+Inf" ∷ [])
      ++ sample_line (vec.name ++ codes "_sum") vec.label_names labels (float_text snapshot.sum)
      ++ sample_line (vec.name ++ codes "_count") vec.label_names labels (decimal snapshot.count)

  -- The histogram branch of `Registry::encode`.
  pub encode_histogram : HistogramVecInner fl → Text
  unfolding sort_samples concat heading histogram_lines
  encode_histogram histogram =
      heading histogram.vec (codes "histogram")
      ++ concat (map (histogram_lines histogram) (sort_samples histogram.vec.values))

  pub data MetricFamily : Type 0 where
    counter : VecInner ℕ → MetricFamily
    gauge : VecInner Float → MetricFamily
    histogram : HistogramVecInner fl → MetricFamily

  -- Every metric that was made, by its address, and the addresses in the registry.
  pub record Metrics : Type 0 where
    pub made : List MetricFamily
    pub families : List ℕ

  abbrev pub at : List MetricFamily → ℕ → Option MetricFamily
  at [] address = none
  at (family ∷ made) zero = some family
  at (family ∷ made) (suc address) = at made address

  -- A family of the same kind with the same name.
  abbrev pub clashes : MetricFamily → Option MetricFamily → Bool
  clashes (counter vec) (some (counter existing)) = codes_eq existing.name vec.name
  clashes (gauge vec) (some (gauge existing)) = codes_eq existing.name vec.name
  clashes (histogram h) (some (histogram existing)) = codes_eq existing.vec.name h.vec.name
  clashes _ _ = false

  -- Registry::register_counter, register_gauge and register_histogram
  unfoldable pub register : Metrics → ℕ → MetricFamily → Metrics
  register metrics address family =
      if any (λ existing. clashes family (at metrics.made existing)) metrics.families
      then metrics
      else record { made = metrics.made; families = metrics.families ++ address ∷ [] }

  -- A new family gets the next address, and is registered.
  unfoldable pub make : Metrics → MetricFamily → Metrics × ℕ
  unfolding register
  make metrics family =
      let address = length metrics.made in
      (
        register (record { made = metrics.made ++ family ∷ []; families = metrics.families })
            address family,
        address,
      )

  -- register_counter
  unfoldable pub register_counter : Metrics → Text → Text → List Text → Metrics × ℕ
  unfolding make
  register_counter metrics name help label_names =
      make metrics (counter (new name help label_names))

  -- register_gauge
  unfoldable pub register_gauge : Metrics → Text → Text → List Text → Metrics × ℕ
  unfolding make
  register_gauge metrics name help label_names = make metrics (gauge (new name help label_names))

  -- register_histogram
  unfoldable pub register_histogram : Metrics → Text → Text → List Text → List Float → Metrics × ℕ
  unfolding make
  register_histogram metrics name help label_names buckets =
      make metrics (histogram (record { vec = new name help label_names; buckets = buckets }))

  encode_family : Option MetricFamily → Text
  unfolding encode_counter encode_gauge encode_histogram
  encode_family none = []
  encode_family (some (counter vec)) = encode_counter vec
  encode_family (some (gauge vec)) = encode_gauge vec
  encode_family (some (histogram h)) = encode_histogram h

  encode_all : List MetricFamily → List ℕ → Text
  unfolding encode_family
  encode_all made [] = []
  encode_all made (address ∷ families) = encode_family (at made address) ++ encode_all made families

  -- Registry::encode
  unfoldable pub encode : Metrics → Text
  unfolding encode_all
  encode metrics = encode_all metrics.made metrics.families

  pub put : List MetricFamily → ℕ → MetricFamily → List MetricFamily
  put [] address family = []
  put (old ∷ made) zero family = family ∷ made
  put (old ∷ made) (suc address) family = old ∷ put made address family

  -- The metrics once the counter at the address is counted up, or as they were where it panicked.
  abbrev pub counted : Metrics → ℕ → Option (VecInner ℕ) → Metrics
  counted metrics address none = metrics
  counted metrics address (some after) = record {
    made = put metrics.made address (counter after);
    families = metrics.families;
  }

  unfoldable pub inc_family : Metrics → ℕ → Option MetricFamily → List Text → ℕ → Metrics
  unfolding inc
  inc_family metrics address (some (counter vec)) labels amount =
      counted metrics address (inc vec labels amount)
  inc_family metrics address _ labels amount = metrics

  -- CounterVec::inc through a handle
  unfoldable pub inc_at : Metrics → ℕ → List Text → ℕ → Metrics
  unfolding inc_family
  inc_at metrics address labels amount =
      inc_family metrics address (at metrics.made address) labels amount
