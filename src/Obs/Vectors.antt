-- ===== src/Obs/Vectors.antt =====
-- crates/common-obs/src/metrics.rs: metrics with labels. The three `…VecInner` are one record over
-- the type of a value; a value stays in the map for good, so a handle to it (`Counter`, `Gauge`,
-- `Histogram`) is its key.
pub mod Totals
use lokan_os.Prelude.{ℕ, ◌+◌, ◌==◌, Option, none, some, List, [], length, u64, if◌then◌else◌}
use lokan_os.Prelude.Text.{Text}
use lokan_os.Prelude.Keys.{texts_key}
use lokan_os.Prelude.Dict.{Dict, modify, or_insert}
use lokan_os.Obs.Floats.{Floats}
use lokan_os.Obs.Histogram.{HistogramState, new as new_state, observe as observe_value}

pub record VecInner (V : Type 0) : Type 0 where
  pub name : Text
  pub help : Text
  pub label_names : List Text
  pub values : Dict (List Text) V

module _ {V : Type 0} where
  -- CounterVecInner::new, GaugeVecInner::new, HistogramVecInner::new
  unfoldable pub new : Text → Text → List Text → VecInner V
  new name help label_names = record {
    name = name;
    help = help;
    label_names = label_names;
    values = [];
  }

  abbrev pub with_values : VecInner V → Dict (List Text) V → VecInner V
  with_values vec values = record {
    name = vec.name;
    help = vec.help;
    label_names = vec.label_names;
    values = values;
  }

  -- get_or_create, which panics where the labels are too few or too many
  unfoldable pub get_or_create : V → VecInner V → List Text → Option (VecInner V)
  get_or_create fresh vec labels =
      if length vec.label_names == length labels
      then some (with_values vec (or_insert vec.values labels fresh))
      else none

  -- A change of the value behind a handle.
  unfoldable pub update : (V → V) → VecInner V → List Text → VecInner V
  update f vec labels = with_values vec (modify f vec.values labels)

  -- with_label_values and then the change of the value
  unfoldable pub update_at : V → (V → V) → VecInner V → List Text → Option (VecInner V)
  unfolding get_or_create update
  update_at fresh f vec labels = elim (get_or_create fresh vec labels) [
    | none ↦ none
    | some created ↦ some (update f created labels)
  ]

-- CounterVec::ensure; a counter starts at 0
unfoldable pub ensure_counter : VecInner ℕ → List Text → Option (VecInner ℕ)
unfolding get_or_create
ensure_counter vec labels = get_or_create 0 vec labels

-- CounterVec::inc; `fetch_add` wraps
unfoldable pub inc : VecInner ℕ → List Text → ℕ → Option (VecInner ℕ)
unfolding update_at
inc vec labels amount = update_at 0 (λ value. u64 (value + amount)) vec labels

module _ (fl : Floats) where
  open fl use {Float, float_zero}

  -- HistogramVecInner
  pub record HistogramVecInner : Type 0 where
    pub vec : VecInner (HistogramState fl)
    pub buckets : List Float

  -- GaugeVec::ensure; the bits of a new gauge are those of 0.0
  unfoldable pub ensure_gauge : VecInner Float → List Text → Option (VecInner Float)
  unfolding get_or_create
  ensure_gauge vec labels = get_or_create float_zero vec labels

  -- GaugeVec::set
  unfoldable pub set : VecInner Float → List Text → Float → Option (VecInner Float)
  unfolding update_at
  set vec labels value = update_at float_zero (λ _. value) vec labels

  abbrev with_vec :
      HistogramVecInner → Option (VecInner (HistogramState fl)) → Option HistogramVecInner
  with_vec histogram none = none
  with_vec histogram (some vec) = some (record { vec = vec; buckets = histogram.buckets })

  -- HistogramVec::ensure
  unfoldable pub ensure_histogram : HistogramVecInner → List Text → Option HistogramVecInner
  unfolding get_or_create new_state
  ensure_histogram histogram labels =
      with_vec histogram
        (get_or_create (new_state fl (length histogram.buckets)) histogram.vec labels)

  -- HistogramVec::observe
  unfoldable pub observe : HistogramVecInner → List Text → Float → Option HistogramVecInner
  unfolding update_at new_state observe_value
  observe histogram labels value = with_vec histogram (
      update_at (new_state fl (length histogram.buckets))
        (λ state. observe_value fl histogram.buckets state value) histogram.vec labels)
