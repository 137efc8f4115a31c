-- ===== src/Obs/Tests.antt =====
-- crates/common-obs: runs of the metrics, with natural numbers in the place of `f64`.
use lokan_os.Prelude.{
  ℕ, ◌+◌, ◌≡◌, refl, true, none, some, List, [], ◌∷◌, ◌++◌, leb, u64, if◌then◌else◌, arith,
}
use lokan_os.Prelude.Text.{Text, codes}
use lokan_os.Prelude.Keys.{texts_key}
use lokan_os.Prelude.Dict.{get}
use lokan_os.Prelude.Digits.{decimal}
use lokan_os.Obs.Floats.{Floats}
use lokan_os.Obs.Histogram.{cumulative_from}
use lokan_os.Obs.Histogram.Buckets.{observe_all, cumulative_from-observe_all}
use lokan_os.Obs.Labels.{write_labels, format_float}
use lokan_os.Obs.Labels.Reading.{read_labels, read_labels-write_labels}
use lokan_os.Obs.Vectors.{VecInner, new}
use lokan_os.Obs.Vectors.Totals.{inc_all, called, total, inc_all-new}
use lokan_os.Obs.Registry.{Metrics, counter, encode, register_counter}
use lokan_os.Obs.Registry.Hidden.{inc_calls, encode-register_counter}
use lokan_os.Obs.Log.{escape, JsonValue, string, number, format_event}
use lokan_os.Obs.Log.Reading.{read_string, read_string-escape}
use lokan_os.Obs.Log.Lines.{IsOneLine, format_event_lem}
use lokan_os.Obs.Trace.{
  TraceContext, default_state, make_context, opened, on_new_span, set_request_id, context_of,
}
use lokan_os.Obs.Trace.Events.{SpanEvent, open_span, run}
use lokan_os.Obs.Trace.Requests.{set_request_id_lem}
use lokan_os.Prelude.{◌≢◌}
use lokan_os.Prelude.Digits.{hex_16}
use lokan_os.Prelude.Dict.{insert}

abbrev naturals : Floats
naturals = record {
  Float = ℕ;
  float_zero = 0;
  add = ◌+◌;
  le = leb;
  format_6 = λ n. decimal n ++ codes ".000000";
}

leb_trans : (x y z : ℕ) → leb x y ≡ true → leb y z ≡ true → leb x z ≡ true
leb_trans x y z h k = ground arith

cumulative_from-observe_all_example :
    (cumulative_from naturals 0 0
        (1 ∷ 5 ∷ [])
        (observe_all naturals (1 ∷ 5 ∷ []) (0 ∷ 3 ∷ 9 ∷ 1 ∷ []))
      ≡ 2 ∷ 3 ∷ 4 ∷ [])
    × ((observe_all naturals (1 ∷ 5 ∷ []) (0 ∷ 3 ∷ 9 ∷ 1 ∷ [])).count ≡ 4)
cumulative_from-observe_all_example =
    cumulative_from-observe_all naturals leb_trans (1 ∷ 5 ∷ []) (0 ∷ 3 ∷ 9 ∷ 1 ∷ [])
      ((refl, tt), (tt, tt)) (omega arith)

abbrev names : List Text
names = codes "service" ∷ codes "route" ∷ []

abbrev quoted : List Text
quoted = codes "a\"b" ∷ codes "c\\" ∷ []

read_labels-write_labels_example :
    read_labels names (write_labels names quoted ++ codes " 1") ≡ some (quoted, codes " 1")
read_labels-write_labels_example = read_labels-write_labels names quoted (codes " 1") refl

abbrev hits : List (List Text × ℕ)
hits = (quoted, 2) ∷ (names, 5) ∷ (quoted, 3) ∷ []

inc_all-new_example :
    (after : VecInner ℕ) × (inc_all (new (codes "hits") [] names) hits ≡ some after)
    × ((l : List Text)
        → get after.values l ≡ (if called l hits then some (u64 (total l hits)) else none))
inc_all-new_example = inc_all-new (codes "hits") [] names hits (refl, (refl, (refl, tt)))

-- A registry with a counter `hits`.
abbrev one : Metrics naturals
one = record { made = counter (new (codes "hits") [] names) ∷ []; families = 0 ∷ [] }

encode-register_counter_example :
    (let made = register_counter naturals one (codes "hits") [] names in
      encode naturals (inc_calls naturals made.0 made.1 hits))
    ≡ encode naturals one
unfolding new
encode-register_counter_example =
    encode-register_counter naturals one (codes "hits") [] names hits
      (inc_all-new (codes "hits") [] names hits (refl, (refl, (refl, tt)))).0 (omega arith, tt)
      (inc_all-new (codes "hits") [] names hits (refl, (refl, (refl, tt)))).1

shown_zero : format_float (codes "0.500000") ≡ codes "0.5"
unfolding format_float
shown_zero = refl

read_string-escape_example :
    read_string (escape (codes "a\"\n\u{7}") ++ b'"' ∷ codes ",")
    ≡ some (codes "a\"\n\u{7}", codes ",")
read_string-escape_example = read_string-escape (codes "a\"\n\u{7}") (codes ",")

abbrev entries : List (Text × JsonValue)
entries = (codes "message", string (codes "a\nb")) ∷ (codes "n", number (codes "7")) ∷ []

format_event_lem_example :
    (line : Text) × (format_event
        (codes "svc")
        (codes "INFO")
        (codes "t")
        none
        (some (codes "r1"))
        entries
      ≡ line ++ 10 ∷ [])
    × IsOneLine line
format_event_lem_example =
    format_event_lem (codes "svc") (codes "INFO") (codes "t") none (some (codes "r1")) entries
      (tt, (refl, tt))

abbrev traced : TraceContext
traced = record { trace_id = hex_16 1; request_id = none }

-- A span and its child.
abbrev spans : List SpanEvent
spans = open_span 1 none ∷ open_span 2 (some 1) ∷ []

set_request_id_lem_example :
    (let after = set_request_id (run default_state spans) 2 (codes "r") in
      (hex_16 1 ≡ hex_16 1
        → context_of after 1 ≡ some (record { trace_id = hex_16 1; request_id = some (codes "r") }))
      × (hex_16 1 ≢ hex_16 1 → context_of after 1 ≡ some traced))
unfolding run default_state context_of on_new_span opened make_context get insert
set_request_id_lem_example =
    set_request_id_lem spans 2 1 (codes "r") traced traced (omega arith) refl refl
