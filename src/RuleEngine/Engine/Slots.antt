-- ===== src/RuleEngine/Engine/Slots.antt =====
-- services/rule-engine/src/main.rs: the rules and their traces belong together.
use lokan_os.Prelude.{
  ℕ, String, ◌≡◌, refl, sym, ap, ◌∙◌, true, List, [], ◌∷◌, arith, Bool-cases, Option-cases, inl,
  inr, str_eq, eq_iff,
}
use lokan_os.Prelude.Keys.{string_key}
use lokan_os.Prelude.Dict.{
  Dict, get, insert, remove, contains_key, contains_key-insert, contains_key-remove,
}
use lokan_os.RuleEngine.Json.{Json}
use lokan_os.RuleEngine.Rules.{RuleDefinition}
use lokan_os.RuleEngine.Schedule.{should_fire}
use lokan_os.RuleEngine.Traces.{record_trace}
use lokan_os.RuleEngine.Engine.{
  RuleInstance, TraceEntry, AppState, empty, create_rule, delete_rule, visit, visit_all, run_tick,
}

module _ (json : Json) where
  -- Each entry of the rules has its key for the rule's id.
  abbrev pub OwnIds : Dict String (RuleInstance json) → Type 0
  OwnIds [] = Unit
  OwnIds ((id, r) ∷ m) = (r.definition.id ≡ id) × OwnIds m

  OwnIds-insert :
      (m : Dict String (RuleInstance json)) (r : RuleInstance json)
      → OwnIds m
      → OwnIds (insert m r.definition.id r)
  unfolding insert
  OwnIds-insert [] r h = (refl, tt)
  OwnIds-insert ((id, q) ∷ m) r h = elim (Bool-cases (str_eq id r.definition.id)) [
    | inl same ↦ rw same (refl, h.1)
    | inr other ↦ rw other (h.0, OwnIds-insert m r h.1)
  ]

  OwnIds-remove :
      (m : Dict String (RuleInstance json)) (k : String) → OwnIds m → OwnIds (remove m k)
  unfolding remove
  OwnIds-remove [] k h = tt
  OwnIds-remove ((id, q) ∷ m) k h = elim (Bool-cases (str_eq id k)) [
    | inl same ↦ rw same (OwnIds-remove m k h.1)
    | inr other ↦ rw other (h.0, OwnIds-remove m k h.1)
  ]

  -- A rule is kept under its own id, and has a trace; only rules have traces.
  pub record IsPaired (s : AppState json) : Type 0 where
    pub own_ids : OwnIds s.rules
    pub together : (id : String) → contains_key s.traces id ≡ contains_key s.rules id

  pub empty-IsPaired : IsPaired (empty json)
  unfolding contains_key get
  empty-IsPaired = record { own_ids = tt; together = λ id. refl }

  pub create_rule-IsPaired :
      (s : AppState json) (payload : RuleDefinition json) (fresh : String)
      → IsPaired s
      → IsPaired (create_rule json s payload fresh).0
  unfolding create_rule
  create_rule-IsPaired s payload fresh w = record {
    own_ids = OwnIds-insert s.rules _ w.own_ids;
    together = λ id. rw (contains_key-insert, contains_key-insert, w.together id);
  }

  pub delete_rule-IsPaired :
      (s : AppState json) (id : String) → IsPaired s → IsPaired (delete_rule json s id).0
  unfolding delete_rule
  delete_rule-IsPaired s id w = elim (Option-cases (get s.rules id)) [
    | inl missing ↦ rw (missing, delete_rule) w
    | inr (r, found) ↦
        rw (found, delete_rule)
          (record {
            own_ids = OwnIds-remove s.rules id w.own_ids;
            together = λ j. rw (contains_key-remove, contains_key-remove, w.together j);
          })
  ]

  -- Each of the rules has a trace.
  abbrev Traced : Dict String (RuleInstance json) → Dict String (List (TraceEntry json)) → Type 0
  Traced [] traces = Unit
  Traced ((id, r) ∷ m) traces = (contains_key traces id ≡ true) × Traced m traces

  Traced-same :
      (m : Dict String (RuleInstance json)) (traces traces' : Dict String (List (TraceEntry json)))
      → ((id : String) → contains_key traces' id ≡ contains_key traces id)
      → Traced m traces
      → Traced m traces'
  Traced-same [] traces traces' same t = tt
  Traced-same ((id, r) ∷ m) traces traces' same t =
      (same id ∙ t.0, Traced-same m traces traces' same t.1)

  module _ (tick : ℕ) (now : String) where
    visit-definition :
        (duration : json.Float) (r : RuleInstance json)
        (traces : Dict String (List (TraceEntry json)))
        → (visit json tick now duration r traces).0.definition ≡ r.definition
    unfolding visit
    visit-definition duration r traces = ground arith

    visit-traces :
        (duration : json.Float) (r : RuleInstance json)
        (traces : Dict String (List (TraceEntry json)))
        → contains_key traces r.definition.id ≡ true
        → (id : String)
        → contains_key (visit json tick now duration r traces).1 id ≡ contains_key traces id
    unfolding visit record_trace
    visit-traces duration r traces h id = elim (Bool-cases (should_fire r.schedule tick)) [
      | inl fires ↦ rw (fires, contains_key-insert) (ground (arith, h, eq_iff r.definition.id id))
      | inr waits ↦ rw waits refl
    ]

    cons-same :
        (m m' : Dict String (RuleInstance json)) (id : String) (r r' : RuleInstance json)
        → ((k : String) → contains_key m' k ≡ contains_key m k)
        → (k : String) → contains_key ((id, r') ∷ m') k ≡ contains_key ((id, r) ∷ m) k
    unfolding contains_key get
    cons-same m m' id r r' same k = ground (arith, same k)

    visit_all-together :
        (durations : String → json.Float) (m : Dict String (RuleInstance json))
        (traces : Dict String (List (TraceEntry json)))
        → OwnIds m
        → Traced m traces
        → let (m', traces') = visit_all json tick now durations m traces in
          OwnIds m'
          × ((id : String) → contains_key m' id ≡ contains_key m id)
          × ((id : String) → contains_key traces' id ≡ contains_key traces id)
    unfolding visit_all
    visit_all-together durations [] traces h t = (tt, λ id. refl, λ id. refl)
    visit_all-together durations ((id, r) ∷ m) traces h t =
        let own : contains_key traces r.definition.id ≡ true = rw h.0 t.0 in
        let kept = visit-traces (durations id) r traces own in
        let traces' = (visit json tick now (durations id) r traces).1 in
        let (ids, keys, slots) =
          visit_all-together durations m traces' h.1 (Traced-same m traces traces' kept t.1) in
        (
          (
            ap (λ (d : RuleDefinition json). d.id) (visit-definition (durations id) r traces) ∙ h.0,
            ids,
          ),
          cons-same m _ id r _ keys,
          λ k. slots k ∙ kept k,
        )

    Traced-of_together :
        (m all : Dict String (RuleInstance json)) (traces : Dict String (List (TraceEntry json)))
        → ((id : String) → contains_key m id ≡ true → contains_key all id ≡ true)
        → ((id : String) → contains_key traces id ≡ contains_key all id)
        → Traced m traces
    unfolding contains_key get
    Traced-of_together [] all traces sub together = tt
    Traced-of_together ((id, r) ∷ m) all traces sub together = (
      together id ∙ sub id (ground (arith, eq_iff id id)),
      Traced-of_together m all traces (λ k h. sub k (ground (arith, h))) together,
    )

    -- When each rule stands under its own id, and the ids that have a rule are those that have a trace,
    -- then so it is after a tick of the scheduler, whatever the time and the durations.
    pub run_tick-IsPaired :
        (s : AppState json) (durations : String → json.Float)
        → IsPaired s
        → IsPaired (run_tick json s tick now durations)
    unfolding run_tick
    run_tick-IsPaired s durations w =
        let traced = Traced-of_together s.rules s.rules s.traces (λ id h. h) w.together in
        let (ids, keys, slots) = visit_all-together durations s.rules s.traces w.own_ids traced in
        record { own_ids = ids; together = λ id. slots id ∙ w.together id ∙ sym (keys id) }
