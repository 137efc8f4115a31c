-- ===== src/RuleEngine/Engine.antt =====
-- services/rule-engine/src/main.rs: the shared state, the handlers, and one tick of the scheduler.
-- New ids, the time and the duration of an evaluation are arguments. Each handler runs to its end
-- before the next.
pub mod Slots
pub mod Ticks
use lokan_os.Prelude.{
  ℕ, zero, suc, ◌+◌, ◌%◌, ◌^◌, max, String, Bool, true, false, Option, none, some, List, [], ◌∷◌,
  map, length, if◌then◌else◌, u64, ◌==◌, str_eq,
}
use lokan_os.Prelude.Text.{codes, trim}
use lokan_os.Prelude.Keys.{string_key, codes_key}
use lokan_os.Prelude.Dict.{Dict, get, insert, remove, contains_key}
use lokan_os.Prelude.Result.{Result, ok, err}
use lokan_os.RuleEngine.Json.{Json}
use lokan_os.RuleEngine.Rules.{RuleDefinition}
use lokan_os.RuleEngine.Schedule.{ScheduleState, new_schedule, should_fire, advance}
use lokan_os.RuleEngine.Evaluate.{Context, EvaluationResult, evaluate_rule, Line, ActionExecution}
use lokan_os.RuleEngine.Traces.{
  record_trace, traces_for, init_trace_slot, drop_trace_slot, or_default,
}

pub data RuleEngineError : Type 0 where
  not_found : RuleEngineError
  invalid_request : String → RuleEngineError

-- RuleEngineError::into_response
abbrev pub status_of : RuleEngineError → ℕ
status_of not_found = 404
status_of (invalid_request message) = 400

module _ (json : Json) where
  pub record RuleInstance : Type 0 where
    pub definition : RuleDefinition json
    pub schedule : ScheduleState

  -- RuleTraceEntry; the duration is a float.
  pub record TraceEntry : Type 0 where
    pub timestamp : String
    pub duration_ms : json.Float
    pub result : EvaluationResult json

  pub record AppState : Type 0 where
    pub rules : Dict String RuleInstance
    pub traces : Dict String (List TraceEntry)

  abbrev pub empty : AppState
  empty = record { rules = []; traces = [] }

  unfoldable pub list_rules : AppState → List (RuleDefinition json)
  list_rules s = map (λ e. e.1.definition) s.rules

  -- The largest `next_tick` of the rules, or 0.
  unfoldable pub latest : Dict String RuleInstance → ℕ
  latest [] = 0
  latest ((id, instance_) ∷ m) = max instance_.schedule.next_tick (latest m)

  abbrev named : RuleDefinition json → String → RuleDefinition json
  named payload fresh = if str_eq payload.id "" then record payload { id = fresh } else payload

  -- create_rule, with the id that `Uuid::new_v4` would give.
  unfoldable pub create_rule :
      AppState → RuleDefinition json → String → AppState × RuleDefinition json
  unfolding latest init_trace_slot
  create_rule s payload fresh =
      let rule = named payload fresh in
      (
        record {
          rules =
              insert s.rules rule.id (record {
                definition = rule;
                schedule = new_schedule rule.trigger (latest s.rules);
              });
          traces = init_trace_slot s.traces rule.id;
        },
        rule,
      )

  -- delete_rule
  unfoldable pub delete_rule : AppState → String → AppState × Result RuleEngineError ℕ
  unfolding drop_trace_slot
  delete_rule s id = elim (get s.rules id) [
    | none ↦ (s, err not_found)
    | some _ ↦ (record { rules = remove s.rules id; traces = drop_trace_slot s.traces id }, ok 204)
  ]

  -- rule_trace
  unfoldable pub rule_trace : AppState → String → Result RuleEngineError (List TraceEntry)
  unfolding traces_for trim
  rule_trace s rule_id =
      if length (trim (codes rule_id)) == 0
      then err (invalid_request "rule_id query parameter is required")
      else if contains_key s.rules rule_id
      then ok (or_default (traces_for s.traces rule_id))
      else err not_found

  -- The context that the scheduler evaluates a rule in.
  abbrev pub tick_context : ℕ → String → Context json
  tick_context tick now =
      insert (insert [] (codes "now") (json.text now)) (codes "tick") (json.number tick)

  -- One rule in one tick.
  pub visit :
      ℕ
      → String
      → json.Float
      → RuleInstance
      → Dict String (List TraceEntry)
      → RuleInstance × Dict String (List TraceEntry)
  unfolding record_trace advance
  visit tick now duration r traces =
      if should_fire r.schedule tick
      then (
        record r { schedule = advance r.schedule },
        record_trace traces r.definition.id (record {
          timestamp = now;
          duration_ms = duration;
          result = evaluate_rule json r.definition (tick_context tick now) now;
        }),
      )
      else (r, traces)

  -- The loop over the rules; `durations` are what the clock measures, by the rule's key.
  pub visit_all :
      ℕ
      → String
      → (String → json.Float)
      → Dict String RuleInstance
      → Dict String (List TraceEntry)
      → Dict String RuleInstance × Dict String (List TraceEntry)
  unfolding visit
  visit_all tick now durations [] traces = ([], traces)
  visit_all tick now durations ((id, r) ∷ m) traces =
      let (r', traces') = visit tick now (durations id) r traces in
      let (m', final) = visit_all tick now durations m traces' in ((id, r') ∷ m', final)

  -- One round of run_scheduler, at a tick.
  unfoldable pub run_tick : AppState → ℕ → String → (String → json.Float) → AppState
  unfolding visit_all
  run_tick s tick now durations =
      let (rules, traces) = visit_all tick now durations s.rules s.traces in
      record { rules = rules; traces = traces }

module _ (json : Json) where
  pub record RuleTestRequest : Type 0 where
    pub rule : RuleDefinition json
    pub context : Context json

  -- RuleTestResponse has the fields of an evaluation.
  pub record RuleTestResponse : Type 0 where
    pub fired : Bool
    pub trace : List (Line json)
    pub actions : List (ActionExecution json)

  -- test_rule, at a time; it uses no state.
  pub test_rule : RuleTestRequest → String → RuleTestResponse
  unfolding evaluate_rule
  test_rule request now =
      let evaluation = evaluate_rule json request.rule request.context now in
      record { fired = evaluation.fired; trace = evaluation.trace; actions = evaluation.actions }

-- `tick.wrapping_add(1)`
abbrev pub next_tick : ℕ → ℕ
next_tick tick = u64 (tick + 1)
