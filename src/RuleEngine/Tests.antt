-- ===== src/RuleEngine/Tests.antt =====
-- services/rule-engine: concrete runs.
use lokan_os.Prelude.{
  ℕ, String, ◌≡◌, refl, none, some, List, [], ◌∷◌, ◌++◌, map, reverse, all, take, if◌then◌else◌,
  ltb, arith,
}
use lokan_os.Prelude.Text.{codes, codes_eq}
use lokan_os.Prelude.Keys.{codes_eq_refl, codes_key, string_key}
use lokan_os.Prelude.Dict.{Dict, get}
use lokan_os.RuleEngine.Json.{Json}
use lokan_os.RuleEngine.Rules.{
  ValueRef, interval, literal, context, equals, less_than, emit_event, RuleDefinition, executed,
  skipped,
}
use lokan_os.RuleEngine.Evaluate.{
  Context, evaluating, conditions_satisfied, conditions_failed, execution, evaluate_rule, resolve,
}
use lokan_os.RuleEngine.Evaluate.References.{Means}
use lokan_os.RuleEngine.Evaluate.Verdicts.{holds, line, examined, evaluate_rule_lem}
use lokan_os.RuleEngine.Traces.{traces_for, max_trace_entries}
use lokan_os.RuleEngine.Traces.Bounds.{record_all, traces_for-record_all}
use lokan_os.RuleEngine.Engine.{AppState, empty, create_rule, run_tick}
use lokan_os.RuleEngine.Engine.Slots.{
  IsPaired, empty-IsPaired, create_rule-IsPaired, run_tick-IsPaired,
}

-- Values are numbers and texts, as lists of code points.
abbrev plain : Json
plain = record {
  Value = List ℕ;
  Float = ℕ;
  null = [];
  text = codes;
  number = λ n. n ∷ [];
  as_object = λ v. none;
  as_f64 = λ v. elim v [ [] ↦ none | n ∷ _ ↦ some n ];
  lt = ltb;
  value_eq = codes_eq;
  value_eq_refl = codes_eq_refl;
}

abbrev blink : RuleDefinition plain
blink = record {
  id = "blink";
  name = none;
  trigger = interval 2;
  conditions =
      less_than (context (codes "tick")) (literal (10 ∷ []))
      ∷ equals (context (codes "tick")) (literal (4 ∷ []))
      ∷ [];
  actions = emit_event "lamp" (1 ∷ []) ∷ [];
}

abbrev wink : RuleDefinition plain
wink = record {
  id = "wink";
  name = none;
  trigger = interval 3;
  conditions = [];
  actions = emit_event "lamp" (0 ∷ []) ∷ [];
}

abbrev at_tick : Context plain
at_tick = (codes "tick", 7 ∷ []) ∷ []

evaluate_rule_lem_example :
    let result = evaluate_rule plain blink at_tick "noon" in
    let met = all (holds plain at_tick "noon") blink.conditions in
    ((r : ValueRef plain) → Means plain at_tick "noon" r (resolve plain at_tick "noon" r))
    × (result.fired ≡ met)
    × (result.trace
        ≡ (evaluating "blink"
            ∷ map (line plain at_tick "noon") (examined plain at_tick "noon" blink.conditions))
          ++ (if met then conditions_satisfied else conditions_failed) ∷ [])
    × (result.actions ≡ map (execution plain (if met then executed else skipped)) blink.actions)
evaluate_rule_lem_example = evaluate_rule_lem plain at_tick "noon" blink

abbrev few_traces : Dict String (List ℕ)
few_traces = ("blink", 1 ∷ 2 ∷ []) ∷ []

get_few : get few_traces "blink" ≡ some (1 ∷ 2 ∷ [])
unfolding get
get_few = refl

traces_for-record_all_example :
    traces_for (record_all few_traces "blink" (3 ∷ 4 ∷ [])) "blink"
    ≡ some (take max_trace_entries (reverse (3 ∷ 4 ∷ []) ++ reverse (1 ∷ 2 ∷ [])))
traces_for-record_all_example =
    traces_for-record_all few_traces "blink" (1 ∷ 2 ∷ []) (3 ∷ 4 ∷ []) get_few (omega arith)

abbrev with_blink : AppState plain
with_blink = (create_rule plain (empty plain) blink "new").0

abbrev noons : ℕ → String
noons tick = "noon"

abbrev ones : ℕ → String → ℕ
ones tick id = 1

run_tick-IsPaired_example : IsPaired plain (run_tick plain with_blink 4 "noon" (λ id. 1))
run_tick-IsPaired_example =
    run_tick-IsPaired plain 4 "noon" with_blink (λ id. 1)
      (create_rule-IsPaired plain (empty plain) blink "new" (empty-IsPaired plain))
