-- ===== src/RuleEngine/Evaluate.antt =====
-- services/rule-engine/src/main.rs: `evaluate_rule`, `Condition::evaluate` and `resolve_path`. A line
-- of the trace is a value of `Line`, for the text that `format!` makes of it.
pub mod References
pub mod Verdicts
use lokan_os.Prelude.{
  ℕ, String, Bool, true, false, Option, none, some, List, [], ◌∷◌, ◌++◌, map, reverse,
  if◌then◌else◌, ◌==◌,
}
use lokan_os.Prelude.Text.{codes, codes_eq}
use lokan_os.Prelude.Keys.{codes_key}
use lokan_os.Prelude.Dict.{Dict, get}
use lokan_os.RuleEngine.Json.{Json}
use lokan_os.RuleEngine.Rules.{
  Trigger, ValueRef, literal, context, Condition, equals, greater_than, less_than, Action,
  RuleDefinition, ActionStatus, executed, skipped,
}

split_from : ℕ → List ℕ → List ℕ → List (List ℕ)
split_from sep cur [] = reverse cur ∷ []
split_from sep cur (c ∷ s) =
    let closed = reverse cur ∷ split_from sep [] s in
    let longer = split_from sep (c ∷ cur) s in if c == sep then closed else longer

-- str::split with a character: there is always a first piece, and pieces may be empty.
unfoldable pub split : ℕ → List ℕ → List (List ℕ)
unfolding split_from
split sep s = split_from sep [] s

module _ (json : Json) where
  open json use {Value, Float, null, text, as_object, as_f64, lt, value_eq}

  abbrev pub Context : Type 0
  Context = Dict (List ℕ) Value

  pub member : Option Context → List ℕ → Option Value
  member none part = none
  member (some m) part = get m part

  -- The loop over the parts after the first.
  pub walk : List (List ℕ) → Option Value → Option Value
  unfolding member
  walk parts none = none
  walk [] (some value) = some value
  walk (part ∷ parts) (some value) = walk parts (member (as_object value) part)

  pub walk_first : Context → List (List ℕ) → Option Value
  unfolding walk
  walk_first ctx [] = none
  walk_first ctx (first ∷ parts) = walk parts (get ctx first)

  pub resolve_path : Context → List ℕ → Option Value
  unfolding walk_first split
  resolve_path ctx path = elim (get ctx path) [
    | some value ↦ some value
    | none ↦ walk_first ctx (split b'.' path)
  ]

  -- ValueRef::resolve; `now` is the time in RFC 3339.
  pub resolve : Context → String → ValueRef json → Value
  resolve ctx now (literal value) = value
  resolve ctx now (context path) = elim (resolve_path ctx path) [
    | some value ↦ value
    | none ↦ if codes_eq path (codes "now") then text now else null
  ]

  pub data Line : Type 0 where
    evaluating : (rule : String) → Line
    equals_matched equals_failed : (left right : Value) → Line
    numeric_matched numeric_failed : (label : String) → (left right : Float) → Line
    not_numbers : (label : String) → (left right : Value) → Line
    conditions_satisfied conditions_failed : Line

  pub data ConditionState : Type 0 where
    matched failed : Line → ConditionState

  pub compared :
      String → (Float → Float → Bool) → Value → Value → Option Float → Option Float → ConditionState
  compared label cmp v w (some l) (some r) =
      if cmp l r then matched (numeric_matched label l r) else failed (numeric_failed label l r)
  compared label cmp v w _ _ = failed (not_numbers label v w)

  compare_numeric :
      String
      → ValueRef json
      → ValueRef json
      → Context
      → String
      → (Float → Float → Bool)
      → ConditionState
  unfolding compared
  compare_numeric label left right ctx now cmp =
      let v = resolve ctx now left in
      let w = resolve ctx now right in compared label cmp v w (as_f64 v) (as_f64 w)

  -- Condition::evaluate
  pub evaluate : Context → String → Condition json → ConditionState
  unfolding compare_numeric
  evaluate ctx now (equals left right) =
      let v = resolve ctx now left in
      let w = resolve ctx now right in
      if value_eq v w then matched (equals_matched v w) else failed (equals_failed v w)
  evaluate ctx now (greater_than left right) =
      compare_numeric "greater_than" left right ctx now (λ l r. lt r l)
  evaluate ctx now (less_than left right) =
      compare_numeric "less_than" left right ctx now (λ l r. lt l r)

  pub record ActionExecution : Type 0 where
    pub action : Action json
    pub status : ActionStatus

  pub record EvaluationResult : Type 0 where
    pub fired : Bool
    pub trace : List Line
    pub actions : List ActionExecution

  -- The loop over the conditions: the trace so far, and whether it ran to its end.
  pub check_conditions : Context → String → List Line → List (Condition json) → List Line × Bool
  check_conditions ctx now trace [] = (trace, true)
  check_conditions ctx now trace (c ∷ cs) = elim (evaluate ctx now c) [
    | matched line ↦ check_conditions ctx now (trace ++ line ∷ []) cs
    | failed line ↦ (trace ++ line ∷ [], false)
  ]

  abbrev pub execution : ActionStatus → Action json → ActionExecution
  execution status action = record { action = action; status = status }

  -- evaluate_rule
  unfoldable pub evaluate_rule : RuleDefinition json → Context → String → EvaluationResult
  unfolding check_conditions
  evaluate_rule rule ctx now =
      let (trace, met) = check_conditions ctx now (evaluating rule.id ∷ []) rule.conditions in
      if met
      then record {
        fired = true;
        trace = trace ++ conditions_satisfied ∷ [];
        actions = map (execution executed) rule.actions;
      }
      else record {
        fired = false;
        trace = trace ++ conditions_failed ∷ [];
        actions = map (execution skipped) rule.actions;
      }
