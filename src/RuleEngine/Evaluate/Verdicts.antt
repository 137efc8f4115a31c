-- ===== src/RuleEngine/Evaluate/Verdicts.antt =====
-- services/rule-engine/src/main.rs: an evaluation against what the conditions say.
use lokan_os.Prelude.{
  ℕ, String, Bool, true, false, ◌≡◌, refl, sym, ap, ◌∙◌, ◌⊎◌, Option, some, List, [], ◌∷◌, ◌++◌,
  map, if◌then◌else◌, all, arith, Bool-cases, inl, inr,
}
use mathlib.Core.List.{append_assoc, append-nil}
use lokan_os.Prelude.Keys.{codes_key}
use lokan_os.Prelude.Dict.{Dict}
use lokan_os.RuleEngine.Json.{Json}
use lokan_os.RuleEngine.Rules.{
  ValueRef, Condition, equals, greater_than, less_than, RuleDefinition, executed, skipped,
}
use lokan_os.RuleEngine.Evaluate.{
  resolve, Line, evaluating, conditions_satisfied, conditions_failed, ConditionState, matched,
  failed, equals_matched, equals_failed, numeric_matched, numeric_failed, not_numbers, evaluate,
  check_conditions, execution, evaluate_rule,
}
use lokan_os.RuleEngine.Evaluate.References.{Means, resolve-Means}

module _ (json : Json) (ctx : Dict (List ℕ) json.Value) (now : String) where
  -- A number compared with another; anything that is no number fails.
  abbrev both : (json.Float → json.Float → Bool) → Option json.Float → Option json.Float → Bool
  both cmp (some l) (some r) = cmp l r
  both cmp _ _ = false

  -- What a condition says of its context.
  abbrev pub holds : Condition json → Bool
  holds (equals l r) = json.value_eq (resolve json ctx now l) (resolve json ctx now r)
  holds (greater_than l r) =
      both (λ x y. json.lt y x) (json.as_f64 (resolve json ctx now l))
        (json.as_f64 (resolve json ctx now r))
  holds (less_than l r) =
      both json.lt (json.as_f64 (resolve json ctx now l)) (json.as_f64 (resolve json ctx now r))

  abbrev line_of : ConditionState json → Line json
  line_of (matched line) = line
  line_of (failed line) = line

  abbrev is_matched : ConditionState json → Bool
  is_matched (matched line) = true
  is_matched (failed line) = false

  -- The conditions up to the first that does not hold, that one included.
  abbrev pub examined : List (Condition json) → List (Condition json)
  examined [] = []
  examined (c ∷ cs) = if holds c then c ∷ examined cs else c ∷ []

  abbrev compared_line :
      String → Bool → json.Value → json.Value → Option json.Float → Option json.Float → Line json
  compared_line label met v w (some l) (some r) =
      if met then numeric_matched label l r else numeric_failed label l r
  compared_line label met v w _ _ = not_numbers label v w

  -- What the trace says of a condition: whether it holds, with the two values; and that they are no
  -- numbers where it compares numbers.
  abbrev pub line : Condition json → Line json
  line (equals l r) =
      let v = resolve json ctx now l in
      let w = resolve json ctx now r in
      if holds (equals l r) then equals_matched v w else equals_failed v w
  line (greater_than l r) =
      let v = resolve json ctx now l in
      let w = resolve json ctx now r in
      compared_line "greater_than" (holds (greater_than l r)) v w (json.as_f64 v) (json.as_f64 w)
  line (less_than l r) =
      let v = resolve json ctx now l in
      let w = resolve json ctx now r in
      compared_line "less_than" (holds (less_than l r)) v w (json.as_f64 v) (json.as_f64 w)

  evaluate-line : (c : Condition json) → line_of (evaluate json ctx now c) ≡ line c
  unfolding evaluate
  evaluate-line (equals l r) = ground arith
  evaluate-line (greater_than l r) = ground arith
  evaluate-line (less_than l r) = ground arith

  evaluate-holds : (c : Condition json) → is_matched (evaluate json ctx now c) ≡ holds c
  unfolding evaluate
  evaluate-holds (equals l r) = ground arith
  evaluate-holds (greater_than l r) = ground arith
  evaluate-holds (less_than l r) = ground arith

  state-cases :
      (r : ConditionState json)
      → ((l : Line json) × (r ≡ matched l)) ⊎ ((l : Line json) × (r ≡ failed l))
  state-cases (matched l) = inl (l, refl)
  state-cases (failed l) = inr (l, refl)

  check_conditions-eq :
      (trace : List (Line json)) (cs : List (Condition json))
      → check_conditions json ctx now trace cs ≡ (trace ++ map line (examined cs), all holds cs)
  unfolding check_conditions
  check_conditions-eq trace [] = rw append-nil
  check_conditions-eq trace (c ∷ cs) = elim (state-cases (evaluate json ctx now c)) [
    | inl (l, e) ↦
        let h : holds c ≡ true = sym (evaluate-holds c) ∙ ap is_matched e in
        let spoken : l ≡ line c = sym (ap line_of e) ∙ evaluate-line c in
        rw (h, e, check_conditions)
          (check_conditions-eq (trace ++ l ∷ []) cs ∙ rw append_assoc (rw spoken refl))
    | inr (l, e) ↦
        let h : holds c ≡ false = sym (evaluate-holds c) ∙ ap is_matched e in
        let spoken : l ≡ line c = sym (ap line_of e) ∙ evaluate-line c in
        rw (h, e, check_conditions) (rw spoken refl)
  ]

  -- Each reference of a condition has the value that it means: a literal itself; a path the entry of
  -- the context of this name, or else what its pieces between the dots lead to, or else the time for
  -- `now` and null for anything else. A rule fires exactly when each of its conditions holds of these
  -- values. Its trace has the lines of the conditions up to the first that does not hold, between the
  -- first line and the verdict; a line says whether the condition holds, or that its values are no
  -- numbers. Each of its actions is reported once, in order, as executed if the rule fires and else
  -- as skipped.
  pub evaluate_rule_lem :
      (rule : RuleDefinition json)
      → let result = evaluate_rule json rule ctx now in
        let met = all holds rule.conditions in
        ((r : ValueRef json) → Means json ctx now r (resolve json ctx now r))
        × (result.fired ≡ met)
        × (result.trace
            ≡ (evaluating rule.id ∷ map line (examined rule.conditions))
              ++ (if met then conditions_satisfied else conditions_failed) ∷ [])
        × (result.actions ≡ map (execution json (if met then executed else skipped)) rule.actions)
  unfolding evaluate_rule
  evaluate_rule_lem rule =
      rw (check_conditions-eq (evaluating rule.id ∷ []) rule.conditions)
        (elim (Bool-cases (all holds rule.conditions)) [
          | inl e ↦ rw e (resolve-Means json ctx now, refl, refl, refl)
          | inr e ↦ rw e (resolve-Means json ctx now, refl, refl, refl)
        ])
