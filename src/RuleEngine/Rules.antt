-- ===== src/RuleEngine/Rules.antt =====
-- services/rule-engine/src/main.rs: the data of a rule.
use lokan_os.Prelude.{ℕ, String, Option, List}
use lokan_os.RuleEngine.Json.{Json}

pub data Trigger : Type 0 where
  interval : (seconds : ℕ) → Trigger
  event : (subject : String) → Trigger

module _ (json : Json) where
  pub data ValueRef : Type 0 where
    literal : (value : json.Value) → ValueRef
    context : (path : List ℕ) → ValueRef

  pub data Condition : Type 0 where
    equals greater_than less_than : (left right : ValueRef) → Condition

  pub data Action : Type 0 where
    emit_event : (subject : String) → (payload : json.Value) → Action
    set_device_state : (device_id : String) → (state : json.Value) → Action

  pub record RuleDefinition : Type 0 where
    pub id : String
    pub name : Option String
    pub trigger : Trigger
    pub conditions : List Condition
    pub actions : List Action

pub data ActionStatus : Type 0 where
  executed skipped : ActionStatus
