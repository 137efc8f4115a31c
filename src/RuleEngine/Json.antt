-- ===== src/RuleEngine/Json.antt =====
-- services/rule-engine/src/main.rs: what the engine uses of `serde_json`. Maps are keyed by texts as
-- code points, since a path is taken apart.
use lokan_os.Prelude.{ℕ, String, Bool, true, ◌≡◌, Option, List}
use lokan_os.Prelude.Dict.{Dict}

-- `as_object` is the match on `Value::Object`; `lt` is `<` on `f64`. `value_eq` is `==`, which is
-- reflexive, since JSON has no NaN.
pub record Json : Type 1 where
  pub Value : Type 0
  pub Float : Type 0
  pub null : Value
  pub text : String → Value
  pub number : ℕ → Value
  pub as_object : Value → Option (Dict (List ℕ) Value)
  pub as_f64 : Value → Option Float
  pub lt : Float → Float → Bool
  pub value_eq : Value → Value → Bool
  pub value_eq_refl : (v : Value) → value_eq v v ≡ true
