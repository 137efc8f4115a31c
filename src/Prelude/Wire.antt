-- ===== src/Prelude/Wire.antt =====
-- `serde_json`, as the services that publish events use it.
use Prim.Native.Nat.{ℕ}
use mathlib.Core.List.{List}
use lokan_os.Prelude.Text.{Text}
use lokan_os.Prelude.Result.{Result}

-- `object` is `json!({…})`.
pub record Wire : Type 1 where
  pub Value : Type 0
  pub null : Value
  pub text : Text → Value
  pub number : ℕ → Value
  pub object : List (Text × Value) → Value
  pub to_vec : Value → Result Text (List ℕ)
