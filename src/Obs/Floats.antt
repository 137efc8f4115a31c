-- ===== src/Obs/Floats.antt =====
-- What the metrics use of `f64`. `format_6` is the text that `{:.6}` gives, and `le` is `<=`, which
-- is false where an argument is no number.
use lokan_os.Prelude.{ℕ, Bool, List}

pub record Floats : Type 1 where
  pub Float : Type 0
  pub float_zero : Float
  pub add : Float → Float → Float
  pub le : Float → Float → Bool
  pub format_6 : Float → List ℕ
