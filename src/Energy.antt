-- ===== src/Energy.antt =====
-- services/energy-svc/src/main.rs: budgets, time-of-use windows and advice. Reading a time of day is
-- chrono's; a time is its nanoseconds since midnight. A number is an f32.
pub mod Advice
mod Tests
use lokan_os.Prelude.{
  ℕ, Bool, true, false, ◌&&◌, ◌||◌, leb, Option, none, some, List, [], ◌∷◌, ◌++◌, if◌then◌else◌,
}
use lokan_os.Prelude.Text.{Text, codes}
use lokan_os.Prelude.Keys.{codes_key}
use lokan_os.Prelude.Dict.{Dict, insert}

-- What the service uses of `f32` and of chrono: `format_2` is the text that `{:.2}` gives.
pub record Numbers : Type 1 where
  pub Float : Type 0
  pub one : Float
  pub gt : Float → Float → Bool
  pub sub : Float → Float → Float
  pub format_2 : Float → Text
  pub parse_time : Text → Option ℕ

pub data BudgetPeriod : Type 0 where
  daily weekly monthly : BudgetPeriod

abbrev pub period_text : BudgetPeriod → Text
period_text daily = codes "Daily"
period_text weekly = codes "Weekly"
period_text monthly = codes "Monthly"

unfoldable pub in_window : ℕ → ℕ → ℕ → Bool
in_window now start end =
    if leb start end then leb start now && leb now end else leb start now || leb now end

-- `?` on the two times of a window
abbrev pub both : Option ℕ → Option ℕ → Option (ℕ × ℕ)
both (some start) (some end) = some (start, end)
both _ _ = none

-- The default recommendation
abbrev pub or_fine : List Text → List Text
or_fine [] = codes "Usage within configured thresholds." ∷ []
or_fine (r ∷ rs) = r ∷ rs

module _ (numbers : Numbers) where
  open numbers use {Float, one, gt, sub, format_2, parse_time}

  pub record EnergyBudget : Type 0 where
    pub id : Text
    pub limit_kwh : Float
    pub period : BudgetPeriod

  pub record TimeOfUseWindow : Type 0 where
    pub name : Text
    pub start : Text
    pub end : Text
    pub rate_multiplier : Float

  pub record EnergyState : Type 0 where
    pub budgets : Dict Text EnergyBudget
    pub tou_windows : List TimeOfUseWindow

  -- `collect()` into a HashMap: a later budget of an id replaces an earlier one.
  abbrev pub collect : Dict Text EnergyBudget → List EnergyBudget → Dict Text EnergyBudget
  collect map [] = map
  collect map (budget ∷ budgets) = collect (insert map budget.id budget) budgets

  unfoldable pub set_budgets : EnergyState → List EnergyBudget → EnergyState
  set_budgets state budgets = record {
    budgets = collect [] budgets;
    tou_windows = state.tou_windows;
  }

  unfoldable pub set_tou_windows : EnergyState → List TimeOfUseWindow → EnergyState
  set_tou_windows state windows = record { budgets = state.budgets; tou_windows = windows }

  unfoldable pub parse_window : TimeOfUseWindow → Option (ℕ × ℕ)
  parse_window window = both (parse_time window.start) (parse_time window.end)

  -- `if let Some((start, end)) = … { if in_window(…) && … }`
  abbrev pub is_high : ℕ → TimeOfUseWindow → Option (ℕ × ℕ) → Bool
  unfolding in_window
  is_high now window none = false
  is_high now window (some times) = in_window now times.0 times.1 && gt window.rate_multiplier one

  -- The loop over the windows.
  unfoldable pub window_advice : ℕ → List TimeOfUseWindow → List Text
  unfolding is_high parse_window
  window_advice now [] = []
  window_advice now (window ∷ windows) =
      let rest = window_advice now windows in
      if is_high now window (parse_window window)
      then (codes "High rate period ("
          ++ window.name
          ++ codes ") active. Consider delaying discretionary loads.")
        ∷ rest
      else rest

  -- The loop over the budgets.
  unfoldable pub budget_advice : Float → Dict Text EnergyBudget → List Text
  budget_advice consumption [] = []
  budget_advice consumption ((id, budget) ∷ budgets) =
      let rest = budget_advice consumption budgets in
      if gt consumption budget.limit_kwh
      then (period_text budget.period
          ++ codes " budget exceeded by "
          ++ format_2 (sub consumption budget.limit_kwh)
          ++ codes " kWh. Reduce usage or reschedule appliances.")
        ∷ rest
      else rest

  -- The recommendations of `get_advice`.
  unfoldable pub get_advice : EnergyState → ℕ → Float → List Text
  unfolding window_advice budget_advice
  get_advice state now consumption =
      or_fine (window_advice now state.tou_windows ++ budget_advice consumption state.budgets)
