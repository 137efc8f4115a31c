-- ===== src/Energy/Advice.antt =====
-- services/energy-svc/src/main.rs: when a window is on, and how much advice there is.
use lokan_os.Prelude.{
  ℕ, ◌+◌, ◌-◌, ◌<◌, max, ◌≡◌, refl, ap, ◌∙◌, Bool, true, false, ◌&&◌, leb, Option, none, some, List,
  [], ◌∷◌, length, length-append, if◌then◌else◌, arith,
}
use lokan_os.Prelude.Text.{Text}
use lokan_os.Prelude.Dict.{Dict}
use lokan_os.Energy.{
  Numbers, in_window, EnergyBudget, TimeOfUseWindow, EnergyState, both, parse_window, is_high,
  window_advice, budget_advice, or_fine, get_advice,
}

-- The nanoseconds of a day.
abbrev pub day : ℕ
day = 86400000000000

-- From one time of the day to another, going forward, over midnight where it must be.
abbrev pub ahead : ℕ → ℕ → ℕ
ahead from to = if leb from to then to - from else day + to - from

-- A window is on just if, going forward from its start, the time comes no later than its end.
pub in_window_eq :
    (now start end : ℕ)
    → now < day
    → start < day
    → end < day
    → in_window now start end ≡ leb (ahead start now) (ahead start end)
unfolding in_window
in_window_eq now start end h k l = ground (arith, h, k, l)

module _ (numbers : Numbers) where
  open numbers use {Float, one, gt, parse_time}

  abbrev on_between : ℕ → Option (ℕ × ℕ) → Bool
  on_between now none = false
  on_between now (some times) = leb (ahead times.0 now) (ahead times.0 times.1)

  -- The window is on, going around the clock, and its rate is above the normal one.
  abbrev pub is_dear : ℕ → TimeOfUseWindow numbers → Bool
  is_dear now window =
      on_between now (both (parse_time window.start) (parse_time window.end))
      && gt window.rate_multiplier one

  abbrev pub count {ℓ} : {A : Type ℓ} → (A → Bool) → List A → ℕ
  count test [] = 0
  count test (x ∷ xs) = (if test x then 1 else 0) + count test xs

  -- The budget is exceeded.
  abbrev pub is_exceeded : Float → Text × EnergyBudget numbers → Bool
  is_exceeded consumption entry = gt consumption entry.1.limit_kwh

  module _ (in_day : (t : Text) (n : ℕ) → parse_time t ≡ some n → n < day) where
    between_eq :
        (now : ℕ) (window : TimeOfUseWindow numbers) (start end : Option ℕ)
        → now < day
        → ((n : ℕ) → start ≡ some n → n < day)
        → ((n : ℕ) → end ≡ some n → n < day)
        → is_high numbers now window (both start end)
          ≡ (on_between now (both start end) && gt window.rate_multiplier one)
    unfolding is_high
    between_eq now window none end h k l = refl
    between_eq now window (some start) none h k l = refl
    between_eq now window (some start) (some end) h k l =
        ap (λ b. b && gt window.rate_multiplier one)
          (in_window_eq now start end h (k start refl) (l end refl))

    is_high-is_dear :
        (now : ℕ) (window : TimeOfUseWindow numbers)
        → now < day
        → is_high numbers now window (parse_window numbers window) ≡ is_dear now window
    unfolding parse_window
    is_high-is_dear now window h =
        between_eq now window (parse_time window.start) (parse_time window.end) h
          (in_day window.start) (in_day window.end)

    length-if :
        (b : Bool) (r : Text) (rest : List Text)
        → length (if b then r ∷ rest else rest) ≡ (if b then 1 else 0) + length rest
    length-if true r rest = omega arith
    length-if false r rest = omega arith

    length-window_advice :
        (now : ℕ) (windows : List (TimeOfUseWindow numbers))
        → now < day
        → length (window_advice numbers now windows) ≡ count (is_dear now) windows
    unfolding window_advice
    length-window_advice now [] h = refl
    length-window_advice now (window ∷ windows) h =
        length-if (is_high numbers now window (parse_window numbers window)) _
          (window_advice numbers now windows)
        ∙ rw (is_high-is_dear now window h, length-window_advice now windows h) refl

    length-budget_advice :
        (consumption : Float) (budgets : Dict Text (EnergyBudget numbers))
        → length (budget_advice numbers consumption budgets)
          ≡ count (is_exceeded consumption) budgets
    unfolding budget_advice
    length-budget_advice consumption [] = refl
    length-budget_advice consumption ((id, budget) ∷ budgets) =
        length-if (gt consumption budget.limit_kwh) _ (budget_advice numbers consumption budgets)
        ∙ rw (length-budget_advice consumption budgets) refl

    length-or_fine : (rs : List Text) → length (or_fine rs) ≡ max 1 (length rs)
    length-or_fine [] = refl
    length-or_fine (r ∷ rs) = omega arith

    -- Let chrono read only times of the day. At any time of the day, the advice has one entry for each
    -- window that is on and dear, where a window is on when the time, going forward from its start and
    -- over midnight where it must be, comes no later than its end; and one for each budget that is
    -- exceeded. Where there is neither, it has one entry.
    pub length-get_advice :
        (state : EnergyState numbers) (now : ℕ) (consumption : Float)
        → now < day
        → length (get_advice numbers state now consumption)
          ≡ max 1 (
              count (is_dear now) state.tou_windows + count (is_exceeded consumption) state.budgets)
    unfolding get_advice
    length-get_advice state now consumption h =
        length-or_fine _
        ∙ ap (max 1) (
            length-append (window_advice numbers now state.tou_windows)
              (budget_advice numbers consumption state.budgets)
            ∙ rw
                (
                  length-window_advice now state.tou_windows h,
                  length-budget_advice consumption state.budgets,
                )
                refl)
