-- ===== src/Energy/Tests.antt =====
-- services/energy-svc: advice a quarter to midnight, with numbers in the place of `f32`.
use lokan_os.Prelude.{
  ℕ, ◌-◌, ◌<◌, ltb, ◌≡◌, Option, none, some, [], ◌∷◌, length, if◌then◌else◌, arith,
}
use lokan_os.Prelude.Text.{Text, codes, codes_eq}
use lokan_os.Energy.{Numbers, daily, EnergyState, get_advice}
use lokan_os.Energy.Advice.{day, length-get_advice}

-- Two texts are times: 22:00 and 06:00.
abbrev clock : Text → Option ℕ
clock t =
    if codes_eq t (codes "22:00")
    then some 79200000000000
    else if codes_eq t (codes "06:00")
    then some 21600000000000
    else none

clock_in_day : (t : Text) (n : ℕ) → clock t ≡ some n → n < day
clock_in_day t n h = ground (arith, h)

abbrev naturals : Numbers
naturals = record {
  Float = ℕ;
  one = 1;
  gt = λ x y. ltb y x;
  sub = ◌-◌;
  format_2 = λ n. codes "0.00";
  parse_time = clock;
}

abbrev home : EnergyState naturals
home = record {
  budgets = (codes "b", record { id = codes "b"; limit_kwh = 5; period = daily }) ∷ [];
  tou_windows =
      record {
        name = codes "night";
        start = codes "22:00";
        end = codes "06:00";
        rate_multiplier = 2;
      }
      ∷ [];
}

length-get_advice_example : length (get_advice naturals home 85500000000000 9) ≡ 2
length-get_advice_example =
    length-get_advice naturals clock_in_day home 85500000000000 9 (omega arith)
