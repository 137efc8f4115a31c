-- ===== src/RuleEngine/Schedule/Firing.antt =====
-- services/rule-engine/src/main.rs: when a schedule that is looked at on every tick fires.
use lokan_os.Prelude.{
  ℕ, zero, suc, ◌+◌, ◌-◌, ◌*◌, ◌/◌, ◌^◌, ◌≤◌, ◌<◌, min, max, leb, ap, ◌∙◌, ◌≡◌, refl, inl, inr,
  Bool, true, false, if◌then◌else◌, arith, Bool-cases, leb→le, String, u64, u64_max,
}
use lokan_os.RuleEngine.Rules.{interval, event}
use lokan_os.RuleEngine.Schedule.{
  ticks_of_seconds, ScheduleState, new_schedule, should_fire, advance,
}

-- An interval that fits into 64 bits of milliseconds is two ticks for each second, a second at least.
pub ticks_of_seconds-eq :
    (seconds : ℕ) → seconds * 1000 + 500 < 2 ^ 64 → ticks_of_seconds seconds ≡ 2 * max seconds 1
ticks_of_seconds-eq seconds h = omega arith

-- One look of the scheduler at a rule: the schedule afterwards, and whether it fired.
abbrev pub look : ScheduleState → ℕ → ScheduleState × Bool
look s tick = if should_fire s tick then (advance s, true) else (s, false)

-- The schedule after the ticks `tick + 1` to `tick + n`, and how often it fired.
unfoldable pub watch : ScheduleState → ℕ → ℕ → ScheduleState × ℕ
watch s tick zero = (s, 0)
watch s tick (suc n) =
    let (t, fired) = look s (tick + 1) in
    let (u, count) = watch t (tick + 1) n in (u, if fired then count + 1 else count)

div-below : (e k : ℕ) → e < k → e / k ≡ 0
div-below e k h = grind arith

div-step : (n k : ℕ) → 0 < k → (n + k) / k ≡ n / k + 1
div-step n k h = grind arith

advance-eq :
    (s : ScheduleState)
    → s.next_tick + s.interval_ticks < u64_max
    → advance s ≡ record s { next_tick = s.next_tick + s.interval_ticks }
unfolding advance
advance-eq s h = ground arith

abbrev fired : ScheduleState → ScheduleState
fired s = record s { next_tick = s.next_tick + s.interval_ticks }

div-below_sum : (n k x : ℕ) → 0 < k → x < n + k → x / k ≤ n
div-below_sum zero k x p h = omega (arith, div-below x k (omega (arith, h)))
div-below_sum (suc n) k x p h = elim (Bool-cases (leb k x)) [
  | inl whole ↦
      let y : ℕ = x - k in
      let again : x ≡ y + k = omega (arith, leb→le k x whole) in
      rw again (omega (arith, div-step y k p, div-below_sum n k y p (omega (arith, again, h))))
  | inr part ↦ omega (arith, div-below x k (ground (arith, part)))
]

-- How often a schedule is due up to a tick.
abbrev pub due : ScheduleState → ℕ → ℕ
due s tick = (tick + s.interval_ticks - s.next_tick) / s.interval_ticks

-- A schedule that is looked at on each of `n` ticks fires as often as it is due up to the last of
-- them, but at most once on each tick. Each time puts it an interval ahead.
pub watch_lem :
    (s : ScheduleState) (tick n : ℕ)
    → 0 < s.interval_ticks
    → tick + n + s.interval_ticks < u64_max
    → let (after, count) = watch s tick n in
      (count ≡ min n (due s (tick + n)))
      × (after ≡ record s { next_tick = s.next_tick + count * s.interval_ticks })
unfolding watch
watch_lem s tick zero p h = (omega arith, ap (λ next. record s { next_tick = next }) (omega arith))
watch_lem s tick (suc n) p h = elim (Bool-cases (should_fire s (tick + 1))) [
  | inl fires ↦
      let now : s.next_tick ≤ tick + 1 = leb→le _ _ fires in
      let (counted, placed) = watch_lem (fired s) (tick + 1) n p (omega (arith, h)) in
      rw (fires, advance-eq s (omega (arith, now, h)))
        (
          counts_more (watch (fired s) (tick + 1) n).1 now counted,
          placed ∙ ap (λ next. record s { next_tick = next }) (one_more _ _ _),
        )
  | inr waits ↦
      let (counted, placed) = watch_lem s (tick + 1) n p (omega (arith, h)) in
      let later : tick + 1 < s.next_tick = ground (arith, waits) in
      let few =
        div-below_sum n s.interval_ticks (tick + 1 + n + s.interval_ticks - s.next_tick) p
          (omega (arith, later, p)) in
      let same : tick + 1 + n ≡ tick + suc n = omega arith in
      rw waits (counts_same (watch s (tick + 1) n).1 later few counted, placed)
]
  where
    one_more : (a k i : ℕ) → a + i + k * i ≡ a + (k + 1) * i
    one_more a k i = omega arith

    counts_more :
        (count : ℕ)
        → s.next_tick ≤ tick + 1
        → count ≡ min n (due (fired s) (tick + 1 + n))
        → count + 1 ≡ min (suc n) (due s (tick + suc n))
    counts_more count now e =
        let y : ℕ = tick + suc n - s.next_tick in
        let left : tick + 1 + n + s.interval_ticks - (s.next_tick + s.interval_ticks) ≡ y =
          omega arith in
        let right : tick + suc n + s.interval_ticks - s.next_tick ≡ y + s.interval_ticks =
          omega (arith, now) in
        rw right (omega (arith, div-step y s.interval_ticks p, (rw left at e)))

    counts_same :
        (count : ℕ)
        → tick + 1 < s.next_tick
        → due s (tick + 1 + n) ≤ n
        → count ≡ min n (due s (tick + 1 + n))
        → count ≡ min (suc n) (due s (tick + suc n))
    counts_same count later few e =
        let same : tick + 1 + n ≡ tick + suc n = omega arith in
        let few' = rw same at few in let e' = rw same at e in omega (arith, few', e')

pub new_schedule-eq :
    (seconds tick : ℕ)
    → 0 < seconds
    → seconds * 1000 + 500 < 2 ^ 64
    → tick + 4 * seconds < u64_max
    → new_schedule (interval seconds) tick
      ≡ record { next_tick = tick + 2 * seconds; interval_ticks = 2 * seconds }
unfolding new_schedule
new_schedule-eq seconds tick p fits room =
    let ticks : ticks_of_seconds seconds ≡ 2 * seconds =
      omega (arith, ticks_of_seconds-eq seconds fits) in
    rw ticks (λ i. record { next_tick = in_range i; interval_ticks = 2 * seconds })
  where
    in_range : u64 (tick + 2 * seconds) ≡ tick + 2 * seconds
    in_range = omega arith

watch-never :
    (s : ScheduleState) (tick n : ℕ)
    → s.next_tick ≡ u64_max
    → tick + n < u64_max
    → (watch s tick n).1 ≡ 0
unfolding watch
watch-never s tick zero e h = refl
watch-never s tick (suc n) e h = elim (Bool-cases (should_fire s (tick + 1))) [
  | inl fires ↦ absurd (omega (arith, leb→le s.next_tick (tick + 1) fires))
  | inr waits ↦ rw waits (watch-never s (tick + 1) n e (omega arith))
]

-- The rule of an event does not fire before the last tick of all.
pub event_rule_waits :
    (subject : String) (created tick n : ℕ)
    → tick + n < u64_max
    → (watch (new_schedule (event subject) created) tick n).1 ≡ 0
unfolding new_schedule
event_rule_waits subject created tick n h =
    watch-never (new_schedule (event subject) created) tick n refl h
