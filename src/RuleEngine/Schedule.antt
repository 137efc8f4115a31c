-- ===== src/RuleEngine/Schedule.antt =====
-- services/rule-engine/src/main.rs: `ScheduleState`. Ticks are u64; sums and products that pass the
-- width wrap, as in a release build.
pub mod Firing
use lokan_os.Prelude.{
  ℕ, zero, suc, ◌+◌, ◌-◌, ◌*◌, ◌/◌, ◌%◌, ◌^◌, min, max, Bool, leb, ◌==◌, if◌then◌else◌, u64,
  u64_max,
}
use lokan_os.RuleEngine.Rules.{Trigger, interval, event}

abbrev pub tick_interval_ms : ℕ
tick_interval_ms = 500

pub record ScheduleState : Type 0 where
  pub next_tick : ℕ  -- u64
  pub interval_ticks : ℕ  -- u64

-- `interval_ms + TICK_INTERVAL_MS - 1` is not below 0.
abbrev pub ticks_of_seconds : ℕ → ℕ
ticks_of_seconds seconds =
    let interval_ms = u64 (max seconds 1 * 1000) in
    max ((u64 (interval_ms + tick_interval_ms) + 2 ^ 64 - 1) % 2 ^ 64 / tick_interval_ms) 1

-- ScheduleState::new
unfoldable pub new_schedule : Trigger → ℕ → ScheduleState
new_schedule (interval seconds) current_tick = record {
  next_tick = u64 (current_tick + ticks_of_seconds seconds);
  interval_ticks = ticks_of_seconds seconds;
}
new_schedule (event subject) current_tick = record { next_tick = u64_max; interval_ticks = u64_max }

abbrev pub should_fire : ScheduleState → ℕ → Bool
should_fire s tick = leb s.next_tick tick

abbrev pub saturating_add : ℕ → ℕ → ℕ
saturating_add m n = min (m + n) u64_max

-- ScheduleState::advance
unfoldable pub advance : ScheduleState → ScheduleState
advance s =
    if s.interval_ticks == u64_max
    then record s { next_tick = u64_max }
    else record s { next_tick = saturating_add s.next_tick s.interval_ticks }
