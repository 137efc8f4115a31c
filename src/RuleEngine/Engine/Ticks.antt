-- ===== src/RuleEngine/Engine/Ticks.antt =====
-- services/rule-engine/src/main.rs: how often a rule that create_rule makes is run by the scheduler.
use lokan_os.Prelude.{
  ℕ, zero, suc, ◌+◌, ◌-◌, ◌*◌, ◌/◌, ◌≤◌, ◌==◌, ◌⊎◌, All, any, min, String, ◌≡◌, true, Option, some,
}
use lokan_os.Prelude.Keys.{string_key}
use lokan_os.Prelude.Dict.{Dict, get}
use lokan_os.RuleEngine.Json.{Json}
use lokan_os.RuleEngine.Rules.{RuleDefinition, interval}
use lokan_os.RuleEngine.Schedule.{ScheduleState, new_schedule}
use lokan_os.RuleEngine.Schedule.Firing.{look, watch}
use lokan_os.RuleEngine.Engine.{RuleInstance, AppState, create_rule, run_tick}

module _ (json : Json) where
  -- The ticks `tick + 1` to `tick + n` of the scheduler, with the time and the durations at each.
  unfoldable pub run_ticks :
      ℕ → ℕ → (ℕ → String) → (ℕ → String → json.Float) → AppState json → AppState json
  run_ticks tick zero now durations s = s
  run_ticks tick (suc n) now durations s =
      run_ticks (tick + 1) n now durations
        (run_tick json s (tick + 1) (now (tick + 1)) (durations (tick + 1)))

  -- A rule with this schedule in place of its own.
  abbrev scheduled : ScheduleState → RuleInstance json → RuleInstance json
  scheduled schedule r = record { definition = r.definition; schedule = schedule }

  after_look : ℕ → RuleInstance json → RuleInstance json
  after_look tick r = scheduled (look r.schedule tick).0 r

  abbrev next_of : String × RuleInstance json → ℕ
  next_of entry = entry.1.schedule.next_tick

  -- The largest `next_tick` of these rules, or 0.
  pub record IsLargest (rules : Dict String (RuleInstance json)) (n : ℕ) : Type 0 where
    pub above : All (λ entry. next_of entry ≤ n) rules
    pub reached : (n ≡ 0) ⊎ (any (λ entry. next_of entry == n) rules ≡ true)

  -- What a rule of an interval of `seconds` has come to that was made in the first state, when the
  -- scheduler has gone on from `tick` by `n` ticks to the last state: the rule counts from `from`.
  pub record Fires (s : AppState json) (payload : RuleDefinition json) (fresh : String)
      (seconds from tick n : ℕ) (after : AppState json) : Type 0 where
    pub times : ℕ
    -- The rule is due first two ticks for each second after `from`, and then as often again; it fires
    -- at most once on each tick.
    pub often : times ≡ min n ((tick + n - from) / (2 * seconds))
    pub looks : (watch (new_schedule (interval seconds) from) tick n).1 ≡ times
    pub stands :
        get after.rules (create_rule json s payload fresh).1.id
        ≡ some (record {
          definition = (create_rule json s payload fresh).1;
          schedule = record {
            next_tick = from + 2 * seconds + times * (2 * seconds);
            interval_ticks = 2 * seconds;
          };
        })
