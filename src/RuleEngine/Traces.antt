-- ===== src/RuleEngine/Traces.antt =====
-- services/rule-engine/src/main.rs: the `VecDeque` of the last executions of each rule.
pub mod Bounds
use mathlib.Core.List.{tail}
use lokan_os.Prelude.{
  ℕ, String, Option, none, some, List, [], ◌∷◌, ◌++◌, reverse, length, ◌==◌, if◌then◌else◌,
}
use lokan_os.Prelude.Keys.{string_key}
use lokan_os.Prelude.Dict.{Dict, get, insert, remove}

abbrev pub max_trace_entries : ℕ
max_trace_entries = 100

module _ {ℓ} {Entry : Type ℓ} where
  abbrev pub or_default : Option (List Entry) → List Entry
  or_default none = []
  or_default (some entries) = entries

  -- pop_front at the limit, then push_back; the front of the deque is the head of the list.
  unfoldable pub push : List Entry → Entry → List Entry
  push deque entry =
      if length deque == max_trace_entries then tail deque ++ entry ∷ [] else deque ++ entry ∷ []

  -- AppState::record_trace
  unfoldable pub record_trace : Dict String (List Entry) → String → Entry → Dict String (List Entry)
  unfolding push
  record_trace traces rule_id entry =
      insert traces rule_id (push (or_default (get traces rule_id)) entry)

  -- AppState::traces_for
  unfoldable pub traces_for : Dict String (List Entry) → String → Option (List Entry)
  traces_for traces rule_id = elim (get traces rule_id) [
    | none ↦ none
    | some entries ↦ some (reverse entries)
  ]

  -- AppState::init_trace_slot
  unfoldable pub init_trace_slot : Dict String (List Entry) → String → Dict String (List Entry)
  init_trace_slot traces rule_id = insert traces rule_id (or_default (get traces rule_id))

  -- AppState::drop_trace_slot
  unfoldable pub drop_trace_slot : Dict String (List Entry) → String → Dict String (List Entry)
  drop_trace_slot traces rule_id = remove traces rule_id
