-- ===== src/Updater/Slots.antt =====
-- services/updater/src/state.rs: slots, their states, and the `BTreeMap<Slot, SlotInfo>` of a
-- state. The map has two possible keys; either may be missing, since a state is also read from a
-- file.
use lokan_os.Prelude.{ℕ, String, Bool, true, false, Option, none, some, List, [], ◌∷◌, str_eq}

pub data Slot : Type 0 where
  a b : Slot

-- Slot::ALL
abbrev pub all_slots : List Slot
all_slots = a ∷ b ∷ []

unfoldable pub other : Slot → Slot
other a = b
other b = a

abbrev pub slot_eq : Slot → Slot → Bool
slot_eq a a = true
slot_eq b b = true
slot_eq _ _ = false

abbrev pub is_slot : Option Slot → Slot → Bool
is_slot none s = false
is_slot (some r) s = slot_eq r s

pub data SlotState : Type 0 where
  inactive staged booting active bad : SlotState

abbrev pub is_staged : SlotState → Bool
is_staged staged = true
is_staged _ = false

abbrev pub is_booting : SlotState → Bool
is_booting booting = true
is_booting _ = false

abbrev pub is_active : SlotState → Bool
is_active active = true
is_active _ = false

abbrev pub is_bad : SlotState → Bool
is_bad bad = true
is_bad _ = false

-- matches!(state, Inactive | Bad | Staged)
abbrev pub is_stageable : SlotState → Bool
is_stageable inactive = true
is_stageable bad = true
is_stageable staged = true
is_stageable _ = false

pub record SlotInfo : Type 0 where
  pub state : SlotState
  pub artifact : Option String
  pub generation : ℕ  -- u64

abbrev pub new_info : SlotState → SlotInfo
new_info s = record { state = s; artifact = none; generation = 0 }

-- info.artifact.as_deref() == Some(&artifact)
abbrev pub has_artifact : Option String → String → Bool
has_artifact none t = false
has_artifact (some r) t = str_eq r t

pub record Slots : Type 0 where
  pub at_a : Option SlotInfo
  pub at_b : Option SlotInfo

abbrev pub get_slot : Slots → Slot → Option SlotInfo
get_slot m a = m.at_a
get_slot m b = m.at_b

abbrev pub insert_slot : Slots → Slot → SlotInfo → Slots
insert_slot m a i = record m { at_a = some i }
insert_slot m b i = record m { at_b = some i }

-- `if let Some(info) = slots.get_mut(&slot) { info.state = state }`
abbrev pub set_if_present : Slots → Slot → SlotState → Option SlotInfo → Slots
set_if_present m s t none = m
set_if_present m s t (some i) = insert_slot m s (record i { state = t })

abbrev pub set_state : Slots → Slot → SlotState → Slots
set_state m s t = set_if_present m s t (get_slot m s)
