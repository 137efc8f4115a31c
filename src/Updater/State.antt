-- ===== src/Updater/State.antt =====
-- services/updater/src/state.rs: `UpdaterState` and its operations. An operation on `&mut self`
-- returns the new state beside its result. A call of `expect` on a missing slot is `panic`.
-- `generation` is a u64 and wraps.
pub mod Invariant
pub mod Cycle
pub mod Overlap
pub mod Unchanged
pub mod Transitions
use lokan_os.Prelude.{
  ℕ, ◌+◌, ◌%◌, ◌^◌, String, Bool, true, false, ◌&&◌, Option, none, some, List, [], ◌∷◌,
  if◌then◌else◌,
}
use lokan_os.Updater.Slots.{
  Slot, a, all_slots, slot_eq, is_slot, inactive, staged, booting, active, bad, is_staged,
  is_booting, is_active, is_bad, is_stageable, SlotInfo, new_info, has_artifact, Slots, get_slot,
  insert_slot, set_state,
}

pub data Outcome {ℓ κ} (E : Type ℓ) (A : Type κ) : Type (ℓ ⊔ κ) where
  ok : A → Outcome E A
  err : E → Outcome E A
  panic : Outcome E A

abbrev pub is_ok {ℓ κ} : {E : Type ℓ} {A : Type κ} → Outcome E A → Bool
is_ok (ok x) = true
is_ok _ = false

abbrev pub is_err {ℓ κ} : {E : Type ℓ} {A : Type κ} → Outcome E A → Bool
is_err (err e) = true
is_err _ = false

pub record UpdaterState : Type 0 where
  pub generation : ℕ  -- u64
  pub active : Option Slot
  pub previous_active : Option Slot
  pub staging : Option Slot
  pub last_failed : Option Slot
  pub slots : Slots

-- impl Default for UpdaterState
abbrev pub default_state : UpdaterState
default_state = record {
  generation = 0;
  active = some a;
  previous_active = none;
  staging = none;
  last_failed = none;
  slots = record { at_a = some (new_info active); at_b = some (new_info inactive) };
}

pub data StageError : Type 0 where
  no_available_slot : StageError
  slot_booting : StageError
  target_slot_unavailable : Slot → StageError
  target_slot_mismatch : (expected requested : Slot) → StageError
  invalid_bundle : String → StageError

pub data CommitError : Type 0 where
  nothing_staged invalid_stage_state : CommitError

pub data RollbackError : Type 0 where
  no_previous_active no_failed_slot : RollbackError

abbrev pub next_generation : ℕ → ℕ
next_generation g = (g + 1) % 2 ^ 64

-- The slot becomes Staged with the artifact, at a new generation.
record_artifact : UpdaterState → Slot → String → UpdaterState
record_artifact s slot text =
    let g = next_generation s.generation in
    record s {
      generation = g;
      slots =
          insert_slot s.slots slot
            (record { state = staged; artifact = some text; generation = g });
    }

-- The branch of `stage` for a slot that is being staged already.
restage : UpdaterState → Slot → String → Option SlotInfo → UpdaterState × Outcome StageError Slot
unfolding record_artifact
restage s slot text none = (s, panic)
restage s slot text (some info) =
    if is_booting info.state
    then (s, err slot_booting)
    else if is_staged info.state && has_artifact info.artifact text
    then (s, ok slot)
    else (record_artifact s slot text, ok slot)

-- `none` where indexing `slots` panics.
unfoldable pub is_slot_available_for_stage : UpdaterState → Slot → Option Bool
is_slot_available_for_stage s slot = elim (get_slot s.slots slot) [
  | none ↦ none
  | some info ↦
      some
        (if is_slot s.active slot && is_active info.state then false else is_stageable info.state)
]

-- The `find` over `Slot::ALL`.
find_available : UpdaterState → List Slot → Outcome StageError Slot
find_available s [] = err no_available_slot
find_available s (slot ∷ rest) = elim (is_slot_available_for_stage s slot) [
  | none ↦ panic
  | some true ↦ ok slot
  | some false ↦ find_available s rest
]

candidate : UpdaterState → Option Slot → Outcome StageError Slot
unfolding find_available is_slot_available_for_stage
candidate s (some slot) = elim (is_slot_available_for_stage s slot) [
  | none ↦ panic
  | some true ↦ ok slot
  | some false ↦ err (target_slot_unavailable slot)
]
candidate s none = find_available s all_slots

stage_new : UpdaterState → String → Outcome StageError Slot → UpdaterState × Outcome StageError Slot
unfolding record_artifact
stage_new s text (ok slot) = elim (get_slot s.slots slot) [
  | none ↦ (s, panic)
  | some _ ↦ (record (record_artifact s slot text) { staging = some slot }, ok slot)
]
stage_new s text (err e) = (s, err e)
stage_new s text panic = (s, panic)

abbrev pub mismatches : Option Slot → Slot → Option Slot
mismatches none slot = none
mismatches (some requested) slot = if slot_eq requested slot then none else some requested

stage_on :
    UpdaterState → Option Slot → String → Option Slot → UpdaterState × Outcome StageError Slot
unfolding restage stage_new candidate
stage_on s (some slot) text target = elim (mismatches target slot) [
  | some requested ↦ (s, err (target_slot_mismatch slot requested))
  | none ↦ restage s slot text (get_slot s.slots slot)
]
stage_on s none text target = stage_new s text (candidate s target)

-- UpdaterState::stage
unfoldable pub stage : UpdaterState → String → Option Slot → UpdaterState × Outcome StageError Slot
unfolding stage_on
stage s text target = stage_on s s.staging text target

boot_staged : UpdaterState → Slot → Option SlotInfo → UpdaterState × Outcome CommitError Slot
boot_staged s slot none = (s, panic)
boot_staged s slot (some info) = elim info.state [
  | staged ↦
      (record s { slots = insert_slot s.slots slot (record info { state = booting }) }, ok slot)
  | booting ↦ (s, ok slot)
  | _ ↦ (s, err invalid_stage_state)
]

boot_on : UpdaterState → Option Slot → UpdaterState × Outcome CommitError Slot
unfolding boot_staged
boot_on s none = (s, err nothing_staged)
boot_on s (some slot) = boot_staged s slot (get_slot s.slots slot)

-- UpdaterState::begin_commit
unfoldable pub begin_commit : UpdaterState → UpdaterState × Outcome CommitError Slot
unfolding boot_on
begin_commit s = boot_on s s.staging

-- The active slot of before, unless it is the slot itself: it is made Inactive and remembered.
abbrev displaced : Option Slot → Slot → Option Slot
displaced none slot = none
displaced (some prev) slot = if slot_eq prev slot then none else some prev

deactivate : Slots → Option Slot → Slots
deactivate m none = m
deactivate m (some prev) = set_state m prev inactive

-- UpdaterState::finalize_commit
unfoldable pub finalize_commit : UpdaterState → Slot → UpdaterState
unfolding deactivate
finalize_commit s slot =
    let previous = displaced s.active slot in
    record s {
      active = some slot;
      previous_active = previous;
      staging = none;
      last_failed = none;
      slots = set_state (deactivate s.slots previous) slot active;
    }

-- UpdaterState::fail_commit
unfoldable pub fail_commit : UpdaterState → Slot → UpdaterState
fail_commit s slot = record s {
  last_failed = some slot;
  staging = none;
  slots = set_state s.slots slot bad;
}

mark_bad_on :
    UpdaterState → Slot → Option SlotInfo → UpdaterState × Outcome (Unit {0}) (Option Slot)
mark_bad_on s slot none = (s, panic)
mark_bad_on s slot (some info) =
    if is_active info.state
    then (
      record s {
        active = none;
        last_failed = some slot;
        slots = insert_slot s.slots slot (record info { state = bad });
      },
      ok (some slot),
    )
    else (s, ok none)

mark_bad_of : UpdaterState → Option Slot → UpdaterState × Outcome (Unit {0}) (Option Slot)
unfolding mark_bad_on
mark_bad_of s none = (s, ok none)
mark_bad_of s (some slot) = mark_bad_on s slot (get_slot s.slots slot)

-- UpdaterState::mark_active_bad; it returns no error.
unfoldable pub mark_active_bad : UpdaterState → UpdaterState × Outcome (Unit {0}) (Option Slot)
unfolding mark_bad_of
mark_active_bad s = mark_bad_of s s.active

-- A failed slot that is still Bad becomes Inactive.
clear_failed : Slots → Slot → Slots
clear_failed m failed = elim (get_slot m failed) [
  | none ↦ m
  | some info ↦
      if is_bad info.state then insert_slot m failed (record info { state = inactive }) else m
]

rollback_to : UpdaterState → Option Slot → Option Slot → UpdaterState × Outcome RollbackError Slot
unfolding clear_failed
rollback_to s none failed = (s, err no_previous_active)
rollback_to s (some previous) none = (s, err no_failed_slot)
rollback_to s (some previous) (some failed) = (
  record s {
    active = some previous;
    previous_active = none;
    last_failed = none;
    staging = none;
    slots = clear_failed (set_state s.slots previous active) failed;
  },
  ok previous,
)

-- UpdaterState::rollback
unfoldable pub rollback : UpdaterState → UpdaterState × Outcome RollbackError Slot
unfolding rollback_to
rollback s = rollback_to s s.previous_active s.last_failed
