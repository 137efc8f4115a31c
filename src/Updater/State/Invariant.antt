-- ===== src/Updater/State/Invariant.antt =====
-- services/updater/src/state.rs: what holds of a state between two operations.
use lokan_os.Prelude.{String, ◌≡◌, ◌≢◌, ◌⊎◌, Option, none, some, arith}
use lokan_os.Updater.Slots.{Slot, a, b, SlotState, staged, booting, active, SlotInfo, get_slot}
use lokan_os.Updater.State.{
  UpdaterState, ok, default_state, stage, begin_commit, finalize_commit, fail_commit,
  mark_active_bad, rollback,
}

abbrev state_of_info : Option SlotInfo → Option SlotState
state_of_info none = none
state_of_info (some i) = some i.state

-- The state of a slot, if the map has the slot.
abbrev pub state_of : UpdaterState → Slot → Option SlotState
state_of s slot = state_of_info (get_slot s.slots slot)

abbrev artifact_of_info : Option SlotInfo → Option String
artifact_of_info none = none
artifact_of_info (some i) = i.artifact

abbrev pub artifact_of : UpdaterState → Slot → Option String
artifact_of s slot = artifact_of_info (get_slot s.slots slot)

abbrev ActiveRuns : UpdaterState → Option Slot → Type 0
ActiveRuns s none = Unit
ActiveRuns s (some x) = state_of s x ≡ some active

abbrev StagingReady : UpdaterState → Option Slot → Type 0
StagingReady s none = Unit
StagingReady s (some x) = (state_of s x ≡ some staged) ⊎ (state_of s x ≡ some booting)

abbrev Apart : Option Slot → Option Slot → Type 0
Apart none y = Unit
Apart (some x) y = some x ≢ y

-- Both slots exist; the active slot is Active; the slot being staged is Staged or Booting; neither
-- the slot to go back to nor the one that failed last is the active one.
pub record IsValid (s : UpdaterState) : Type 0 where
  pub has_a : state_of s a ≢ none
  pub has_b : state_of s b ≢ none
  pub active_runs : ActiveRuns s s.active
  pub staging_ready : StagingReady s s.staging
  pub previous_apart : Apart s.previous_active s.active
  pub failed_apart : Apart s.last_failed s.active

pub default_state-IsValid : IsValid default_state
default_state-IsValid = ground arith

pub stage-IsValid :
    (s : UpdaterState) (text : String) (target : Option Slot)
    → IsValid s
    → IsValid (stage s text target).0
unfolding stage
stage-IsValid s text target h = ground arith

pub begin_commit-IsValid : (s : UpdaterState) → IsValid s → IsValid (begin_commit s).0
unfolding begin_commit
begin_commit-IsValid s h = ground arith

pub finalize_commit-IsValid :
    (s : UpdaterState) (slot : Slot) → IsValid s → IsValid (finalize_commit s slot)
unfolding finalize_commit
finalize_commit-IsValid s slot h = ground arith

pub fail_commit-IsValid :
    (s : UpdaterState) (slot : Slot)
    → s.staging ≡ some slot
    → IsValid s
    → IsValid (fail_commit s slot)
unfolding fail_commit
fail_commit-IsValid s slot e h = ground arith

pub mark_active_bad-IsValid : (s : UpdaterState) → IsValid s → IsValid (mark_active_bad s).0
unfolding mark_active_bad
mark_active_bad-IsValid s h = ground arith

pub rollback-IsValid : (s : UpdaterState) → IsValid s → IsValid (rollback s).0
unfolding rollback
rollback-IsValid s h = ground arith

pub begin_commit-staging :
    (s : UpdaterState) (slot : Slot)
    → (begin_commit s).1 ≡ ok slot
    → (begin_commit s).0.staging ≡ some slot
unfolding begin_commit
begin_commit-staging s slot h = ground arith
