-- ===== src/Updater/State/Cycle.antt =====
-- services/updater/src/state.rs: the life of one update, from staging to the way back.
use lokan_os.Prelude.{String, ◌≡◌, Option, none, some, arith}
use lokan_os.Updater.Slots.{Slot, other, inactive, active, bad, get_slot}
use lokan_os.Updater.State.{
  UpdaterState, ok, stage, begin_commit, finalize_commit, fail_commit, mark_active_bad, rollback,
}
use lokan_os.Updater.State.Invariant.{IsValid, state_of, artifact_of, stage-IsValid}
use lokan_os.Updater.State.Transitions.{stage-StagedInto}

-- The state after a commit whose health check succeeded.
abbrev pub committed : UpdaterState → Slot → UpdaterState
committed s slot = finalize_commit (begin_commit s).0 slot

-- The state after a commit whose health check failed.
abbrev pub abandoned : UpdaterState → Slot → UpdaterState
abandoned s slot = fail_commit (begin_commit s).0 slot

pub record Promoted (s t : UpdaterState) (slot : Slot) : Type 0 where
  pub now_active : t.active ≡ some slot
  pub runs : state_of t slot ≡ some active
  pub artifact : artifact_of t slot ≡ artifact_of s slot
  pub previous : t.previous_active ≡ s.active
  pub staging : t.staging ≡ none
  pub failed : t.last_failed ≡ none

-- In a valid state, a commit that begins and is found healthy makes the staged slot, with its
-- artifact, the active one, and remembers the slot that was active before.
pub commit-Promoted :
    (s : UpdaterState) (slot : Slot)
    → IsValid s
    → (begin_commit s).1 ≡ ok slot
    → Promoted s (committed s slot) slot
unfolding begin_commit finalize_commit
commit-Promoted s slot h e = ground arith

-- In a valid state, a commit that begins and is found unhealthy marks the staged slot Bad, and
-- leaves the active slot, the other slot and the slot to go back to as they were.
pub abandoned_lem :
    (s : UpdaterState) (slot : Slot)
    → IsValid s
    → (begin_commit s).1 ≡ ok slot
    → let t = abandoned s slot in
      (state_of t slot ≡ some bad)
      × (t.last_failed ≡ some slot)
      × (t.staging ≡ none)
      × (t.active ≡ s.active)
      × (t.previous_active ≡ s.previous_active)
      × (get_slot t.slots (other slot) ≡ get_slot s.slots (other slot))
unfolding begin_commit fail_commit other
abandoned_lem s slot h e = ground arith

-- From a valid state, when an artifact is staged, committed as healthy, found bad later and rolled
-- back, the slot that was active before is active again and Active, and the other one is Inactive.
pub rollback_restores :
    (s : UpdaterState) (q slot : Slot) (text : String) (target : Option Slot)
    → IsValid s
    → s.active ≡ some q
    → (stage s text target).1 ≡ ok slot
    → let u = (mark_active_bad (committed (stage s text target).0 slot)).0 in
      ((mark_active_bad (committed (stage s text target).0 slot)).1 ≡ ok (some slot))
      × ((rollback u).1 ≡ ok q)
      × ((rollback u).0.active ≡ some q)
      × (state_of (rollback u).0 q ≡ some active)
      × (state_of (rollback u).0 slot ≡ some inactive)
      × (slot ≡ other q)
unfolding begin_commit finalize_commit mark_active_bad rollback other
rollback_restores s q slot text target h act e =
    let t = (stage s text target).0 in
    ground (arith, stage-IsValid s text target h, stage-StagedInto s text target slot h e)
