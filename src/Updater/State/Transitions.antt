-- ===== src/Updater/State/Transitions.antt =====
-- services/updater/src/state.rs: what each operation does to a state, on its branches.
use lokan_os.Prelude.{String, ◌≡◌, ◌≢◌, ap, Option, none, some, arith, true, false, eq_iff, eq_refl}
use lokan_os.Updater.Slots.{Slot, a, b, staged, active, get_slot, other, has_artifact}
use lokan_os.Updater.State.{
  UpdaterState, is_ok, is_err, ok, err, panic, nothing_staged, no_previous_active, stage,
  begin_commit, rollback,
}
use lokan_os.Updater.State.Invariant.{IsValid, state_of, artifact_of}

has_artifact-eq : (r : Option String) (text : String) → has_artifact r text ≡ true → r ≡ some text
has_artifact-eq none text h = cc
has_artifact-eq (some r) text h = ap some ((eq_iff r text).0 h)

-- What a successful staging leaves of the state before it.
pub record StagedInto (s t : UpdaterState) (slot : Slot) (text : String) : Type 0 where
  pub staging : t.staging ≡ some slot
  pub staged_state : state_of t slot ≡ some staged
  pub artifact : artifact_of t slot ≡ some text
  pub others : get_slot t.slots (other slot) ≡ get_slot s.slots (other slot)
  pub active : t.active ≡ s.active
  pub not_active : s.active ≢ some slot
  pub previous : t.previous_active ≡ s.previous_active
  pub failed : t.last_failed ≡ s.last_failed

-- In a valid state, a successful `stage` puts the artifact into a slot that is not the active one,
-- and changes neither the other slot nor the active, previous or failed slot.
pub stage-StagedInto :
    (s : UpdaterState) (text : String) (target : Option Slot) (slot : Slot)
    → IsValid s
    → (stage s text target).1 ≡ ok slot
    → StagedInto s (stage s text target).0 slot text
unfolding stage other
stage-StagedInto s text target slot h e =
    ground (arith, has_artifact-eq (artifact_of s a) text, has_artifact-eq (artifact_of s b) text)

-- In a valid state `stage` does not panic, and when it fails it leaves the state as it was.
pub stage_error :
    (s : UpdaterState) (text : String) (target : Option Slot)
    → IsValid s
    → ((stage s text target).1 ≢ panic)
      × (is_ok (stage s text target).1 ≡ false → (stage s text target).0 ≡ s)
unfolding stage
stage_error s text target h = (ground arith, ground arith)

-- Staging the same artifact again changes nothing, not even the generation.
pub stage_again :
    (s : UpdaterState) (text : String) (target : Option Slot) (slot : Slot)
    → (stage s text target).1 ≡ ok slot
    → stage (stage s text target).0 text target ≡ ((stage s text target).0, ok slot)
unfolding stage
stage_again s text target slot e = ground (arith, eq_refl text)

-- In a valid state with an active slot, a rollback that succeeds goes back to the slot that failed
-- last. It leaves both slots Active, and from then on staging, committing and rolling back are all
-- refused and change nothing.
pub rollback_wedges :
    (s : UpdaterState) (q p : Slot) (text : String) (target : Option Slot)
    → IsValid s
    → s.active ≡ some q
    → (rollback s).1 ≡ ok p
    → let t = (rollback s).0 in
      (s.last_failed ≡ some p)
      × (p ≢ q)
      × (state_of t p ≡ some active)
      × (state_of t q ≡ some active)
      × (is_err (stage t text target).1 ≡ true)
      × ((stage t text target).0 ≡ t)
      × (begin_commit t ≡ (t, err nothing_staged))
      × (rollback t ≡ (t, err no_previous_active))
unfolding rollback stage begin_commit
rollback_wedges s q p text target h act e = ground arith
