-- ===== src/Updater/State/Unchanged.antt =====
-- services/updater/src/state.rs: an operation that fails, or that panics, has changed nothing.
use lokan_os.Prelude.{String, ◌≡◌, Option, arith, false}
use lokan_os.Updater.Slots.{Slot}
use lokan_os.Updater.State.{
  UpdaterState, Outcome, is_ok, stage, begin_commit, mark_active_bad, rollback,
}

abbrev pub KeepsOnFailure {ℓ κ} :
    {E : Type ℓ} {A : Type κ} → UpdaterState → UpdaterState × Outcome E A → Type 0
KeepsOnFailure s r = is_ok r.1 ≡ false → r.0 ≡ s

pub stage-KeepsOnFailure :
    (s : UpdaterState) (text : String) (target : Option Slot)
    → KeepsOnFailure s (stage s text target)
unfolding stage
stage-KeepsOnFailure s text target h = ground arith

pub begin_commit-KeepsOnFailure : (s : UpdaterState) → KeepsOnFailure s (begin_commit s)
unfolding begin_commit
begin_commit-KeepsOnFailure s h = ground arith

pub mark_active_bad-KeepsOnFailure : (s : UpdaterState) → KeepsOnFailure s (mark_active_bad s)
unfolding mark_active_bad
mark_active_bad-KeepsOnFailure s h = ground arith

pub rollback-KeepsOnFailure : (s : UpdaterState) → KeepsOnFailure s (rollback s)
unfolding rollback
rollback-KeepsOnFailure s h = ground arith
