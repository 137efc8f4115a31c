-- ===== src/Updater/Core.antt =====
-- services/updater/src/core.rs: `UpdaterCore`. A core holds a state in memory and a store. The
-- health client's answer and the bundle verifier's answer are arguments of the calls that wait for
-- them. The source gives up its lock while a commit waits for the health client: `commit_begin` is
-- what comes before, `commit_rest` what comes after, and `commit_on_health` the two with no other
-- call between.
mod Saving
pub mod Calls
pub mod Durability
use lokan_os.Prelude.{ℕ, String, Bool, true, false, Option, none, some, if◌then◌else◌}
use lokan_os.Prelude.Result
use lokan_os.Prelude.Result.{Result}
use lokan_os.Updater.Slots.{Slot}
use lokan_os.Updater.State.{
  UpdaterState, Outcome, ok, err, panic, StageError, invalid_bundle, CommitError, RollbackError,
  default_state, stage, begin_commit, finalize_commit, fail_commit, mark_active_bad, rollback,
}
use lokan_os.Updater.Store.{StateStore, StateStoreError}

pub data UpdaterError : Type 0 where
  stage_error : StageError → UpdaterError
  commit_error : CommitError → UpdaterError
  rollback_error : RollbackError → UpdaterError
  store_error : StateStoreError → UpdaterError
  health_error : String → UpdaterError
  health_quorum_failed : UpdaterError

module _ (store : StateStore) where
  open store use {Store, load, save}

  pub record Core : Type 0 where
    pub state : UpdaterState
    pub stored : Store

  new_from : Store → Result StateStoreError (Option UpdaterState) → Result UpdaterError Core
  new_from st (Result.ok (some s)) = Result.ok (record { state = s; stored = st })
  new_from st (Result.ok none) = Result.ok (record { state = default_state; stored = st })
  new_from st (Result.err e) = Result.err (store_error e)

  -- UpdaterCore::new
  unfoldable pub new : Store → Result UpdaterError Core
  unfolding new_from
  new st = new_from st (load st)

  saved {ℓ} :
      {A : Type ℓ}
      → UpdaterState
      → Outcome UpdaterError A
      → Store × Result StateStoreError (Unit {0})
      → Core × Outcome UpdaterError A
  saved s result (st, Result.ok u) = (record { state = s; stored = st }, result)
  saved s result (st, Result.err e) = (record { state = s; stored = st }, err (store_error e))

  -- `self.store.save(&state).await?` followed by the result.
  pub save_then {ℓ} :
      {A : Type ℓ} → Core → UpdaterState → Outcome UpdaterError A → Core × Outcome UpdaterError A
  unfolding saved
  save_then c s result = saved s result (save c.stored s)

  -- The `?` after an operation of the state: an error returns before the save.
  pub save_if_ok {ℓ κ} :
      {E : Type ℓ} {A : Type κ}
      → (E → UpdaterError)
      → Core
      → UpdaterState × Outcome E A
      → Core × Outcome UpdaterError A
  unfolding save_then
  save_if_ok from c (s, ok x) = save_then c s (ok x)
  save_if_ok from c (s, err e) = (record c { state = s }, err (from e))
  save_if_ok from c (s, panic) = (record c { state = s }, panic)

  -- UpdaterCore::stage; the verifier answers with the target slot of the manifest, or an error.
  unfoldable pub stage_bundle :
      Core → String → Result String Slot → Core × Outcome UpdaterError Slot
  unfolding save_if_ok
  stage_bundle c text (Result.ok slot) = save_if_ok stage_error c (stage c.state text (some slot))
  stage_bundle c text (Result.err e) = (c, err (stage_error (invalid_bundle e)))

  -- The first critical section of UpdaterCore::commit_on_health.
  unfoldable pub commit_begin : Core → Core × Outcome UpdaterError Slot
  unfolding save_if_ok
  commit_begin c = save_if_ok commit_error c (begin_commit c.state)

  -- The rest of UpdaterCore::commit_on_health, after `wait_for_quorum` has answered.
  unfoldable pub commit_finish : Core → Slot → Result String Bool → Core × Outcome UpdaterError Slot
  unfolding save_then
  commit_finish c slot (Result.ok true) = save_then c (finalize_commit c.state slot) (ok slot)
  commit_finish c slot (Result.ok false) =
      save_then c (fail_commit c.state slot) (err health_quorum_failed)
  commit_finish c slot (Result.err e) = (c, err (health_error e))

  pub commit_rest :
      Core × Outcome UpdaterError Slot → Result String Bool → Core × Outcome UpdaterError Slot
  unfolding commit_finish
  commit_rest (c, ok slot) answer = commit_finish c slot answer
  commit_rest (c, err e) answer = (c, err e)
  commit_rest (c, panic) answer = (c, panic)

  -- UpdaterCore::commit_on_health, when no other call runs while it waits.
  unfoldable pub commit_on_health : Core → Result String Bool → Core × Outcome UpdaterError Slot
  unfolding commit_rest commit_begin
  commit_on_health c answer = commit_rest (commit_begin c) answer

  -- UpdaterCore::mark_bad
  unfoldable pub mark_bad : Core → Core × Outcome UpdaterError (Option Slot)
  unfolding save_if_ok
  mark_bad c = save_if_ok (λ (_ : Unit {0}). health_quorum_failed) c (mark_active_bad c.state)

  -- UpdaterCore::rollback
  unfoldable pub roll_back : Core → Core × Outcome UpdaterError Slot
  unfolding save_if_ok
  roll_back c = save_if_ok rollback_error c (rollback c.state)
