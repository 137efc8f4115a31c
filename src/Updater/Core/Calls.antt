-- ===== src/Updater/Core/Calls.antt =====
-- services/updater/src/core.rs: any sequence of calls, each run to its end before the next.
use lokan_os.Prelude.{String, ◌≡◌, refl, Bool, true, false, some, List, [], ◌∷◌}
use lokan_os.Prelude.Result.{Result}
use lokan_os.Updater.Slots.{Slot}
use lokan_os.Updater.State.{Outcome, ok, err, panic, begin_commit}
use lokan_os.Updater.State.Invariant.{
  IsValid, stage-IsValid, begin_commit-IsValid, begin_commit-staging, finalize_commit-IsValid,
  fail_commit-IsValid, mark_active_bad-IsValid, rollback-IsValid,
}
use lokan_os.Updater.Store.{StateStore}
use lokan_os.Updater.Core.Saving.{state-save_then, state-save_if_ok, save_if_ok-ok}
use lokan_os.Updater.Core.{
  commit_error, commit_rest, UpdaterError, Core, stage_bundle, commit_begin, commit_on_health,
  mark_bad, roll_back,
}

-- A call, with what the verifier or the health client answers.
pub data Call : Type 0 where
  stage_call : String → Result String Slot → Call
  commit_call : Result String Bool → Call
  mark_bad_call : Call
  rollback_call : Call

-- How a call ended, without its value.
pub data End : Type 0 where
  done : End
  failed : UpdaterError → End
  panicked : End

abbrev pub end {ℓ} : {A : Type ℓ} → Outcome UpdaterError A → End
end (ok x) = done
end (err e) = failed e
end panic = panicked

module _ (store : StateStore) where
  unfoldable pub call : Core store → Call → Core store × End
  unfolding stage_bundle commit_on_health mark_bad roll_back
  call c (stage_call text verdict) = let (d, r) = stage_bundle store c text verdict in (d, end r)
  call c (commit_call answer) = let (d, r) = commit_on_health store c answer in (d, end r)
  call c mark_bad_call = let (d, r) = mark_bad store c in (d, end r)
  call c rollback_call = let (d, r) = roll_back store c in (d, end r)

  unfoldable pub run : Core store → List Call → Core store
  run c [] = c
  run c (k ∷ ks) = run (call c k).0 ks

  commit_rest-IsValid :
      (d : Core store) (r : Outcome UpdaterError Slot) (answer : Result String Bool)
      → IsValid d.state
      → ((slot : Slot) → r ≡ ok slot → d.state.staging ≡ some slot)
      → IsValid (commit_rest store (d, r) answer).0.state
  unfolding commit_rest
  commit_rest-IsValid d (ok slot) (Result.ok true) h g =
      rw state-save_then (finalize_commit-IsValid d.state slot h)
  commit_rest-IsValid d (ok slot) (Result.ok false) h g =
      rw state-save_then (fail_commit-IsValid d.state slot (g slot refl) h)
  commit_rest-IsValid d (ok slot) (Result.err e) h g = h
  commit_rest-IsValid d (err e) answer h g = h
  commit_rest-IsValid d panic answer h g = h

  commit_begin-staging :
      (c : Core store) (slot : Slot)
      → (commit_begin store c).1 ≡ ok slot
      → (commit_begin store c).0.state.staging ≡ some slot
  unfolding commit_begin
  commit_begin-staging c slot h = rw state-save_if_ok (
      begin_commit-staging c.state slot
        (save_if_ok-ok store commit_error c (begin_commit c.state) slot h))

  call-IsValid : (c : Core store) (k : Call) → IsValid c.state → IsValid (call c k).0.state
  unfolding call commit_begin
  call-IsValid c (stage_call text (Result.ok slot)) h =
      rw state-save_if_ok (stage-IsValid c.state text (some slot) h)
  call-IsValid c (stage_call text (Result.err e)) h = h
  call-IsValid c (commit_call answer) h =
      commit_rest-IsValid (commit_begin store c).0 (commit_begin store c).1 answer
        (rw state-save_if_ok (begin_commit-IsValid c.state h)) (commit_begin-staging c)
  call-IsValid c mark_bad_call h = rw state-save_if_ok (mark_active_bad-IsValid c.state h)
  call-IsValid c rollback_call h = rw state-save_if_ok (rollback-IsValid c.state h)

  -- Let calls be made in any order, each run to its end before the next, so that no call comes while a
  -- commit waits for the health of the system. Then, whatever the verifier, the health client and the
  -- store answer, a core that holds a valid state goes on holding one.
  pub run-IsValid :
      (c : Core store) (calls : List Call) → IsValid c.state → IsValid (run c calls).state
  unfolding run
  run-IsValid c [] h = h
  run-IsValid c (k ∷ ks) h = run-IsValid (call c k).0 ks (call-IsValid c k h)
