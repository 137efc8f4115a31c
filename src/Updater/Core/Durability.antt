-- ===== src/Updater/Core/Durability.antt =====
-- services/updater/src/core.rs: a restart from the store.
use lokan_os.Prelude.{String, ◌≡◌, ap, ◌∙◌, refl, Bool, true, false, some, List, [], ◌∷◌, arith}
use lokan_os.Prelude.Result.{Result}
use lokan_os.Updater.Slots.{Slot}
use lokan_os.Updater.State.{
  UpdaterState, Outcome, ok, err, panic, stage, begin_commit, finalize_commit, fail_commit,
  mark_active_bad, rollback,
}
use lokan_os.Updater.State.Unchanged.{
  KeepsOnFailure, stage-KeepsOnFailure, begin_commit-KeepsOnFailure, mark_active_bad-KeepsOnFailure,
  rollback-KeepsOnFailure,
}
use lokan_os.Updater.Store.{StateStore, StateStoreError}
use lokan_os.Updater.Core.{
  UpdaterError, store_error, commit_error, stage_error, rollback_error, health_quorum_failed, Core,
  new, saved, save_then, save_if_ok, stage_bundle, commit_begin, commit_finish, commit_rest,
  commit_on_health, mark_bad, roll_back,
}
use lokan_os.Updater.Core.Calls.{
  Call, stage_call, commit_call, mark_bad_call, rollback_call, End, failed, end, call, run,
}

module _ (store : StateStore) where
  open store use {Store, load, save}

  -- A core made from the store would be the same core.
  abbrev pub Resumes : Core store → Type 0
  Resumes c = new store c.stored ≡ Result.ok c

  -- The call did not end with an error of the store.
  abbrev NoStoreError {ℓ} : {A : Type ℓ} → Outcome UpdaterError A → Type 0
  NoStoreError (err (store_error e)) = ⊥
  NoStoreError _ = Unit

  loads-Resumes :
      (st : Store) (s : UpdaterState)
      → load st ≡ Result.ok (some s)
      → Resumes (record { state = s; stored = st })
  unfolding new
  loads-Resumes st s h = rw (h, new)

  saved-Resumes {ℓ} :
      {A : Type ℓ} (s : UpdaterState) (r : Outcome UpdaterError A)
      (w : Store × Result StateStoreError (Unit {0}))
      → (w.1 ≡ Result.ok tt → load w.0 ≡ Result.ok (some s))
      → NoStoreError (saved store s r w).1
      → Resumes (saved store s r w).0
  unfolding saved
  saved-Resumes s r (st, Result.ok u) law h = loads-Resumes st s (law refl)
  saved-Resumes s r (st, Result.err x) law h = elim h [ ]

  save_then-Resumes {ℓ} :
      {A : Type ℓ} (c : Core store) (s : UpdaterState) (r : Outcome UpdaterError A)
      → NoStoreError (save_then store c s r).1
      → Resumes (save_then store c s r).0
  unfolding save_then
  save_then-Resumes c s r h = saved-Resumes s r (save c.stored s) (store.load-save c.stored s) h

  same_state-Resumes :
      (c : Core store) (s : UpdaterState)
      → s ≡ c.state
      → Resumes c
      → Resumes (record c { state = s })
  same_state-Resumes c s e h = rw e h

  save_if_ok-Resumes {ℓ κ} :
      {E : Type ℓ} {A : Type κ} (from : E → UpdaterError) (c : Core store)
      (r : UpdaterState × Outcome E A)
      → KeepsOnFailure c.state r
      → Resumes c
      → NoStoreError (save_if_ok store from c r).1
      → Resumes (save_if_ok store from c r).0
  unfolding save_if_ok
  save_if_ok-Resumes from c (s, ok x) keep h n = save_then-Resumes c s (ok x) n
  save_if_ok-Resumes from c (s, err e) keep h n = same_state-Resumes c s (keep refl) h
  save_if_ok-Resumes from c (s, panic) keep h n = same_state-Resumes c s (keep refl) h

  commit_finish-Resumes :
      (c : Core store) (slot : Slot) (answer : Result String Bool)
      → Resumes c
      → NoStoreError (commit_finish store c slot answer).1
      → Resumes (commit_finish store c slot answer).0
  unfolding commit_finish
  commit_finish-Resumes c slot (Result.ok true) h n =
      save_then-Resumes c (finalize_commit c.state slot) (ok slot) n
  commit_finish-Resumes c slot (Result.ok false) h n =
      save_then-Resumes c (fail_commit c.state slot) (err health_quorum_failed) n
  commit_finish-Resumes c slot (Result.err e) h n = h

  commit_rest-Resumes :
      (d : Core store) (r : Outcome UpdaterError Slot) (answer : Result String Bool)
      → (NoStoreError r → Resumes d)
      → NoStoreError (commit_rest store (d, r) answer).1
      → Resumes (commit_rest store (d, r) answer).0
  unfolding commit_rest
  commit_rest-Resumes d (ok slot) answer h n = commit_finish-Resumes d slot answer (h tt) n
  commit_rest-Resumes d (err e) answer h n = h n
  commit_rest-Resumes d panic answer h n = h tt

  stage_bundle-Resumes :
      (c : Core store) (text : String) (verdict : Result String Slot)
      → Resumes c
      → NoStoreError (stage_bundle store c text verdict).1
      → Resumes (stage_bundle store c text verdict).0
  unfolding stage_bundle
  stage_bundle-Resumes c text (Result.ok slot) h n =
      save_if_ok-Resumes stage_error c (stage c.state text (some slot))
        (stage-KeepsOnFailure c.state text (some slot)) h n
  stage_bundle-Resumes c text (Result.err e) h n = h

  commit_on_health-Resumes :
      (c : Core store) (answer : Result String Bool)
      → Resumes c
      → NoStoreError (commit_on_health store c answer).1
      → Resumes (commit_on_health store c answer).0
  unfolding commit_on_health
  commit_on_health-Resumes c answer h n =
      commit_rest-Resumes (commit_begin store c).0 (commit_begin store c).1 answer
        (save_if_ok-Resumes commit_error c (begin_commit c.state)
          (begin_commit-KeepsOnFailure c.state) h)
        n

  roll_back-Resumes :
      (c : Core store)
      → Resumes c
      → NoStoreError (roll_back store c).1
      → Resumes (roll_back store c).0
  unfolding roll_back
  roll_back-Resumes c h n =
      save_if_ok-Resumes rollback_error c (rollback c.state) (rollback-KeepsOnFailure c.state) h n

  mark_bad-Resumes :
      (c : Core store)
      → Resumes c
      → NoStoreError (mark_bad store c).1
      → Resumes (mark_bad store c).0
  unfolding mark_bad
  mark_bad-Resumes c h n =
      save_if_ok-Resumes (λ _. health_quorum_failed) c (mark_active_bad c.state)
        (mark_active_bad-KeepsOnFailure c.state) h n

  -- The call did not end with an error of the store.
  abbrev pub Reported : End → Type 0
  Reported (failed (store_error e)) = ⊥
  Reported _ = Unit

  abbrev pub AllReported : Core store → List Call → Type 0
  AllReported c [] = Unit
  AllReported c (k ∷ ks) = Reported (call store c k).1 × AllReported (call store c k).0 ks

  NoStoreError-of_Reported {ℓ} :
      {A : Type ℓ} (r : Outcome UpdaterError A) → Reported (end r) → NoStoreError r
  NoStoreError-of_Reported (err (store_error e)) h = elim h [ ]
  NoStoreError-of_Reported _ h = tt

  call-Resumes :
      (c : Core store) (k : Call)
      → Resumes c
      → Reported (call store c k).1
      → Resumes (call store c k).0
  unfolding call
  call-Resumes c (stage_call text verdict) h n =
      stage_bundle-Resumes c text verdict h
        (NoStoreError-of_Reported (stage_bundle store c text verdict).1 n)
  call-Resumes c (commit_call answer) h n =
      commit_on_health-Resumes c answer h
        (NoStoreError-of_Reported (commit_on_health store c answer).1 n)
  call-Resumes c mark_bad_call h n =
      mark_bad-Resumes c h (NoStoreError-of_Reported (mark_bad store c).1 n)
  call-Resumes c rollback_call h n =
      roll_back-Resumes c h (NoStoreError-of_Reported (roll_back store c).1 n)

  -- If starting from the store gives back the core itself, then so it does after any calls, each run
  -- to its end before the next, of which none ended with an error of the store: nothing that was done
  -- is lost by a restart.
  pub run-Resumes :
      (c : Core store) (calls : List Call)
      → Resumes c
      → AllReported c calls
      → Resumes (run store c calls)
  unfolding run
  run-Resumes c [] h n = h
  run-Resumes c (k ∷ ks) h n = run-Resumes (call store c k).0 ks (call-Resumes c k h n.0) n.1

  stored-new : (st : Store) (c : Core store) → new store st ≡ Result.ok c → c.stored ≡ st
  unfolding new
  stored-new st c h = ground arith

  -- A core that was just made from a store resumes from it.
  pub new-Resumes : (st : Store) (c : Core store) → new store st ≡ Result.ok c → Resumes c
  new-Resumes st c h = ap (new store) (stored-new st c h) ∙ h
