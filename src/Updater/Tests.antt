-- ===== src/Updater/Tests.antt =====
-- services/updater: concrete runs.
use lokan_os.Prelude.{
  ℕ, String, ◌≡◌, refl, sym, Bool, true, false, Option, none, some, List, [], ◌∷◌, ◌≢◌, ◌⊎◌, length,
  min, ◌<◌, suc, zero, ◌+◌, arith,
}
use lokan_os.Prelude.Result.{Result}
use lokan_os.Updater.Slots.{a, b, other, active, inactive, bad, get_slot}
use lokan_os.Updater.State.{
  UpdaterState, ok, err, is_err, nothing_staged, no_previous_active, default_state, stage,
  begin_commit, finalize_commit, fail_commit, mark_active_bad, rollback,
}
use lokan_os.Updater.State.Invariant.{IsValid, default_state-IsValid, stage-IsValid, state_of}
use lokan_os.Updater.State.Cycle.{committed, abandoned, abandoned_lem, rollback_restores}
use lokan_os.Updater.State.Transitions.{StagedInto, stage-StagedInto, rollback_wedges}
use lokan_os.Updater.State.Overlap.{overlapping_commits}
use lokan_os.Updater.Store.{memory_store, Files, not_found}
use lokan_os.Updater.Core.{Core, new, commit_on_health, mark_bad, roll_back}
use lokan_os.Updater.Core.Calls.{
  Call, stage_call, commit_call, mark_bad_call, rollback_call, call, run, run-IsValid,
}
use lokan_os.Updater.Core.Durability.{Resumes, AllReported, run-Resumes}
use lokan_os.Updater.Health.{Answer, response, wait_for_quorum}
use lokan_os.Updater.Health.Polling.{Verdict, wait_for_quorum_total}

-- The first state, with an artifact staged into slot B.
abbrev with_v2 : UpdaterState
with_v2 = (stage default_state "v2" (some b)).0

stage_v2 : (stage default_state "v2" (some b)).1 ≡ ok b
unfolding stage
stage_v2 = refl

with_v2-IsValid : IsValid with_v2
with_v2-IsValid = stage-IsValid default_state "v2" (some b) default_state-IsValid

begin_v2 : (begin_commit with_v2).1 ≡ ok b
unfolding stage begin_commit
begin_v2 = refl

stage-StagedInto_example : StagedInto default_state with_v2 b "v2"
stage-StagedInto_example =
    stage-StagedInto default_state "v2" (some b) b default_state-IsValid stage_v2

abandoned_lem_example :
    let t = abandoned with_v2 b in
    (state_of t b ≡ some bad)
    × (t.last_failed ≡ some b)
    × (t.staging ≡ none)
    × (t.active ≡ with_v2.active)
    × (t.previous_active ≡ with_v2.previous_active)
    × (get_slot t.slots (other b) ≡ get_slot with_v2.slots (other b))
abandoned_lem_example = abandoned_lem with_v2 b with_v2-IsValid begin_v2

rollback_restores_example :
    let u = (mark_active_bad (committed with_v2 b)).0 in
    ((mark_active_bad (committed with_v2 b)).1 ≡ ok (some b))
    × ((rollback u).1 ≡ ok a)
    × ((rollback u).0.active ≡ some a)
    × (state_of (rollback u).0 a ≡ some active)
    × (state_of (rollback u).0 b ≡ some inactive)
    × (b ≡ other a)
rollback_restores_example =
    rollback_restores default_state a b "v2" (some b) default_state-IsValid refl stage_v2

overlapping_commits_example :
    let t = (begin_commit with_v2).0 in
    let u = finalize_commit t b in
    (begin_commit t ≡ (t, ok b))
    × ((fail_commit u b).active ≡ some b)
    × (state_of (fail_commit u b) b ≡ some bad)
    × ((finalize_commit u b).previous_active ≡ none)
    × (rollback (finalize_commit u b) ≡ (finalize_commit u b, err no_previous_active))
overlapping_commits_example = overlapping_commits with_v2 b with_v2-IsValid begin_v2

-- Slot B is committed, then a third version fails in slot A.
abbrev with_failed_a : UpdaterState
with_failed_a = abandoned (stage (committed with_v2 b) "v3" (some a)).0 a

with_failed_a-IsValid : IsValid with_failed_a
unfolding stage begin_commit finalize_commit fail_commit
with_failed_a-IsValid = ground arith

roll_back_to_a : (rollback with_failed_a).1 ≡ ok a
unfolding stage begin_commit finalize_commit fail_commit rollback
roll_back_to_a = refl

active_b : with_failed_a.active ≡ some b
unfolding stage begin_commit finalize_commit fail_commit
active_b = refl

rollback_wedges_example :
    let t = (rollback with_failed_a).0 in
    (with_failed_a.last_failed ≡ some a)
    × (a ≢ b)
    × (state_of t a ≡ some active)
    × (state_of t b ≡ some active)
    × (is_err (stage t "v4" none).1 ≡ true)
    × ((stage t "v4" none).0 ≡ t)
    × (begin_commit t ≡ (t, err nothing_staged))
    × (rollback t ≡ (t, err no_previous_active))
rollback_wedges_example =
    rollback_wedges with_failed_a b a "v4" none with_failed_a-IsValid active_b roll_back_to_a

abbrev first_core : Core memory_store
first_core = record { state = default_state; stored = some default_state }

abbrev some_calls : List Call
some_calls =
    stage_call "v2" (Result.ok b)
    ∷ commit_call (Result.ok true)
    ∷ mark_bad_call
    ∷ rollback_call
    ∷ stage_call "v3" (Result.err "no signature")
    ∷ []

run-IsValid_example : IsValid (run memory_store first_core some_calls).state
run-IsValid_example = run-IsValid memory_store first_core some_calls default_state-IsValid

first_core-Resumes : Resumes memory_store first_core
unfolding new
first_core-Resumes = refl

-- The last call is refused for its bundle, and rolling back after a commit that was marked as bad
-- goes back to slot A.
some_calls-AllReported : AllReported memory_store first_core some_calls
unfolding call commit_on_health mark_bad roll_back stage begin_commit finalize_commit
    mark_active_bad rollback
some_calls-AllReported = (tt, (tt, (tt, (tt, (tt, tt)))))

run-Resumes_example : Resumes memory_store (run memory_store first_core some_calls)
run-Resumes_example =
    run-Resumes memory_store first_core some_calls first_core-Resumes some_calls-AllReported

-- A disk that keeps the state itself.
abbrev one_file : Files
one_file = record {
  Disk = Option UpdaterState;
  Bytes = UpdaterState;
  read = λ d. elim d [ some s ↦ Result.ok s | none ↦ Result.err not_found ];
  create_parent = λ d. (d, Result.ok tt);
  write = λ d s. (some s, Result.ok tt);
  from_slice = λ s. Result.ok s;
  to_vec_pretty = λ s. Result.ok s;
  read-write = λ d s h. refl;
  from_slice-to_vec = λ s bytes h. sym h;
}

abbrev endpoints : List String
endpoints = "http://127.0.0.1:8001/health" ∷ "http://127.0.0.1:8002/health" ∷ []

-- One endpoint is well from the start, the other from the third round on.
abbrev recovering : ℕ → List Answer
recovering (suc (suc k)) = response true (some "ok") ∷ response true (some "OK") ∷ []
recovering k = response true (some "ok") ∷ response false none ∷ []

abbrev clock : ℕ → ℕ
clock k = 10 + k

wait_for_quorum_total_example :
    (r : Result String Bool) × (wait_for_quorum recovering clock 9 10 endpoints 5 2 ≡ some r)
    × ((2 ≡ zero) ⊎ (length endpoints ≡ 0) → r ≡ Result.ok true)
    × (0 < 2
        → 0 < length endpoints
        → Verdict recovering clock (min 2 (length endpoints)) (10 + 5) 0 r)
wait_for_quorum_total_example =
    wait_for_quorum_total recovering clock 9 6 10 endpoints 5 2 (omega arith) (omega arith)
