-- ===== src/Updater/State/Overlap.antt =====
-- services/updater/src/core.rs: two commits in flight. `commit_on_health` releases the lock while it
-- waits, and `begin_commit` accepts a slot that is booting already.
use lokan_os.Prelude.{◌≡◌, none, some, arith}
use lokan_os.Updater.Slots.{Slot, bad}
use lokan_os.Updater.State.{
  UpdaterState, ok, err, no_previous_active, begin_commit, finalize_commit, fail_commit, rollback,
}
use lokan_os.Updater.State.Invariant.{IsValid, state_of}

-- In a valid state, after a commit has begun, a second one begins too, for the same slot, and
-- changes nothing. If the first is then found healthy and the second unhealthy, the slot is active
-- and at the same time Bad. If both are found healthy, the slot that was active before is
-- forgotten, and a rollback is refused.
pub overlapping_commits :
    (s : UpdaterState) (slot : Slot)
    → IsValid s
    → (begin_commit s).1 ≡ ok slot
    → let t = (begin_commit s).0 in
      let u = finalize_commit t slot in
      (begin_commit t ≡ (t, ok slot))
      × ((fail_commit u slot).active ≡ some slot)
      × (state_of (fail_commit u slot) slot ≡ some bad)
      × ((finalize_commit u slot).previous_active ≡ none)
      × (rollback (finalize_commit u slot) ≡ (finalize_commit u slot, err no_previous_active))
unfolding begin_commit finalize_commit fail_commit rollback
overlapping_commits s slot h e = ground arith
