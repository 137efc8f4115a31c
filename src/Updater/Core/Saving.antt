-- ===== src/Updater/Core/Saving.antt =====
-- services/updater/src/core.rs: what a save keeps of the state and of the result.
use lokan_os.Prelude.{◌≡◌, refl, ap}
use lokan_os.Prelude.Result.{Result}
use lokan_os.Updater.State.{UpdaterState, Outcome, ok, err, panic}
use lokan_os.Updater.Store.{StateStore, StateStoreError}
use lokan_os.Updater.Core.{UpdaterError, Core, saved, save_then, save_if_ok}

module _ (store : StateStore) where
  open store use {Store, save}

  module _ {ℓ} {A : Type ℓ} where
    state-saved :
        (s : UpdaterState) (r : Outcome UpdaterError A)
        (w : Store × Result StateStoreError (Unit {0}))
        → (saved store s r w).0.state ≡ s
    unfolding saved
    state-saved s r (st, Result.ok u) = refl
    state-saved s r (st, Result.err e) = refl

    -- The memory takes the new state even if the store reports an error.
    pub state-save_then :
        (c : Core store) (s : UpdaterState) (r : Outcome UpdaterError A)
        → (save_then store c s r).0.state ≡ s
    unfolding save_then
    state-save_then c s r = state-saved s r (save c.stored s)

    saved-ok :
        (s : UpdaterState) (x y : A) (w : Store × Result StateStoreError (Unit {0}))
        → (saved store s (ok x) w).1 ≡ ok y
        → x ≡ y
    unfolding saved
    saved-ok s x y (st, Result.ok u) h = cc
    saved-ok s x y (st, Result.err e) h = cc

  module _ {ℓ κ} {E : Type ℓ} {A : Type κ} where
    pub state-save_if_ok :
        (from : E → UpdaterError) (c : Core store) (r : UpdaterState × Outcome E A)
        → (save_if_ok store from c r).0.state ≡ r.0
    unfolding save_if_ok
    state-save_if_ok from c (s, ok x) = state-save_then c s (ok x)
    state-save_if_ok from c (s, err e) = refl
    state-save_if_ok from c (s, panic) = refl

    pub save_if_ok-ok :
        (from : E → UpdaterError) (c : Core store) (r : UpdaterState × Outcome E A) (x : A)
        → (save_if_ok store from c r).1 ≡ ok x
        → r.1 ≡ ok x
    unfolding save_if_ok
    save_if_ok-ok from c (s, ok y) x h = ap ok (saved-ok s y x (save c.stored s) h)
    save_if_ok-ok from c (s, err e) x h = cc
    save_if_ok-ok from c (s, panic) x h = cc
