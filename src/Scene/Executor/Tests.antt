-- ===== src/Scene/Executor/Tests.antt =====
-- services/scene-svc: concrete runs.
use lokan_os.Prelude.{
  ℕ, String, ◌≡◌, ◌≢◌, refl, true, Option, none, some, List, [], ◌∷◌, str_eq, ◌==◌, if◌then◌else◌,
  arith,
}
use lokan_os.Prelude.Keys.{string_key}
use lokan_os.Prelude.Dict.{Dict, get, insert, get-insert}
use lokan_os.Prelude.Result.{Result, ok, err}
use lokan_os.Scene.Client.{SceneError, missing, registry, DeviceRegistryClient}
use lokan_os.Scene.Executor.{
  SceneStatus, DeviceOperation, apply_scene, finish, apply_ops, apply_op, after_fetch, after_apply,
  undo_all, undo_result,
}
use lokan_os.Scene.Executor.Rollback.{Stateful, undone_ok, apply_scene-restores}

abbrev Devices : Type 0
Devices = Dict String ℕ

abbrev fetched : String → Option ℕ → Result SceneError ℕ
fetched id none = err (missing id)
fetched id (some v) = ok v

-- A registry that refuses the state 13.
abbrev set_state : Devices → String → ℕ → Devices × Result SceneError (Unit {0})
set_state w id v = if v == 13 then (w, err (registry "out of range")) else (insert w id v, ok tt)

abbrev shelf : DeviceRegistryClient
shelf = record {
  World = Devices;
  Value = ℕ;
  fetch_state = λ w id. (w, fetched id (get w id));
  apply_state = set_state;
}

fetched-get : (id : String) (o : Option ℕ) (v : ℕ) → fetched id o ≡ ok v → o ≡ some v
fetched-get id none v h = cc
fetched-get id (some w) v h = ground (arith, h)

set_state-set :
    (w : Devices) (id : String) (v : ℕ) (j : String)
    → (set_state w id v).1 ≡ ok tt
    → get (set_state w id v).0 j ≡ (if str_eq id j then some v else get w j)
set_state-set w id v j h = ground (arith, h, get-insert w id v j)

set_state-same :
    (w : Devices) (id : String) (v : ℕ) (e : SceneError) (j : String)
    → (set_state w id v).1 ≡ err e
    → get (set_state w id v).0 j ≡ get w j
set_state-same w id v e j h = ground (arith, h)

abbrev shelf-Stateful : Stateful shelf
shelf-Stateful = record {
  state_of = get;
  fetch-state = λ w id v h. fetched-get id (get w id) v h;
  fetch-same = λ w id j. refl;
  apply-state = set_state-set;
  apply-same = set_state-same;
}

abbrev lamps : Devices
lamps = ("hall", 1) ∷ ("porch", 2) ∷ []

abbrev evening : List (DeviceOperation shelf)
evening = record { device_id = "hall"; state = 7 } ∷ record { device_id = "porch"; state = 13 } ∷ []

evening-fails : (apply_scene shelf lamps evening).1.status ≢ SceneStatus.applied
unfolding apply_scene get insert finish apply_ops apply_op after_fetch after_apply undo_all
    undo_result
evening-fails = λ h. absurd (ground arith)

evening-undone : undone_ok (apply_scene shelf lamps evening).1.results ≡ true
unfolding apply_scene get insert finish apply_ops apply_op after_fetch after_apply undo_all
    undo_result
evening-undone = refl

apply_scene-restores_example : get (apply_scene shelf lamps evening).0 "hall" ≡ get lamps "hall"
apply_scene-restores_example =
    apply_scene-restores shelf shelf-Stateful lamps evening evening-fails evening-undone "hall"
