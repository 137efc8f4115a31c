-- ===== src/Scene/Executor.antt =====
-- services/scene-svc/src/main.rs: `SceneExecutor::apply_scene`.
pub mod Rollback
mod Tests
use lokan_os.Prelude.{
  ℕ, String, Bool, true, false, Option, none, some, List, [], ◌∷◌, ◌++◌, reverse, any,
  if◌then◌else◌,
}
use lokan_os.Prelude.Result.{Result, ok, err}
use lokan_os.Scene.Client.{SceneError, DeviceRegistryClient}

pub data SceneStatus : Type 0 where
  applied partial_failure failed : SceneStatus

pub data DeviceStatus : Type 0 where
  applied rolled_back failed skipped : DeviceStatus

-- The text of `detail`, before it is formatted.
pub data Detail : Type 0 where
  prior_failure : Detail
  because : SceneError → Detail
  rollback_failed : SceneError → Detail
  undone : Detail

pub record DeviceApplyResult : Type 0 where
  pub device_id : String
  pub status : DeviceStatus
  pub detail : Option Detail

pub record SceneResponse : Type 0 where
  pub status : SceneStatus
  pub results : List DeviceApplyResult

abbrev pub is_rolled_back : DeviceApplyResult → Bool
is_rolled_back r = elim r.status [ DeviceStatus.rolled_back ↦ true | _ ↦ false ]

abbrev report : String → DeviceStatus → Option Detail → DeviceApplyResult
report device_id status detail = record { device_id = device_id; status = status; detail = detail }

module _ (client : DeviceRegistryClient) where
  open client use {World, Value, fetch_state, apply_state}

  pub record DeviceOperation : Type 0 where
    pub device_id : String
    pub state : Value

  -- The variables of the loop.
  pub record Progress : Type 0 where
    pub world : World
    pub results : List DeviceApplyResult
    pub previous_states : List (String × Value)
    pub failure_encountered : Bool

  add : Progress → World → DeviceApplyResult → Progress
  add p w r = record p { world = w; results = p.results ++ r ∷ [] }

  fail : Progress → World → String → SceneError → Progress
  unfolding add
  fail p w device_id e =
      record (add p w (report device_id DeviceStatus.failed (some (because e)))) {
        failure_encountered = true;
      }

  pub after_apply :
      Progress → DeviceOperation → Value → World × Result SceneError (Unit {0}) → Progress
  unfolding fail
  after_apply p op prev (w, ok u) =
      record (add p w (report op.device_id DeviceStatus.applied none)) {
        previous_states = p.previous_states ++ (op.device_id, prev) ∷ [];
      }
  after_apply p op prev (w, err e) = fail p w op.device_id e

  pub after_fetch : Progress → DeviceOperation → World × Result SceneError Value → Progress
  unfolding after_apply
  after_fetch p op (w, ok prev) = after_apply p op prev (apply_state w op.device_id op.state)
  after_fetch p op (w, err e) = fail p w op.device_id e

  -- One round of the loop over the operations.
  pub apply_op : Progress → DeviceOperation → Progress
  unfolding after_fetch
  apply_op p op =
      if p.failure_encountered
      then add p p.world (report op.device_id DeviceStatus.skipped (some prior_failure))
      else after_fetch p op (fetch_state p.world op.device_id)

  pub apply_ops : Progress → List DeviceOperation → Progress
  apply_ops p [] = p
  apply_ops p (op ∷ ops) = apply_ops (apply_op p op) ops

  pub undo_result : String → Result SceneError (Unit {0}) → DeviceApplyResult
  undo_result device_id (ok u) = report device_id DeviceStatus.rolled_back (some undone)
  undo_result device_id (err e) = report device_id DeviceStatus.failed (some (rollback_failed e))

  -- The loop over the previous states, given in the order in which they are put back.
  pub undo_all :
      World → List DeviceApplyResult → List (String × Value) → World × List DeviceApplyResult
  unfolding undo_result
  undo_all w results [] = (w, results)
  undo_all w results ((device_id, prev) ∷ rest) =
      let (w', r) = apply_state w device_id prev in
      undo_all w' (results ++ undo_result device_id r ∷ []) rest

  abbrev pub start : World → Progress
  start w = record { world = w; results = []; previous_states = []; failure_encountered = false }

  pub finish : Progress → World × SceneResponse
  unfolding undo_all
  finish p =
      if p.failure_encountered
      then (let (w, results) = undo_all p.world p.results (reverse p.previous_states) in
          (
            w,
            record {
              status =
                  if any is_rolled_back results
                  then SceneStatus.partial_failure
                  else SceneStatus.failed;
              results = results;
            },
          ))
      else (p.world, record { status = SceneStatus.applied; results = p.results })

  -- SceneExecutor::apply_scene
  unfoldable pub apply_scene : World → List DeviceOperation → World × SceneResponse
  unfolding finish apply_ops
  apply_scene w operations = finish (apply_ops (start w) operations)
