-- ===== src/Updater/Http.antt =====
-- services/updater/src/lib.rs: the handlers, and the list of health endpoints.
use lokan_os.Prelude.{
  ℕ, ◌^◌, String, Bool, Option, none, some, List, [], ◌∷◌, ◌==◌, length, if◌then◌else◌, reverse,
}
use lokan_os.Prelude.Text.{trim}
use lokan_os.Prelude.Digits.{parse_unsigned}
use lokan_os.Prelude.Dict.{unwrap_or}
use lokan_os.Prelude.Result.{Result}
use lokan_os.Updater.Slots.{Slot}
use lokan_os.Updater.State.{
  UpdaterState, Outcome, ok, err, panic, slot_booting, nothing_staged, invalid_stage_state,
}
use lokan_os.Updater.Store.{StateStore}
use lokan_os.Updater.Core.{
  UpdaterError, stage_error, commit_error, rollback_error, store_error, health_error,
  health_quorum_failed, Core, stage_bundle, commit_on_health, roll_back,
}

pub record StageRequest : Type 0 where
  pub artifact : String

-- The bodies: `SlotResponse`, the state as `status` shows it, and `ErrorResponse`, whose text is
-- that of the error.
pub data Body : Type 0 where
  slot_body : Slot → Body
  state_body : UpdaterState → Body
  error_body : UpdaterError → Body

pub record Response : Type 0 where
  pub status : ℕ
  pub body : Body

-- error_response
pub error_status : UpdaterError → ℕ
error_status (stage_error slot_booting) = 409
error_status (stage_error _) = 400
error_status (commit_error nothing_staged) = 400
error_status (commit_error invalid_stage_state) = 409
error_status (rollback_error e) = 409
error_status health_quorum_failed = 503
error_status (store_error e) = 500
error_status (health_error e) = 500

error_response : UpdaterError → Response
unfolding error_status
error_response e = record { status = error_status e; body = error_body e }

-- A handler that panics sends no response.
respond : ℕ → Outcome UpdaterError Slot → Option Response
unfolding error_response
respond success (ok slot) = some record { status = success; body = slot_body slot }
respond success (err e) = some (error_response e)
respond success panic = none

module _ (store : StateStore) where
  -- The handler `stage`; the verifier's answer is an argument.
  pub handle_stage : Core store → StageRequest → Result String Slot → Core store × Option Response
  unfolding respond
  handle_stage core request verdict =
      let (core', r) = stage_bundle store core request.artifact verdict in (core', respond 202 r)

  -- The handler `commit`, with the answer of the health client.
  pub handle_commit : Core store → Result String Bool → Core store × Option Response
  unfolding respond
  handle_commit core answer =
      let (core', r) = commit_on_health store core answer in (core', respond 200 r)

  -- The handler `rollback`
  pub handle_rollback : Core store → Core store × Option Response
  unfolding respond
  handle_rollback core = let (core', r) = roll_back store core in (core', respond 200 r)

  -- The handler `status`
  pub handle_status : Core store → Response
  handle_status core = record { status = 200; body = state_body core.state }

non_empty : List ℕ → List (List ℕ) → List (List ℕ)
unfolding trim
non_empty item rest = if length (trim item) == 0 then rest else trim item ∷ rest

-- The items between commas, trimmed, the empty ones left out. `cur` is the item being read,
-- backwards.
split_endpoints : List ℕ → List ℕ → List (List ℕ)
unfolding non_empty
split_endpoints cur [] = non_empty (reverse cur) []
split_endpoints cur (c ∷ s) =
    let closed = non_empty (reverse cur) (split_endpoints [] s) in
    let longer = split_endpoints (c ∷ cur) s in if c == b',' then closed else longer

-- health_endpoints_from_env, given the value of the variable.
pub health_endpoints_from_env : Option (List ℕ) → List (List ℕ)
unfolding split_endpoints
health_endpoints_from_env none = []
health_endpoints_from_env (some value) = split_endpoints [] value

abbrev default_health_deadline : ℕ
default_health_deadline = 30

-- Option::and_then on a variable with a number below 2^64
abbrev read_number : Option (List ℕ) → Option ℕ
read_number none = none
read_number (some value) = parse_unsigned (2 ^ 64) value

-- health_deadline_from_env, in seconds, given the value of the variable.
pub health_deadline_from_env : Option (List ℕ) → ℕ
health_deadline_from_env value = unwrap_or (read_number value) default_health_deadline

-- health_quorum_from_env, given the value of the variable.
pub health_quorum_from_env : Option (List ℕ) → ℕ → ℕ
health_quorum_from_env value default = unwrap_or (read_number value) default
