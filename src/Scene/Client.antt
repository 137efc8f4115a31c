-- ===== src/Scene/Client.antt =====
-- services/scene-svc/src/main.rs: `DeviceRegistryClient`, and what `HttpDeviceRegistry` makes of the
-- answers that it gets. The HTTP client and `serde_json` are parameters.
use lokan_os.Prelude.{ℕ, String, Bool, Option, none, some, if◌then◌else◌, ◌==◌, ◌&&◌, leb}
use lokan_os.Prelude.Result.{Result, ok, err}

pub data SceneError : Type 0 where
  registry : String → SceneError
  missing : String → SceneError
  unexpected : SceneError

-- The trait: the registry is a world that a call may change.
pub record DeviceRegistryClient : Type 1 where
  pub World : Type 0
  pub Value : Type 0
  pub fetch_state : World → String → World × Result SceneError Value
  pub apply_state : World → String → Value → World × Result SceneError (Unit {0})

-- A status between 200 and 299.
abbrev pub is_success : ℕ → Bool
is_success status = leb 200 status && leb status 299

-- What `reqwest` and `serde_json` answer: a transport error, or a status with the body, whose text
-- may be no JSON. `state_field` is `body.get("state")`.
pub record Http : Type 1 where
  pub World : Type 0
  pub Value : Type 0
  pub empty_object : Value
  pub state_field : Value → Option Value
  pub get_json : World → String → World × Result String (ℕ × Result String Value)
  pub put_json : World → String → Value → World × Result String ℕ
  pub device_url : String → String
  pub device_state_url : String → String

module _ (http : Http) where
  open http use {
    World, Value, empty_object, state_field, get_json, put_json, device_url, device_state_url,
  }

  state_or_empty : Option Value → Value
  state_or_empty none = empty_object
  state_or_empty (some state) = state

  fetched_body : Result String Value → Result SceneError Value
  unfolding state_or_empty
  fetched_body (ok body) = ok (state_or_empty (state_field body))
  fetched_body (err e) = err (registry e)

  fetched : String → Result String (ℕ × Result String Value) → Result SceneError Value
  unfolding fetched_body
  fetched device_id (err e) = err (registry e)
  fetched device_id (ok (status, body)) =
      if is_success status
      then fetched_body body
      else if status == 404
      then err (missing device_id)
      else err unexpected

  applied : String → Result String ℕ → Result SceneError (Unit {0})
  applied device_id (err e) = err (registry e)
  applied device_id (ok status) =
      if is_success status
      then ok tt
      else if status == 404
      then err (missing device_id)
      else err unexpected

  -- HttpDeviceRegistry::fetch_state
  unfoldable pub http_fetch_state : World → String → World × Result SceneError Value
  unfolding fetched
  http_fetch_state w device_id =
      let (w', answer) = get_json w (device_url device_id) in (w', fetched device_id answer)

  -- HttpDeviceRegistry::apply_state
  unfoldable pub http_apply_state : World → String → Value → World × Result SceneError (Unit {0})
  unfolding applied
  http_apply_state w device_id state =
      let (w', answer) = put_json w (device_state_url device_id) state in
      (w', applied device_id answer)

  pub http_registry : DeviceRegistryClient
  http_registry = record {
    World = World;
    Value = Value;
    fetch_state = http_fetch_state;
    apply_state = http_apply_state;
  }
