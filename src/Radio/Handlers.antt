-- ===== src/Radio/Handlers.antt =====
-- services/radio-coord/src/main.rs: the handlers. `serde_json` and the message bus are parameters;
-- the answer of the bus and the clock are arguments. The state notes the calls of
-- `msgbus_publish_total().inc` and what the bus was handed.
pub mod Service
pub mod Coherent
use lokan_os.Prelude.{ℕ, Bool, true, Option, none, some, List, [], ◌∷◌, ◌++◌}
use lokan_os.Prelude.Text.{Text, codes}
use lokan_os.Prelude.Wire.{Wire}
use lokan_os.Prelude.Result.{Result, ok, err, map_err}
use lokan_os.Radio.Requests.{
  ThreadDatasetRequest, ThreadChannelRequest, WifiConfigRequest, WifiChannelRequest, as_str,
  ApiError, bus, Check, validate_thread_dataset, validate_thread_channel, validate_wifi_config,
  validate_wifi_channel,
}
use lokan_os.Radio.Map.{
  RadioMapSnapshot, default_map, update_thread_dataset, update_thread_channel, update_wifi_config,
  update_wifi_channel,
}

pub record AppState : Type 0 where
  pub radio_map : RadioMapSnapshot
  pub counted : List (List Text × ℕ)
  pub sent : List (Text × List ℕ)

-- AppState::new
unfoldable pub new : AppState
new = record { radio_map = default_map; counted = []; sent = [] }

abbrev pub with_map : AppState → RadioMapSnapshot → AppState
with_map state map = record { radio_map = map; counted = state.counted; sent = state.sent }

pub record Acknowledgement : Type 0 where
  pub status : ℕ
  pub accepted : Bool
  pub message : Text

abbrev pub Response : Type 0
Response = AppState × Result ApiError Acknowledgement

-- The end of a handler: `?` on what the bus said, the change of the map and the acknowledgement.
abbrev pub finish :
    (RadioMapSnapshot → RadioMapSnapshot) → Text → AppState × Result ApiError (Unit {0}) → Response
finish change message (state, err e) = (state, err e)
finish change message (state, ok _) = (
  with_map state (change state.radio_map),
  ok (record { status = 202; accepted = true; message = message }),
)

-- `?` on a check
abbrev pub checked : AppState → Check → Response → Response
checked state (err e) rest = (state, err e)
checked state (ok _) rest = rest

-- What `publish_event` does once the event is encoded, or is not.
abbrev pub publish_bytes :
    AppState
    → Text
    → Result Text (List ℕ)
    → Result Text (Unit {0})
    → AppState × Result ApiError (Unit {0})
publish_bytes state subject (err e) answer = (state, err (bus e))
publish_bytes state subject (ok bytes) answer = (
  record {
    radio_map = state.radio_map;
    counted = state.counted ++ ((codes "radio-coord" ∷ subject ∷ []), 1) ∷ [];
    sent = state.sent ++ (subject, bytes) ∷ [];
  },
  map_err bus answer,
)

module _ (wire : Wire) where
  open wire use {Value, null, text, number, object, to_vec}

  unfoldable pub publish_event :
      AppState → Text → Value → Result Text (Unit {0}) → AppState × Result ApiError (Unit {0})
  publish_event state subject payload answer = publish_bytes state subject (to_vec payload) answer

  abbrev pub optional : {A : Type 0} → (A → Value) → Option A → Value
  optional f none = null
  optional f (some x) = f x

  abbrev pub dataset_event : ThreadDatasetRequest → Value
  dataset_event request = object (
      (codes "action", text (codes "thread.dataset.apply"))
      ∷ (codes "datasetId", text request.dataset_id)
      ∷ (codes "networkName", text request.network_name)
      ∷ (codes "channel", number request.channel)
      ∷ (codes "panId", text request.pan_id)
      ∷ (codes "xpanId", optional text request.xpan_id)
      ∷ [])

  unfoldable pub apply_thread_dataset :
      AppState → ThreadDatasetRequest → ℕ → Result Text (Unit {0}) → Response
  unfolding validate_thread_dataset publish_event update_thread_dataset
  apply_thread_dataset state request now answer = checked state (validate_thread_dataset request) (
      finish (λ map. update_thread_dataset map request now) (codes "thread dataset accepted")
        (publish_event state (codes "radio.thread.dataset.set") (dataset_event request) answer))

  abbrev pub thread_channel_event : ThreadChannelRequest → Value
  thread_channel_event request = object (
      (codes "action", text (codes "thread.channel.update"))
      ∷ (codes "channel", number request.channel)
      ∷ (codes "datasetId", optional text request.dataset_id)
      ∷ [])

  unfoldable pub set_thread_channel :
      AppState → ThreadChannelRequest → ℕ → Result Text (Unit {0}) → Response
  unfolding validate_thread_channel publish_event update_thread_channel
  set_thread_channel state request now answer = checked state (validate_thread_channel request) (
      finish (λ map. update_thread_channel map request now) (codes "thread channel update accepted")
        (publish_event state (codes "radio.thread.channel.set") (thread_channel_event request)
          answer))

  abbrev pub wifi_config_event : WifiConfigRequest → Value
  wifi_config_event request = object (
      (codes "action", text (codes "wifi.config.apply"))
      ∷ (codes "ssid", text request.ssid)
      ∷ (codes "security", text (as_str request.security))
      ∷ (codes "band", optional text request.band)
      ∷ (codes "channel", optional number request.channel)
      ∷ [])

  unfoldable pub apply_wifi_config :
      AppState → WifiConfigRequest → ℕ → Result Text (Unit {0}) → Response
  unfolding validate_wifi_config publish_event update_wifi_config
  apply_wifi_config state request now answer = checked state (validate_wifi_config request) (
      finish (λ map. update_wifi_config map request now) (codes "wifi configuration accepted")
        (publish_event state (codes "radio.wifi.config.set") (wifi_config_event request) answer))

  abbrev pub wifi_channel_event : WifiChannelRequest → Value
  wifi_channel_event request = object (
      (codes "action", text (codes "wifi.channel.update"))
      ∷ (codes "channel", number request.channel)
      ∷ (codes "band", optional text request.band)
      ∷ [])

  unfoldable pub set_wifi_channel :
      AppState → WifiChannelRequest → ℕ → Result Text (Unit {0}) → Response
  unfolding validate_wifi_channel publish_event update_wifi_channel
  set_wifi_channel state request now answer = checked state (validate_wifi_channel request) (
      finish (λ map. update_wifi_channel map request now) (codes "wifi channel update accepted")
        (publish_event state (codes "radio.wifi.channel.set") (wifi_channel_event request) answer))
