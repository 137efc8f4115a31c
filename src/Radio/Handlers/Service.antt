-- ===== src/Radio/Handlers/Service.antt =====
-- services/radio-coord/src/main.rs: the four handlers as one service, and how each request ends.
use lokan_os.Prelude.{ℕ, ◌≡◌, ◌↔◌, refl, ap, true, if◌then◌else◌, List, [], ◌∷◌}
use lokan_os.Prelude.Text.{Text, codes}
use lokan_os.Prelude.Result.{Result, ok, err, is_ok}
use lokan_os.Radio.Requests.{
  ThreadDatasetRequest, ThreadChannelRequest, WifiConfigRequest, WifiChannelRequest, ApiError,
  Check, fine, validate_thread_dataset, validate_thread_channel, validate_wifi_config,
  validate_wifi_channel,
}
use lokan_os.Radio.Map.{
  RadioMapSnapshot, update_thread_dataset, update_thread_channel, update_wifi_config,
  update_wifi_channel,
}
use lokan_os.Prelude.Wire.{Wire}
use lokan_os.Radio.Handlers.{
  AppState, Response, finish, checked, publish_bytes, publish_event, dataset_event,
  thread_channel_event, wifi_config_event, wifi_channel_event, apply_thread_dataset,
  set_thread_channel, apply_wifi_config, set_wifi_channel,
}

-- A request to one of the four handlers.
pub data Request : Type 0 where
  thread_dataset : ThreadDatasetRequest → Request
  thread_channel : ThreadChannelRequest → Request
  wifi_config : WifiConfigRequest → Request
  wifi_channel : WifiChannelRequest → Request

unfoldable pub validate : Request → Check
validate (thread_dataset r) = validate_thread_dataset r
validate (thread_channel r) = validate_thread_channel r
validate (wifi_config r) = validate_wifi_config r
validate (wifi_channel r) = validate_wifi_channel r

unfoldable pub change : Request → ℕ → RadioMapSnapshot → RadioMapSnapshot
change (thread_dataset r) now map = update_thread_dataset map r now
change (thread_channel r) now map = update_thread_channel map r now
change (wifi_config r) now map = update_wifi_config map r now
change (wifi_channel r) now map = update_wifi_channel map r now

-- A request with the time it is handled at and what the bus answers.
pub record Call : Type 0 where
  pub request : Request
  pub now : ℕ
  pub answer : Result Text (Unit {0})

-- What a request comes to, by its check, by the encoding of its event and by the answer of the bus:
-- it is accepted just if all three succeed; the map changes just then; and a request that fails its
-- check leaves everything as it was.
abbrev pub Outcome :
    Check
    → Result Text (List ℕ)
    → Result Text (Unit {0})
    → AppState
    → (RadioMapSnapshot → RadioMapSnapshot)
    → Response
    → Type 0
Outcome check encoded answer state change r =
    ((is_ok r.1 ≡ true) ↔ ((check ≡ fine) × (is_ok encoded ≡ true) × (is_ok answer ≡ true)))
    × (r.0.radio_map ≡ (if is_ok r.1 then change state.radio_map else state.radio_map))
    × ((e : ApiError) → check ≡ err e → r ≡ (state, err e))

outcome_lem :
    (check : Check) (state : AppState) (change : RadioMapSnapshot → RadioMapSnapshot)
    (subject message : Text) (encoded : Result Text (List ℕ)) (answer : Result Text (Unit {0}))
    → Outcome check encoded answer state change
        (checked state check (finish change message (publish_bytes state subject encoded answer)))
outcome_lem (err e) state change subject message encoded answer =
    ((λ h. absurd cc, λ h. absurd cc), refl, λ f h. ap (λ c. checked state c (state, err f)) h)
outcome_lem (ok x) state change subject message (err e) answer =
    ((λ h. absurd cc, λ h. absurd cc), refl, λ f h. absurd cc)
outcome_lem (ok x) state change subject message (ok bytes) (err e) =
    ((λ h. absurd cc, λ h. absurd cc), refl, λ f h. absurd cc)
outcome_lem (ok x) state change subject message (ok bytes) (ok y) =
    ((λ h. (refl, refl, refl), λ h. refl), refl, λ f h. absurd cc)

module _ (wire : Wire) where
  open wire use {Value, to_vec}

  pub event : Request → Value
  event (thread_dataset r) = dataset_event wire r
  event (thread_channel r) = thread_channel_event wire r
  event (wifi_config r) = wifi_config_event wire r
  event (wifi_channel r) = wifi_channel_event wire r

  respond : AppState → Request → ℕ → Result Text (Unit {0}) → Response
  respond state (thread_dataset r) = apply_thread_dataset wire state r
  respond state (thread_channel r) = set_thread_channel wire state r
  respond state (wifi_config r) = apply_wifi_config wire state r
  respond state (wifi_channel r) = set_wifi_channel wire state r

  respond_lem :
      (state : AppState) (request : Request) (now : ℕ) (answer : Result Text (Unit {0}))
      → Outcome
          (validate request)
          (to_vec (event request))
          answer
          state
          (change request now)
          (respond state request now answer)
  unfolding validate event change respond apply_thread_dataset set_thread_channel apply_wifi_config
      set_wifi_channel publish_event
  respond_lem state (thread_dataset r) now answer =
      outcome_lem (validate_thread_dataset r) state (λ map. update_thread_dataset map r now)
        (codes "radio.thread.dataset.set") (codes "thread dataset accepted")
        (to_vec (dataset_event wire r)) answer
  respond_lem state (thread_channel r) now answer =
      outcome_lem (validate_thread_channel r) state (λ map. update_thread_channel map r now)
        (codes "radio.thread.channel.set") (codes "thread channel update accepted")
        (to_vec (thread_channel_event wire r)) answer
  respond_lem state (wifi_config r) now answer =
      outcome_lem (validate_wifi_config r) state (λ map. update_wifi_config map r now)
        (codes "radio.wifi.config.set") (codes "wifi configuration accepted")
        (to_vec (wifi_config_event wire r)) answer
  respond_lem state (wifi_channel r) now answer =
      outcome_lem (validate_wifi_channel r) state (λ map. update_wifi_channel map r now)
        (codes "radio.wifi.channel.set") (codes "wifi channel update accepted")
        (to_vec (wifi_channel_event wire r)) answer

  -- The router: each request to its handler.
  pub handle : AppState → Call → Response
  unfolding respond
  handle state call = respond state call.request call.now call.answer

  -- Requests that come in one after the other.
  unfoldable pub run : AppState → List Call → AppState
  run state [] = state
  run state (call ∷ calls) = run (handle state call).0 calls

  -- A request is accepted just if it passes its check, its event can be encoded and the bus takes it.
  -- The radio map changes, as the request says, just if it is accepted. A request that fails its
  -- check is answered with that failure, and nothing is published, counted or changed.
  pub handle_lem :
      (state : AppState) (call : Call)
      → Outcome
          (validate call.request)
          (to_vec (event call.request))
          call.answer
          state
          (change call.request call.now)
          (handle state call)
  unfolding handle
  handle_lem state call = respond_lem state call.request call.now call.answer
