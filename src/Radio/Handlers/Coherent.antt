-- ===== src/Radio/Handlers/Coherent.antt =====
-- services/radio-coord/src/main.rs: what holds of the radio map whatever is asked of the service.
use lokan_os.Prelude.{
  ℕ, ◌≤◌, ◌≡◌, refl, sym, subst, if-cases, Bool, true, false, Option, none, some, List, [], ◌∷◌,
}
use lokan_os.Prelude.Result.{ok, err, is_ok, ◌>>◌}
use lokan_os.Radio.Requests.{
  ThreadDatasetRequest, ThreadChannelRequest, WifiConfigRequest, WifiChannelRequest, Check, fine,
  ensure_wifi_channel, validate_thread_dataset, validate_thread_channel, validate_wifi_config,
  validate_wifi_channel,
}
use lokan_os.Radio.Requests.Checks.{
  IfSome, if_some_iff, ensure_thread_channel_iff, ensure_wifi_channel_iff,
  validate_thread_dataset_iff,
}
use lokan_os.Radio.Map.{
  RadioMapSnapshot, ThreadDatasetSnapshot, WifiChannelSnapshot, ThreadSnapshot,
  ThreadChannelSnapshot, move_dataset, move_wifi, update_thread_dataset, update_thread_channel,
  update_wifi_config, update_wifi_channel,
}
use lokan_os.Radio.Handlers.Service.{
  Request, thread_dataset, thread_channel, wifi_config, wifi_channel, validate, change, Call,
  handle, run, handle_lem,
}
use lokan_os.Prelude.Wire.{Wire}
use lokan_os.Radio.Handlers.{AppState, new}

abbrev IsThreadChannel : ℕ → Type 0
IsThreadChannel n = (11 ≤ n) × (n ≤ 26)

abbrev IsWifiChannel : ℕ → Type 0
IsWifiChannel n = (1 ≤ n) × (n ≤ 165)

-- The dataset is on the channel that Thread is on, which is one of its channels.
abbrev IsThread : Option ThreadDatasetSnapshot → Option ThreadChannelSnapshot → Type 0
IsThread none none = Unit
IsThread none (some c) = IsThreadChannel c.channel
IsThread (some d) none = ⊥
IsThread (some d) (some c) = IsThreadChannel c.channel × (d.channel ≡ c.channel)

abbrev pub is_known : Option WifiChannelSnapshot → Bool
is_known none = false
is_known (some c) = true

-- What holds of the radio map. Once a configuration with a channel is there, some channel is known.
pub record IsCoherent (map : RadioMapSnapshot) : Type 0 where
  pub thread : IsThread map.thread.dataset map.thread.channel
  pub channel : IfSome (λ c. IsWifiChannel c.channel) map.wifi.channel
  pub config :
      IfSome
        (λ c. IfSome (λ n. IsWifiChannel n × (is_known map.wifi.channel ≡ true)) c.channel)
        map.wifi.config

update_thread_dataset-IsCoherent :
    (map : RadioMapSnapshot) (r : ThreadDatasetRequest) (now : ℕ)
    → validate_thread_dataset r ≡ fine
    → IsCoherent map
    → IsCoherent (update_thread_dataset map r now)
unfolding update_thread_dataset
update_thread_dataset-IsCoherent map r now h c = record {
  thread = (((validate_thread_dataset_iff r).0 h).2, refl);
  channel = c.channel;
  config = c.config;
}

move_dataset-IsThread :
    (d : Option ThreadDatasetSnapshot) (r : ThreadChannelRequest) (now : ℕ)
    → IsThreadChannel r.channel
    → IsThread
        (move_dataset d r.channel now)
        (some (record { channel = r.channel; dataset_id = r.dataset_id; updated_at = now }))
move_dataset-IsThread none r now h = h
move_dataset-IsThread (some d) r now h = (h, refl)

-- The first of two checks.
first_fine : (m k : Check) → (m >> k) ≡ fine → m ≡ fine
first_fine (ok x) k h = refl
first_fine (err e) k h = h

second_fine : (m k : Check) → (m >> k) ≡ fine → k ≡ fine
second_fine (ok x) k h = h
second_fine (err e) k h = cc

update_thread_channel-IsCoherent :
    (map : RadioMapSnapshot) (r : ThreadChannelRequest) (now : ℕ)
    → validate_thread_channel r ≡ fine
    → IsCoherent map
    → IsCoherent (update_thread_channel map r now)
unfolding update_thread_channel validate_thread_channel
update_thread_channel-IsCoherent map r now h c = record {
  thread =
      move_dataset-IsThread map.thread.dataset r now
        ((ensure_thread_channel_iff r.channel).0 (first_fine _ _ h));
  channel = c.channel;
  config = c.config;
}

move_wifi-IsCoherent :
    (thread : ThreadSnapshot) (old : Option WifiChannelSnapshot) (r : WifiConfigRequest) (now : ℕ)
    (channel : Option ℕ)
    → IfSome IsWifiChannel channel
    → IfSome (λ c. IsWifiChannel c.channel) old
    → IfSome (λ c. IsWifiChannel c.channel) (move_wifi channel r.band old now)
      × IfSome (λ n. IsWifiChannel n × (is_known (move_wifi channel r.band old now) ≡ true)) channel
move_wifi-IsCoherent thread old r now none h k = (k, tt)
move_wifi-IsCoherent thread old r now (some n) h k = (h, (h, refl))

move_wifi-is_known :
    (channel : Option ℕ) (band : _) (old : Option WifiChannelSnapshot) (now : ℕ)
    → is_known old ≡ true
    → is_known (move_wifi channel band old now) ≡ true
move_wifi-is_known none band old now h = h
move_wifi-is_known (some n) band old now h = refl

update_wifi_config-IsCoherent :
    (map : RadioMapSnapshot) (r : WifiConfigRequest) (now : ℕ)
    → validate_wifi_config r ≡ fine
    → IsCoherent map
    → IsCoherent (update_wifi_config map r now)
unfolding update_wifi_config validate_wifi_config
update_wifi_config-IsCoherent map r now h c =
    let valid =
      (if_some_iff IsWifiChannel r.channel ensure_wifi_channel ensure_wifi_channel_iff).0
        (second_fine _ _ h) in
    let (channel, config) =
      move_wifi-IsCoherent map.thread map.wifi.channel r now r.channel valid c.channel in
    record { thread = c.thread; channel = channel; config = config }

IfSome-map :
    {A : Type 0} (P Q : A → Type 0) (o : Option A) → ((x : A) → P x → Q x) → IfSome P o → IfSome Q o
IfSome-map P Q none f h = tt
IfSome-map P Q (some x) f h = f x h

update_wifi_channel-IsCoherent :
    (map : RadioMapSnapshot) (r : WifiChannelRequest) (now : ℕ)
    → validate_wifi_channel r ≡ fine
    → IsCoherent map
    → IsCoherent (update_wifi_channel map r now)
unfolding update_wifi_channel validate_wifi_channel
update_wifi_channel-IsCoherent map r now h c =
    let valid = (ensure_wifi_channel_iff r.channel).0 (first_fine _ _ h) in
    let config =
      IfSome-map _ _ map.wifi.config
        (λ cfg.
          IfSome-map (λ n. IsWifiChannel n × (is_known map.wifi.channel ≡ true)) _ cfg.channel
            (λ n k. (k.0, refl)))
        c.config in
    record { thread = c.thread; channel = valid; config = config }

change-IsCoherent :
    (request : Request) (map : RadioMapSnapshot) (now : ℕ)
    → validate request ≡ fine
    → IsCoherent map
    → IsCoherent (change request now map)
unfolding validate change
change-IsCoherent (thread_dataset r) map now h c = update_thread_dataset-IsCoherent map r now h c
change-IsCoherent (thread_channel r) map now h c = update_thread_channel-IsCoherent map r now h c
change-IsCoherent (wifi_config r) map now h c = update_wifi_config-IsCoherent map r now h c
change-IsCoherent (wifi_channel r) map now h c = update_wifi_channel-IsCoherent map r now h c

module _ (wire : Wire) where
  handle-IsCoherent :
      (state : AppState) (call : Call)
      → IsCoherent state.radio_map
      → IsCoherent (handle wire state call).0.radio_map
  handle-IsCoherent state call c =
      let (answered, changed, unsent) = handle_lem wire state call in
      subst IsCoherent (sym changed) (
        if-cases IsCoherent (is_ok (handle wire state call).1) _ _
          (λ a. change-IsCoherent call.request state.radio_map call.now (answered.0 a).0 c)
          (λ _. c))

  run_keeps :
      (state : AppState) (calls : List Call)
      → IsCoherent state.radio_map
      → IsCoherent (run wire state calls).radio_map
  unfolding run
  run_keeps state [] c = c
  run_keeps state (call ∷ calls) c =
      run_keeps (handle wire state call).0 calls (handle-IsCoherent state call c)

  -- A WiFi channel that is known stays known.
  change-is_known :
      (request : Request) (map : RadioMapSnapshot) (now : ℕ)
      → is_known map.wifi.channel ≡ true
      → is_known (change request now map).wifi.channel ≡ true
  unfolding change update_thread_dataset update_thread_channel update_wifi_config
      update_wifi_channel
  change-is_known (thread_dataset r) map now h = h
  change-is_known (thread_channel r) map now h = h
  change-is_known (wifi_config r) map now h =
      move_wifi-is_known r.channel r.band map.wifi.channel now h
  change-is_known (wifi_channel r) map now h = refl

  handle-is_known :
      (state : AppState) (call : Call)
      → is_known state.radio_map.wifi.channel ≡ true
      → is_known (handle wire state call).0.radio_map.wifi.channel ≡ true
  handle-is_known state call h =
      let (answered, changed, unsent) = handle_lem wire state call in
      subst (λ (m : RadioMapSnapshot). is_known m.wifi.channel ≡ true) (sym changed)
        (if-cases (λ (m : RadioMapSnapshot). is_known m.wifi.channel ≡ true)
          (is_ok (handle wire state call).1) _ _
          (λ _. change-is_known call.request state.radio_map call.now h) (λ _. h))

  run-is_known :
      (state : AppState) (calls : List Call)
      → is_known state.radio_map.wifi.channel ≡ true
      → is_known (run wire state calls).radio_map.wifi.channel ≡ true
  unfolding run
  run-is_known state [] h = h
  run-is_known state (call ∷ calls) h =
      run-is_known (handle wire state call).0 calls (handle-is_known state call h)

  -- Whatever requests come in, one after another in any order, and whatever the bus answers: the
  -- dataset in the radio map is on the channel that Thread is on, which is one of 11 to 26; the WiFi
  -- channel is one of 1 to 165; while the WiFi configuration of the map has a channel, it is one of
  -- these, and some WiFi channel is known; and once a WiFi channel is known, one is known whatever
  -- requests come after.
  pub run-IsCoherent :
      (calls more : List Call)
      → IsCoherent (run wire new calls).radio_map
        × (is_known (run wire new calls).radio_map.wifi.channel ≡ true
            → is_known (run wire (run wire new calls) more).radio_map.wifi.channel ≡ true)
  unfolding new
  run-IsCoherent calls more = (
    run_keeps new calls (record { thread = tt; channel = tt; config = tt }),
    run-is_known (run wire new calls) more,
  )
