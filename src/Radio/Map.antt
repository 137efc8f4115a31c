-- ===== src/Radio/Map.antt =====
-- services/radio-coord/src/main.rs: the radio map, and how the requests change it.
use lokan_os.Prelude.{ℕ, Option, none, some}
use lokan_os.Prelude.Text.{Text}
use lokan_os.Radio.Requests.{
  ThreadDatasetRequest, ThreadChannelRequest, WifiConfigRequest, WifiChannelRequest, as_str,
}

pub record ThreadDatasetSnapshot : Type 0 where
  pub dataset_id : Text
  pub network_name : Text
  pub channel : ℕ
  pub pan_id : Text
  pub xpan_id : Option Text
  pub updated_at : ℕ

pub record ThreadChannelSnapshot : Type 0 where
  pub channel : ℕ
  pub dataset_id : Option Text
  pub updated_at : ℕ

pub record ThreadSnapshot : Type 0 where
  pub dataset : Option ThreadDatasetSnapshot
  pub channel : Option ThreadChannelSnapshot

pub record WifiConfigSnapshot : Type 0 where
  pub ssid : Text
  pub security : Text
  pub band : Option Text
  pub channel : Option ℕ
  pub updated_at : ℕ

pub record WifiChannelSnapshot : Type 0 where
  pub channel : ℕ
  pub band : Option Text
  pub updated_at : ℕ

pub record WifiSnapshot : Type 0 where
  pub config : Option WifiConfigSnapshot
  pub channel : Option WifiChannelSnapshot

pub record RadioMapSnapshot : Type 0 where
  pub thread : ThreadSnapshot
  pub wifi : WifiSnapshot

-- RadioMapSnapshot::default
abbrev pub default_map : RadioMapSnapshot
default_map = record {
  thread = record { dataset = none; channel = none };
  wifi = record { config = none; channel = none };
}

-- AppState::update_thread_dataset
unfoldable pub update_thread_dataset :
    RadioMapSnapshot → ThreadDatasetRequest → ℕ → RadioMapSnapshot
update_thread_dataset map request now = record {
  thread = record {
    dataset = some (record {
      dataset_id = request.dataset_id;
      network_name = request.network_name;
      channel = request.channel;
      pan_id = request.pan_id;
      xpan_id = request.xpan_id;
      updated_at = now;
    });
    channel = some (record {
      channel = request.channel;
      dataset_id = some request.dataset_id;
      updated_at = now;
    });
  };
  wifi = map.wifi;
}

-- `if let Some(dataset) = map.thread.dataset.as_mut() { … }`
abbrev pub move_dataset : Option ThreadDatasetSnapshot → ℕ → ℕ → Option ThreadDatasetSnapshot
move_dataset none channel now = none
move_dataset (some dataset) channel now = some (record {
  dataset_id = dataset.dataset_id;
  network_name = dataset.network_name;
  channel = channel;
  pan_id = dataset.pan_id;
  xpan_id = dataset.xpan_id;
  updated_at = now;
})

-- AppState::update_thread_channel
unfoldable pub update_thread_channel :
    RadioMapSnapshot → ThreadChannelRequest → ℕ → RadioMapSnapshot
update_thread_channel map request now = record {
  thread = record {
    dataset = move_dataset map.thread.dataset request.channel now;
    channel =
        some
          (record { channel = request.channel; dataset_id = request.dataset_id; updated_at = now });
  };
  wifi = map.wifi;
}

-- `if let Some(channel) = request.channel { … }`
abbrev pub move_wifi :
    Option ℕ → Option Text → Option WifiChannelSnapshot → ℕ → Option WifiChannelSnapshot
move_wifi none band old now = old
move_wifi (some channel) band old now =
    some (record { channel = channel; band = band; updated_at = now })

-- AppState::update_wifi_config
unfoldable pub update_wifi_config : RadioMapSnapshot → WifiConfigRequest → ℕ → RadioMapSnapshot
update_wifi_config map request now = record {
  thread = map.thread;
  wifi = record {
    config = some (record {
      ssid = request.ssid;
      security = as_str request.security;
      band = request.band;
      channel = request.channel;
      updated_at = now;
    });
    channel = move_wifi request.channel request.band map.wifi.channel now;
  };
}

-- AppState::update_wifi_channel
unfoldable pub update_wifi_channel : RadioMapSnapshot → WifiChannelRequest → ℕ → RadioMapSnapshot
update_wifi_channel map request now = record {
  thread = map.thread;
  wifi = record {
    config = map.wifi.config;
    channel = some (record { channel = request.channel; band = request.band; updated_at = now });
  };
}
