-- ===== src/Radio/Tests.antt =====
-- services/radio-coord: runs of the handlers, on a bus that takes every message.
use lokan_os.Prelude.{ℕ, ◌≡◌, ◌↔◌, refl, true, Option, none, some, [], ◌∷◌}
use lokan_os.Prelude.Text.{codes}
use lokan_os.Prelude.Result.{ok}
use lokan_os.Radio.Requests.{ThreadDatasetRequest, open_network, fine, validate_thread_dataset}
use lokan_os.Radio.Requests.Checks.{IsDataset, validate_thread_dataset_iff}
use lokan_os.Prelude.Wire.{Wire}
use lokan_os.Radio.Handlers.{new}
use lokan_os.Radio.Handlers.Service.{
  thread_dataset, thread_channel, wifi_config, validate, change, Call, Outcome, event, handle, run,
  handle_lem,
}
use lokan_os.Radio.Handlers.Coherent.{IsCoherent, is_known, run-IsCoherent}

-- Values without contents, which are encoded as no bytes.
abbrev blank : Wire
blank = record {
  Value = ℕ;
  null = 0;
  text = λ t. 0;
  number = λ n. 0;
  object = λ fields. 0;
  to_vec = λ v. ok [];
}

abbrev home : ThreadDatasetRequest
home = record {
  dataset_id = codes "00112233445566778899aabbccddeeff";
  network_name = codes "Home";
  channel = 15;
  pan_id = codes "face";
  xpan_id = none;
  master_key = none;
  pskc = none;
}

abbrev set_home : Call
set_home = record { request = thread_dataset home; now = 7; answer = ok tt }

abbrev too_high : Call
too_high = record {
  request = thread_channel (record { channel = 40; dataset_id = none });
  now = 8;
  answer = ok tt;
}

home_passes : validate_thread_dataset home ≡ fine
unfolding validate_thread_dataset
home_passes = refl

validate_thread_dataset_iff_example : (validate_thread_dataset home ≡ fine) ↔ IsDataset home
validate_thread_dataset_iff_example = validate_thread_dataset_iff home

handle_lem_example :
    Outcome
      (validate too_high.request)
      (blank.to_vec (event blank too_high.request))
      too_high.answer
      new
      (change too_high.request too_high.now)
      (handle blank new too_high)
handle_lem_example = handle_lem blank new too_high

abbrev set_wifi : Option ℕ → Call
set_wifi channel = record {
  request = wifi_config (record {
    ssid = codes "home";
    passphrase = none;
    security = open_network;
    band = none;
    channel = channel;
  });
  now = 9;
  answer = ok tt;
}

run-IsCoherent_example :
    let before = run blank new (set_home ∷ set_wifi (some 6) ∷ []) in
    IsCoherent before.radio_map
    × (is_known before.radio_map.wifi.channel ≡ true
        → is_known (run blank before (set_wifi none ∷ too_high ∷ [])).radio_map.wifi.channel ≡ true)
run-IsCoherent_example =
    run-IsCoherent blank (set_home ∷ set_wifi (some 6) ∷ []) (set_wifi none ∷ too_high ∷ [])
