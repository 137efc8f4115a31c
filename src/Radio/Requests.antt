-- ===== src/Radio/Requests.antt =====
-- services/radio-coord/src/main.rs: the requests, and the checks on them. Texts are lists of code
-- points; a channel is a u8, which the decoder of the request body ensures.
pub mod Checks
use lokan_os.Prelude.{
  ℕ, Bool, true, false, ◌&&◌, ◌||◌, not, Option, none, some, List, ◌++◌, map, any, all, ltb, ◌==◌,
  if◌then◌else◌,
}
use lokan_os.Prelude.Text.{
  Text, codes, codes_eq, byte_len, in_range, is_ascii_hexdigit, is_ascii_graphic,
  to_ascii_lowercase,
}
use lokan_os.Prelude.Digits.{decimal}
use lokan_os.Prelude.Result.{Result, ok, err, ◌>>◌, ◌>>=◌}

pub record ThreadDatasetRequest : Type 0 where
  pub dataset_id : Text
  pub network_name : Text
  pub channel : ℕ
  pub pan_id : Text
  pub xpan_id : Option Text
  pub master_key : Option Text
  pub pskc : Option Text

pub record ThreadChannelRequest : Type 0 where
  pub channel : ℕ
  pub dataset_id : Option Text

pub data WifiSecurity : Type 0 where
  open_network wpa2 wpa3 : WifiSecurity

-- WifiSecurity::as_str
abbrev pub as_str : WifiSecurity → Text
as_str open_network = codes "open"
as_str wpa2 = codes "wpa2"
as_str wpa3 = codes "wpa3"

pub record WifiConfigRequest : Type 0 where
  pub ssid : Text
  pub passphrase : Option Text
  pub security : WifiSecurity
  pub band : Option Text
  pub channel : Option ℕ

pub record WifiChannelRequest : Type 0 where
  pub channel : ℕ
  pub band : Option Text

pub data ApiError : Type 0 where
  validation : Text → ApiError
  bus : Text → ApiError

-- `ApiError::into_response`: the status and the code of the body
unfoldable pub into_response : ApiError → ℕ × Text × Text
into_response (validation message) = (400, codes "validation_error", message)
into_response (bus message) = (503, codes "bus_error", message)

abbrev pub Check : Type 0
Check = Result ApiError (Unit {0})

abbrev pub fine : Check
fine = ok tt

abbrev refuse : Text → Check
refuse message = err (validation message)

unfoldable pub ensure_thread_channel : ℕ → Check
ensure_thread_channel channel =
    if in_range 11 26 channel
    then fine
    else refuse (codes "thread channel " ++ decimal channel ++ codes " is outside the 11-26 range")

unfoldable pub ensure_wifi_channel : ℕ → Check
ensure_wifi_channel channel =
    if in_range 1 165 channel
    then fine
    else refuse (codes "wifi channel " ++ decimal channel ++ codes " is outside the 1-165 range")

unfoldable pub ensure_band : Text → Check
ensure_band band =
    let normalized = map to_ascii_lowercase band in
    if codes_eq normalized (codes "2.4ghz")
      || codes_eq normalized (codes "5ghz")
      || codes_eq normalized (codes "6ghz")
      || codes_eq normalized (codes "dual")
    then fine
    else refuse
        (codes "unsupported band '" ++ band ++ codes "'; expected 2.4GHz, 5GHz, 6GHz, or dual")

unfoldable pub ensure_hex : Text → ℕ → Text → Check
ensure_hex value expected_len field =
    if not (byte_len value == expected_len)
    then refuse
        (field ++ codes " must be " ++ decimal expected_len ++ codes " hexadecimal characters")
    else if all is_ascii_hexdigit value
    then fine
    else refuse (field ++ codes " must contain only hexadecimal characters")

unfoldable pub ensure_name : Text → ℕ → ℕ → Text → Check
ensure_name value min max field =
    if ltb (byte_len value) min || ltb max (byte_len value)
    then refuse (
        field
        ++ codes " must be between "
        ++ decimal min
        ++ codes " and "
        ++ decimal max
        ++ codes " characters")
    else if all (λ c. is_ascii_graphic c || c == b' ') value
    then fine
    else refuse (field ++ codes " must contain printable ASCII characters")

-- `if let Some(value) = … { check(value)?; }`
abbrev pub if_some : {A : Type 0} → Option A → (A → Check) → Check
if_some none check = fine
if_some (some value) check = check value

unfoldable pub validate_thread_dataset : ThreadDatasetRequest → Check
unfolding ensure_hex ensure_name ensure_thread_channel
validate_thread_dataset request =
    ensure_hex request.dataset_id 32 (codes "datasetId")
    >> ensure_name request.network_name 1 16 (codes "networkName")
    >> ensure_thread_channel request.channel
    >> ensure_hex request.pan_id 4 (codes "panId")
    >> if_some request.xpan_id (λ xpan_id. ensure_hex xpan_id 16 (codes "xpanId"))
    >> if_some request.master_key (λ master_key. ensure_hex master_key 32 (codes "masterKey"))
    >> if_some request.pskc (λ pskc. ensure_hex pskc 32 (codes "pskc"))

unfoldable pub validate_thread_channel : ThreadChannelRequest → Check
unfolding ensure_hex ensure_thread_channel
validate_thread_channel request =
    ensure_thread_channel request.channel
    >> if_some request.dataset_id (λ dataset_id. ensure_hex dataset_id 32 (codes "datasetId"))

abbrev check_passphrase : Option Text → Check
check_passphrase none = refuse (codes "passphrase is required for secured networks")
check_passphrase (some passphrase) =
    if ltb (byte_len passphrase) 8 || ltb 63 (byte_len passphrase)
    then refuse (codes "passphrase must be between 8 and 63 characters")
    else fine

-- `if matches!(request.security, …) { … }`
abbrev pub check_security : WifiSecurity → Option Text → Check
check_security open_network passphrase = fine
check_security _ passphrase = check_passphrase passphrase

unfoldable pub validate_wifi_config : WifiConfigRequest → Check
unfolding ensure_name ensure_band ensure_wifi_channel
validate_wifi_config request =
    ensure_name request.ssid 1 32 (codes "ssid")
    >> check_security request.security request.passphrase
    >> if_some request.band ensure_band
    >> if_some request.channel ensure_wifi_channel

unfoldable pub validate_wifi_channel : WifiChannelRequest → Check
unfolding ensure_band ensure_wifi_channel
validate_wifi_channel request =
    ensure_wifi_channel request.channel >> if_some request.band ensure_band
