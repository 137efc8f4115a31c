-- ===== src/Radio/Requests/Checks.antt =====
-- services/radio-coord/src/main.rs: what the checks on a request accept.
use lokan_os.Prelude.{
  ℕ, ◌≤◌, ◌≡◌, ◌↔◌, refl, true, ◌||◌, Option, none, some, [], ◌∷◌, length, all, ◌==◌, arith,
}
use lokan_os.Prelude.Text.{Text, codes, byte_len, is_ascii_hexdigit, is_ascii_graphic, in_range}
use lokan_os.Prelude.Result.{ok, err, ◌>>◌}
use lokan_os.Radio.Requests.{
  ThreadDatasetRequest, ApiError, Check, fine, if_some, ensure_hex, ensure_name,
  ensure_thread_channel, ensure_wifi_channel, validate_thread_dataset,
}

-- A text of ASCII characters has as many bytes as characters.
byte_len_hex : (value : Text) → all is_ascii_hexdigit value ≡ true → byte_len value ≡ length value
byte_len_hex [] h = refl
byte_len_hex (c ∷ value) h = ground (arith, byte_len_hex value)

-- Exactly this many hexadecimal digits.
abbrev pub IsHex : ℕ → Text → Type 0
IsHex n value = (length value ≡ n) × (all is_ascii_hexdigit value ≡ true)

ensure_hex_iff :
    (value : Text) (n : ℕ) (field : Text) → (ensure_hex value n field ≡ fine) ↔ IsHex n value
unfolding ensure_hex
ensure_hex_iff value n field = ground (arith, byte_len_hex value)

-- This many printable ASCII characters.
abbrev pub IsName : ℕ → ℕ → Text → Type 0
IsName min max value =
    (min ≤ length value) × (length value ≤ max) × (all (in_range 32 126) value ≡ true)

byte_len_name : (value : Text) → all (in_range 32 126) value ≡ true → byte_len value ≡ length value
byte_len_name [] h = refl
byte_len_name (c ∷ value) h = ground (arith, byte_len_name value)

printable_same :
    (value : Text) → all (λ c. is_ascii_graphic c || c == b' ') value ≡ all (in_range 32 126) value
printable_same [] = refl
printable_same (c ∷ value) = ground (arith, printable_same value)

ensure_name_iff :
    (value : Text) (min max : ℕ) (field : Text)
    → (ensure_name value min max field ≡ fine) ↔ IsName min max value
unfolding ensure_name
ensure_name_iff value min max field = rw printable_same (ground (arith, byte_len_name value))

pub ensure_thread_channel_iff :
    (channel : ℕ) → (ensure_thread_channel channel ≡ fine) ↔ ((11 ≤ channel) × (channel ≤ 26))
unfolding ensure_thread_channel
ensure_thread_channel_iff channel = ground arith

pub ensure_wifi_channel_iff :
    (channel : ℕ) → (ensure_wifi_channel channel ≡ fine) ↔ ((1 ≤ channel) × (channel ≤ 165))
unfolding ensure_wifi_channel
ensure_wifi_channel_iff channel = ground arith

abbrev pub IfSome : {A : Type 0} → (A → Type 0) → Option A → Type 0
IfSome P none = Unit
IfSome P (some x) = P x

pub if_some_iff :
    {A : Type 0} (P : A → Type 0) (o : Option A) (check : A → Check)
    → ((x : A) → (check x ≡ fine) ↔ P x)
    → (if_some o check ≡ fine) ↔ IfSome P o
if_some_iff P none check h = (λ e. tt, λ e. refl)
if_some_iff P (some x) check h = h x

err≢fine : (e : ApiError) → Path Check (err e) fine → ⊥
err≢fine e h = cc

pub >>-iff :
    {P Q : Type 0} (m k : Check) → (m ≡ fine) ↔ P → (k ≡ fine) ↔ Q → ((m >> k) ≡ fine) ↔ (P × Q)
>>-iff (ok x) k hm hk = (λ e. (hm.0 refl, hk.0 e), λ h. hk.1 h.1)
>>-iff (err e) k hm hk = (λ f. (hm.0 f, hk.0 (absurd (err≢fine e f))), λ h. hm.1 h.0)

-- What a request for a dataset has to be.
abbrev pub IsDataset : ThreadDatasetRequest → Type 0
IsDataset request =
    IsHex 32 request.dataset_id
    × IsName 1 16 request.network_name
    × ((11 ≤ request.channel) × (request.channel ≤ 26))
    × IsHex 4 request.pan_id
    × IfSome (IsHex 16) request.xpan_id
    × IfSome (IsHex 32) request.master_key
    × IfSome (IsHex 32) request.pskc

-- A request for a Thread dataset passes the checks just if its identifiers and keys are hexadecimal
-- texts of their exact lengths in characters, its name has 1 to 16 printable ASCII characters, and
-- its channel is one of 11 to 26.
pub validate_thread_dataset_iff :
    (request : ThreadDatasetRequest) → (validate_thread_dataset request ≡ fine) ↔ IsDataset request
unfolding validate_thread_dataset
validate_thread_dataset_iff request =
    let hex = λ (n : ℕ) (field value : Text). ensure_hex_iff value n field in
    let checks =
      >>-iff _ _
        (>>-iff _ _
          (>>-iff _ _
            (>>-iff _ _
              (>>-iff _ _
                (>>-iff _ _ (hex 32 (codes "datasetId") request.dataset_id)
                  (ensure_name_iff request.network_name 1 16 (codes "networkName")))
                (ensure_thread_channel_iff request.channel))
              (hex 4 (codes "panId") request.pan_id))
            (if_some_iff (IsHex 16) request.xpan_id _ (hex 16 (codes "xpanId"))))
          (if_some_iff (IsHex 32) request.master_key _ (hex 32 (codes "masterKey"))))
        (if_some_iff (IsHex 32) request.pskc _ (hex 32 (codes "pskc"))) in
    (
      λ e.
          let ((((((id, name), channel), pan), xpan), key), pskc) = checks.0 e in
          (id, name, channel, pan, xpan, key, pskc),
      λ h. checks.1 ((((((h.0, h.1), h.2), h.3), h.4), h.5), h.6),
    )
