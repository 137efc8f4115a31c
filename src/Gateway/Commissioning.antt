-- ===== src/Gateway/Commissioning.antt =====
-- services/api-gateway/src/commissioning.rs: how a device is taken in. Base64, serde_json, the bus
-- and what is drawn at random are parameters; the answer of the bus is an argument. The state notes
-- the calls of `msgbus_publish_total().inc` and what the bus was handed.
pub mod Sessions
use lokan_os.Prelude.{
  ℕ, ◌+◌, Bool, true, false, ◌&&◌, ◌||◌, not, ◌==◌, ltb, Option, none, some, List, [], ◌∷◌, ◌++◌,
  all, length, take, if◌then◌else◌,
}
use lokan_os.Prelude.Text.{Text, codes, byte_len, is_ascii_alphanumeric}
use lokan_os.Prelude.Wire.{Wire}
use lokan_os.Prelude.Result.{Result, ok, err, ◌>>◌, ◌>>=◌}
use lokan_os.Gateway.Errors.{ApiError, validation}

abbrev pub Check : Type 0
Check = Result ApiError (Unit {0})

abbrev pub fine : Check
fine = ok tt

abbrev refuse : Text → Check
refuse message = err (validation message)

abbrev starts_with : Text → Text → Bool
starts_with s [] = true
starts_with [] (c ∷ prefix) = false
starts_with (d ∷ s) (c ∷ prefix) = d == c && starts_with s prefix

abbrev is_empty : {A : Type 0} → List A → Bool
is_empty [] = true
is_empty (c ∷ s) = false

unfoldable pub validate_qr : Text → Check
validate_qr qr =
    if is_empty qr
    then refuse (codes "qrPayload cannot be empty")
    else if starts_with qr (codes "LOKAN:")
    then fine
    else refuse (codes "qrPayload must begin with the LOKAN: prefix")

-- What an id or a nonce may have.
abbrev pub is_id_char : ℕ → Bool
is_id_char c = is_ascii_alphanumeric c || c == b'-' || c == b'_'

unfoldable pub validate_device_id : Text → Check
validate_device_id device_id =
    if ltb (byte_len device_id) 4 || ltb 64 (byte_len device_id)
    then refuse (codes "deviceId must be between 4 and 64 characters")
    else if all is_id_char device_id
    then fine
    else refuse (codes "deviceId must be alphanumeric and may include '-' or '_'")

unfoldable pub validate_nonce : Text → Check
validate_nonce nonce =
    if ltb (byte_len nonce) 6 || ltb 128 (byte_len nonce)
    then refuse (codes "nonce must be between 6 and 128 characters")
    else if all is_id_char nonce
    then fine
    else refuse (codes "nonce must be alphanumeric and may include '-' or '_'")

abbrev pub if_some : Option Text → (Text → Check) → Check
if_some none check = fine
if_some (some value) check = check value

-- The bytes of a text in base64, or a failure with this message.
abbrev pub decoded : Option (List ℕ) → Text → Result ApiError (List ℕ)
decoded none message = err (validation message)
decoded (some bytes) message = ok bytes

pub record BusState : Type 0 where
  pub counted : List (List Text × ℕ)
  pub sent : List (Text × List ℕ)

-- publish_event once the event is encoded, or is not; the answer of the bus is only logged
abbrev pub publish_bytes : BusState → Text → Result Text (List ℕ) → BusState
publish_bytes state subject (err e) = state
publish_bytes state subject (ok bytes) = record {
  counted = state.counted ++ ((codes "api-gateway" ∷ subject ∷ []), 1) ∷ [];
  sent = state.sent ++ (subject, bytes) ∷ [];
}

pub record BleHandshakeResponse : Type 0 where
  pub session : Text
  pub shared_key : Text

pub record CsrResponse : Type 0 where
  pub certificate : Text
  pub ca_identifier : Option Text

pub record VerifyResponse : Type 0 where
  pub accepted : Bool
  pub reason : Option Text

-- `encode` and `decode` are those of base64.
pub record Base64 : Type 0 where
  pub encode : List ℕ → Text
  pub decode : Text → Option (List ℕ)

module _ (wire : Wire) (base64 : Base64) where
  open wire use {Value, null, text, number, object, to_vec}
  open base64 use {encode, decode}

  pub record BleHandshakeRequest : Type 0 where
    pub qr_payload : Text
    pub device_id : Text
    pub nonce : Text
    pub metadata : Option Value

  abbrev pub optional : {A : Type 0} → (A → Value) → Option A → Value
  optional f none = null
  optional f (some x) = f x

  -- The end of a handler: the event, and the answer.
  abbrev pub publish_and : {A : Type 0} → BusState → Text → Value → A → BusState × Result ApiError A
  publish_and state subject event answer = (publish_bytes state subject (to_vec event), ok answer)

  -- `?` in a handler
  abbrev pub after :
      {A B : Type 0}
      → BusState
      → Result ApiError A
      → (A → BusState × Result ApiError B)
      → BusState × Result ApiError B
  after state (err e) rest = (state, err e)
  after state (ok x) rest = rest x

  -- ble_handshake, with the session and the 32 bytes that are drawn
  unfoldable pub ble_handshake :
      BusState
      → BleHandshakeRequest
      → Text
      → List ℕ
      → BusState × Result ApiError BleHandshakeResponse
  unfolding validate_qr validate_device_id validate_nonce
  ble_handshake state request session secret =
      after state
        (validate_qr request.qr_payload
          >> validate_device_id request.device_id
          >> validate_nonce request.nonce)
        (λ _.
          publish_and state (codes "radio.commissioning.handshake")
            (object (
              (codes "type", text (codes "commissioning.handshake"))
              ∷ (codes "deviceId", text request.device_id)
              ∷ (codes "nonce", text request.nonce)
              ∷ (codes "session", text session)
              ∷ (codes "metadata", optional (λ v. v) request.metadata)
              ∷ []))
            (record { session = session; shared_key = encode secret }))

  -- The checks of submit_csr, which give the bytes of the request.
  unfoldable pub csr_bytes : Text → Text → Option Text → Result ApiError (List ℕ)
  unfolding validate_device_id validate_nonce
  csr_bytes device_id csr nonce = validate_device_id device_id >>= λ _.
      decoded (decode csr) (codes "csr must be valid base64 data") >>= λ bytes.
      (if is_empty bytes then refuse (codes "csr payload cannot be empty") else fine) >>= λ _.
      if_some nonce validate_nonce >>= λ _. ok bytes

  -- submit_csr; the device id is ASCII, so its bytes are its characters
  unfoldable pub submit_csr :
      BusState → Text → Text → Option Text → BusState × Result ApiError CsrResponse
  unfolding csr_bytes
  submit_csr state device_id csr nonce = after state (csr_bytes device_id csr nonce) (λ bytes.
      publish_and state (codes "radio.commissioning.csr")
        (object (
          (codes "type", text (codes "commissioning.csr"))
          ∷ (codes "deviceId", text device_id)
          ∷ (codes "nonce", optional text nonce)
          ∷ (codes "csrLength", number (length bytes))
          ∷ []))
        (record {
          certificate = encode (codes "lokan-dev-cert:" ++ device_id ++ codes ":" ++ take 8 bytes);
          ca_identifier = some (codes "lokan-dev-root-ca");
        }))

  -- The checks of verify_credentials, which give the bytes of the signature.
  unfoldable pub signature_bytes : Text → Text → Option Text → Result ApiError (List ℕ)
  unfolding validate_device_id validate_nonce
  signature_bytes device_id signature session = validate_device_id device_id >>= λ _.
      decoded (decode signature) (codes "signature must be valid base64 data") >>= λ bytes.
      (if ltb (length bytes) 16 then refuse (codes "signature must be at least 16 bytes") else fine)
      >>= λ _. if_some session validate_nonce >>= λ _. ok bytes

  unfoldable pub verify_credentials :
      BusState → Text → Text → Option Text → BusState × Result ApiError VerifyResponse
  unfolding signature_bytes
  verify_credentials state device_id signature session =
      after state (signature_bytes device_id signature session) (λ bytes.
        publish_and state (codes "radio.commissioning.verify")
          (object (
            (codes "type", text (codes "commissioning.verify"))
            ∷ (codes "deviceId", text device_id)
            ∷ (codes "session", optional text session)
            ∷ (codes "signatureLength", number (length bytes))
            ∷ []))
          (record { accepted = true; reason = none }))
