-- ===== src/Gateway/Commissioning/Sessions.antt =====
-- services/api-gateway/src/commissioning.rs: the session of a handshake serves to verify the device.
use lokan_os.Prelude.{
  ℕ, ◌≤◌, ◌≡◌, refl, ap, sym, ◌∙◌, Bool, true, false, ◌||◌, ◌==◌, ltb, none, some, List, [], ◌∷◌,
  all, length, if◌then◌else◌, arith,
}
use lokan_os.Prelude.Text.{Text, codes, byte_len, is_ascii_hexdigit}
use lokan_os.Prelude.Wire.{Wire}
use lokan_os.Prelude.Result.{Result, ok, err, ◌>>◌, ◌>>=◌, >>=-eq-ok}
use lokan_os.Gateway.Errors.{ApiError}
use lokan_os.Gateway.Commissioning.{
  fine, is_id_char, validate_qr, validate_device_id, validate_nonce, decoded, BusState,
  BleHandshakeResponse, Base64, BleHandshakeRequest, after, ble_handshake, signature_bytes,
  verify_credentials,
}

abbrev pub is_uuid_char : ℕ → Bool
is_uuid_char c = is_ascii_hexdigit c || c == b'-'

-- The text of a UUID: 36 hexadecimal digits and dashes.
abbrev pub IsUuid : Text → Type 0
IsUuid s = (length s ≡ 36) × (all is_uuid_char s ≡ true)

byte_len_uuid : (s : Text) → all is_uuid_char s ≡ true → byte_len s ≡ length s
byte_len_uuid [] h = refl
byte_len_uuid (c ∷ s) h = ground (arith, byte_len_uuid s)

all-is_id_char : (s : Text) → all is_uuid_char s ≡ true → all is_id_char s ≡ true
all-is_id_char [] h = refl
all-is_id_char (c ∷ s) h = ground (arith, all-is_id_char s)

validate_nonce-IsUuid : (s : Text) → IsUuid s → validate_nonce s ≡ fine
unfolding validate_nonce
validate_nonce-IsUuid s (size, chars) =
    ground (arith, size, byte_len_uuid s chars, all-is_id_char s chars)

session_of : Result ApiError BleHandshakeResponse → Text
session_of (ok answer) = answer.session
session_of (err e) = []

>>=-ok :
    {A B : Type 0} {m : Result ApiError A} {x : A} (rest : A → Result ApiError B)
    → m ≡ ok x
    → (m >>= rest) ≡ rest x
>>=-ok rest h = ap (λ m. m >>= rest) h

if_false : {A : Type 0} {b : Bool} (x y : A) → b ≡ false → (if b then x else y) ≡ y
if_false x y h = ap (λ b. if b then x else y) h

module _ (wire : Wire) (base64 : Base64) where
  after_ok :
      {A B : Type 0} (state : BusState) (m : Result ApiError A)
      (rest : A → BusState × Result ApiError B) (y : B)
      → (after wire base64 state m rest).1 ≡ ok y
      → (x : A) × (m ≡ ok x) × ((rest x).1 ≡ ok y)
  after_ok state (ok x) rest y h = (x, refl, h)
  after_ok state (err e) rest y h = cc

  after_from :
      {A B : Type 0} (state : BusState) {m : Result ApiError A}
      (rest : A → BusState × Result ApiError B) {x : A} {y : B}
      → m ≡ ok x
      → (rest x).1 ≡ ok y
      → (after wire base64 state m rest).1 ≡ ok y
  after_from state rest h g = ap (λ m. (after wire base64 state m rest).1) h ∙ g

  -- What a handshake that is answered has checked, and what it answers.
  handshake_lem :
      (state : BusState) (request : BleHandshakeRequest wire base64) (session : Text)
      (secret : List ℕ) (answer : BleHandshakeResponse)
      → (ble_handshake wire base64 state request session secret).1 ≡ ok answer
      → (validate_device_id request.device_id ≡ fine) × (answer.session ≡ session)
  unfolding ble_handshake session_of
  handshake_lem state request session secret answer h =
      let (u, checks, given) = after_ok state _ _ answer h in
      let (v, two, nonce) =
        >>=-eq-ok (validate_qr request.qr_payload >> validate_device_id request.device_id) _
          checks in
      let (w, qr, device) = >>=-eq-ok (validate_qr request.qr_payload) _ two in
      (device, sym (ap session_of given))

  signature_lem :
      (device_id signature session : Text) (bytes : List ℕ)
      → validate_device_id device_id ≡ fine
      → base64.decode signature ≡ some bytes
      → 16 ≤ length bytes
      → validate_nonce session ≡ fine
      → signature_bytes wire base64 device_id signature (some session) ≡ ok bytes
  unfolding signature_bytes
  signature_lem device_id signature session bytes device there long nonce =
      let size : ltb (length bytes) 16 ≡ false = ground (arith, long) in
      >>=-ok _ device
      ∙ >>=-ok _ (ap (λ o. decoded o (codes "signature must be valid base64 data")) there)
      ∙ >>=-ok _ (if_false _ _ size)
      ∙ >>=-ok _ nonce

  -- Let a handshake be answered, the session that is drawn for it being the text of a UUID. Then the
  -- answer has that session, and a later request to verify the same device in that session is
  -- accepted, if its signature is the base64 of 16 bytes or more; whatever the bus does meanwhile.
  pub verify_credentials-ble_handshake :
      (state later : BusState) (request : BleHandshakeRequest wire base64) (session : Text)
      (secret : List ℕ) (answer : BleHandshakeResponse) (signature : Text) (bytes : List ℕ)
      → IsUuid session
      → (ble_handshake wire base64 state request session secret).1 ≡ ok answer
      → base64.decode signature ≡ some bytes
      → 16 ≤ length bytes
      → (answer.session ≡ session)
        × ((verify_credentials wire base64 later request.device_id signature
              (some answer.session)).1
            ≡ ok record { accepted = true; reason = none })
  unfolding verify_credentials
  verify_credentials-ble_handshake state later request session secret answer signature bytes uuid h
        there long =
      let (device, same) = handshake_lem state request session secret answer h in
      let nonce : validate_nonce answer.session ≡ fine =
        ap validate_nonce same ∙ validate_nonce-IsUuid session uuid in
      let checked =
        signature_lem request.device_id signature answer.session bytes device there long nonce in
      (same, after_from later _ checked refl)
