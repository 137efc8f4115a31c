-- ===== src/Gateway/Tests.antt =====
-- services/api-gateway: concrete runs.
use lokan_os.Prelude.{String, ◌≡◌, refl, ◌↔◌, true, none, some, [], ◌∷◌}
use lokan_os.Prelude.Keys.{string_key}
use lokan_os.Prelude.Dict.{get}
use lokan_os.Gateway.Rbac.{
  Role, owner, admin, member, guest, Decision, RbacPolicy, authorize, pattern_matches, parents_of,
  contains, role_key,
}
use lokan_os.Gateway.Rbac.Inheritance.{Inherits}
use lokan_os.Gateway.Rbac.Decisions.{FirstMatch, authorize_lem}
use lokan_os.Prelude.{ℕ, ◌+◌, ◌-◌, ◌*◌, ◌/◌, ◌≤◌, min, Bool, List, ltb, leb, arith}
use lokan_os.Prelude.Text.{Text, codes}
use lokan_os.Prelude.Wire.{Wire}
use lokan_os.Prelude.Result.{ok, err, is_ok}
use lokan_os.Gateway.Errors.{validation}
use lokan_os.Gateway.Commissioning.{
  BusState, BleHandshakeRequest, BleHandshakeResponse, Base64, ble_handshake, signature_bytes,
  validate_qr, validate_device_id, validate_nonce, verify_credentials,
}
use lokan_os.Gateway.Commissioning.Sessions.{verify_credentials-ble_handshake}
use lokan_os.Gateway.RateLimit.{F64, RateLimitSettings, new, check}
use lokan_os.Gateway.RateLimit.Burst.{check_all, passed, passed-new}
use lokan_os.Gateway.Guards.{Reply, Request, AppState, rbac_guard}
use lokan_os.Gateway.Guards.Access.{IsPermitted, Fits, rbac_guard_lem}

abbrev home : RbacPolicy String
home = record {
  rules =
      record { pattern = "/v1/info"; methods = "GET" ∷ []; roles = guest ∷ []; audit_action = none }
      ∷ record {
        pattern = "/v1/devices*";
        methods = "GET" ∷ "POST" ∷ [];
        roles = member ∷ [];
        audit_action = some "devices";
      }
      ∷ [];
  inherit = (owner, admin ∷ []) ∷ (admin, member ∷ []) ∷ (member, guest ∷ []) ∷ (guest, []) ∷ [];
}

-- An owner is a member over two roles; a guest is not.
owner_devices :
    authorize home owner "POST" "/v1/devices/7"
    ≡ some record { allowed = true; audit_action = some "devices" }
unfolding authorize pattern_matches parents_of get
owner_devices = refl

authorize_lem_example :
    (d : Decision) × (authorize home owner "POST" "/v1/devices/7" ≡ some d)
    × ((d.allowed ≡ true) ↔ (
        (rule : _) × FirstMatch "POST" "/v1/devices/7" home.rules rule
        × ((a : Role) × (contains rule.roles a ≡ true) × Inherits home.inherit owner a)))
authorize_lem_example = authorize_lem home owner "POST" "/v1/devices/7"

abbrev naturals : F64
naturals = record {
  Float = ℕ;
  of_nat = λ n. n;
  add = ◌+◌;
  sub = ◌-◌;
  mul = ◌*◌;
  div = ◌/◌;
  minimum = min;
  le = leb;
  positive = ltb 0;
  as_secs = λ n. n;
  no_time = refl;
  le_refl = λ n h. ground arith;
  le_suc = λ x n h k. ground (arith, k);
  minimum_le = λ x n h. ground arith;
  sub_le = λ x n h k l. ground (arith, k, l);
  one_le_zero = λ x h. ground (arith, h);
  sub-of_nat = λ n h. omega arith;
  one_le = λ n h. ground arith;
}

abbrev settings : RateLimitSettings
settings = record { requests_per_minute = 120; burst = 2 }

passed-new_example :
    (passed naturals 5 (new naturals settings 10) 10 ≡ 2)
    × ((times : List ℕ) (now : ℕ)
        → passed naturals 5 (check_all naturals (new naturals settings 10) times) now ≤ 2)
passed-new_example = passed-new naturals settings 10 5 (omega arith)

abbrev gateway : AppState naturals codes ℕ
gateway = record {
  policy = home;
  audit = record { endpoint = some (codes "http://audit"); enabled = true };
  rate_limiter = record { tokens = 1; last_refill = 0; capacity = 1; rate_per_second = 0 };
  trail = record { posted = []; logged = [] };
}

abbrev list_request : Request String
list_request = record {
  method = "GET";
  path = "/v1/devices";
  headers = record { role = some "member"; subject = none };
}

rbac_guard_lem_example :
    (r : AppState naturals codes ℕ × Reply ℕ) × (permitted : Bool) × (rbac_guard naturals codes ℕ
        gateway list_request 3
        (λ user. 7)
      ≡ some r)
    × ((permitted ≡ true) ↔ IsPermitted naturals codes ℕ home list_request)
    × Fits naturals codes ℕ permitted
        (is_ok (check naturals gateway.rate_limiter 3).1)
        (check naturals gateway.rate_limiter 3).0
        gateway
        r
rbac_guard_lem_example =
    rbac_guard_lem naturals codes ℕ gateway list_request 3 (λ user. 7)
      (refl, (codes "http://audit", refl))

abbrev blank : Wire
blank = record {
  Value = ℕ;
  null = 0;
  text = λ t. 0;
  number = λ n. n;
  object = λ fields. 0;
  to_vec = λ v. ok [];
}

abbrev plain : Base64
plain = record { encode = λ bytes. bytes; decode = some }

abbrev lamp : BleHandshakeRequest blank plain
lamp = record {
  qr_payload = codes "LOKAN:lamp";
  device_id = codes "lamp-7";
  nonce = codes "abc_123";
  metadata = none;
}

abbrev drawn : Text
drawn = codes "6f1a3b0c-91d2-4e5f-8a7b-0123456789ab"

abbrev before : BusState
before = record { counted = []; sent = [] }

abbrev answered : BleHandshakeResponse
answered = record { session = drawn; shared_key = 1 ∷ 2 ∷ [] }

lamp_handshake : (ble_handshake blank plain before lamp drawn (1 ∷ 2 ∷ [])).1 ≡ ok answered
unfolding ble_handshake validate_qr validate_device_id validate_nonce
lamp_handshake = refl

-- A session that is too short is refused.
short_session :
    (verify_credentials blank plain before (codes "lamp-7") drawn (some (codes "abc"))).1
    ≡ err (validation (codes "nonce must be between 6 and 128 characters"))
unfolding verify_credentials signature_bytes validate_device_id validate_nonce
short_session = refl

verify_credentials-ble_handshake_example :
    (drawn ≡ drawn)
    × ((verify_credentials blank plain before (codes "lamp-7") drawn (some drawn)).1
        ≡ ok record { accepted = true; reason = none })
verify_credentials-ble_handshake_example =
    verify_credentials-ble_handshake blank plain before before lamp drawn (1 ∷ 2 ∷ []) answered
      drawn drawn (refl, refl) lamp_handshake refl (ground arith)
