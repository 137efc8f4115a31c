-- ===== src/Gateway/Guards.antt =====
-- services/api-gateway/src/lib.rs and audit.rs: the guards in front of the handlers. A layer that is
-- added later runs first, so `rbac_guard` stands before `rate_limit_guard`. The handler behind them
-- is an argument; the requests are taken one at a time.
pub mod Access
use lokan_os.Prelude.{
  ℕ, String, Bool, true, false, ◌&&◌, not, Option, none, some, List, [], ◌∷◌, ◌++◌, if◌then◌else◌,
}
use lokan_os.Prelude.Text.{Text, codes}
use lokan_os.Prelude.Keys.{Eq}
use lokan_os.Prelude.Result.{Result, ok, err}
use lokan_os.Gateway.Errors.{ApiError, forbidden}
use lokan_os.Gateway.RateLimit.{F64, RateLimiter, check}
use lokan_os.Gateway.Rbac.{Role, guest, role_from_str, role_as_str, RbacPolicy, Decision, authorize}

-- audit.rs: AuditEvent. The detail is the one field of its object; the time is in nanoseconds.
pub record AuditEvent : Type 0 where
  pub actor : Text
  pub role : Text
  pub action : Text
  pub resource : Text
  pub outcome : Text
  pub detail : Option (Text × Text)
  pub timestamp : ℕ

-- AuditEvent::new
abbrev pub new_event : Text → Text → Text → Text → Text → ℕ → AuditEvent
new_event actor role action resource outcome now = record {
  actor = actor;
  role = role;
  action = action;
  resource = resource;
  outcome = outcome;
  detail = none;
  timestamp = now;
}

-- AuditEvent::with_detail
abbrev pub with_detail : AuditEvent → Text × Text → AuditEvent
with_detail event detail = record {
  actor = event.actor;
  role = event.role;
  action = event.action;
  resource = event.resource;
  outcome = event.outcome;
  detail = some detail;
  timestamp = event.timestamp;
}

-- AuditEvent::with_outcome
abbrev pub with_outcome : AuditEvent → Text → AuditEvent
with_outcome event outcome = record {
  actor = event.actor;
  role = event.role;
  action = event.action;
  resource = event.resource;
  outcome = outcome;
  detail = event.detail;
  timestamp = event.timestamp;
}

-- AuditClient
pub record AuditClient : Type 0 where
  pub endpoint : Option Text
  pub enabled : Bool

abbrev is_empty : Text → Bool
is_empty [] = true
is_empty (c ∷ t) = false

-- AuditClient::new
unfoldable pub new_client : Text → Bool → AuditClient
new_client endpoint enabled = record {
  endpoint = if enabled && not (is_empty endpoint) then some endpoint else none;
  enabled = enabled;
}

-- The events that were posted to the audit log, whether they arrived or not, and those that were
-- written to the service's own log.
pub record Trail : Type 0 where
  pub posted : List AuditEvent
  pub logged : List AuditEvent

abbrev pub send : Option Text → AuditEvent → Trail → Trail
send (some endpoint) event trail = record {
  posted = trail.posted ++ event ∷ [];
  logged = trail.logged;
}
send none event trail = record { posted = trail.posted; logged = trail.logged ++ event ∷ [] }

-- AuditClient::record
unfoldable pub record_event : AuditClient → AuditEvent → Trail → Trail
record_event client event trail = if client.enabled then send client.endpoint event trail else trail

-- The headers `x-lokan-role` and `x-lokan-subject`, where they are there and are text.
pub record Headers : Type 0 where
  pub role : Option String
  pub subject : Option String

abbrev pub or_guest : {E : Type 0} → Result E Role → Role
or_guest (ok role) = role
or_guest (err e) = guest

-- extract_role
unfoldable pub extract_role : Headers → Role
extract_role headers = elim headers.role [
  | some value ↦ or_guest (role_from_str value)
  | none ↦ guest
]

-- extract_subject
unfoldable pub extract_subject : Headers → Text
extract_subject headers = elim headers.subject [
  | some value ↦ codes value
  | none ↦ codes "anonymous"
]

pub record UserContext : Type 0 where
  pub subject : Text
  pub role : Role

-- What a request gets: the answer of its handler, or an error.
pub data Reply (R : Type 0) : Type 0 where
  reached : R → Reply R
  refused : ApiError → Reply R

pub record Request (Method : Type 0) : Type 0 where
  pub method : Method
  pub path : String
  pub headers : Headers

module _ (f64 : F64) {Method : Type 0} ⦃e : Eq Method⦄ (method_text : Method → Text)
    (R : Type 0) where
  -- The parts of `AppState` that the guards use, and the trail.
  pub record AppState : Type 0 where
    pub policy : RbacPolicy Method
    pub audit : AuditClient
    pub rate_limiter : RateLimiter f64
    pub trail : Trail

  abbrev pub with_limiter : AppState → RateLimiter f64 → AppState
  with_limiter state limiter = record {
    policy = state.policy;
    audit = state.audit;
    rate_limiter = limiter;
    trail = state.trail;
  }

  -- `state.audit.record(event)`
  unfoldable pub audited : AppState → AuditEvent → AppState
  unfolding record_event
  audited state event = record {
    policy = state.policy;
    audit = state.audit;
    rate_limiter = state.rate_limiter;
    trail = record_event state.audit event state.trail;
  }

  abbrev pub throttle_event : Request Method → ℕ → AuditEvent
  unfolding extract_role extract_subject role_as_str
  throttle_event req now =
      with_detail
        (new_event (extract_subject req.headers) (codes (role_as_str (extract_role req.headers)))
          (codes "rate_limit.check") (codes req.path) (codes "throttle") now)
        (codes "reason", codes "rate limit exceeded")

  -- The rest of the guard, by what the limiter said.
  abbrev pub limited :
      AppState
      → Request Method
      → ℕ
      → RateLimiter f64 × Result ApiError (Unit {0})
      → R
      → AppState × Reply R
  unfolding audited throttle_event
  limited state req now (limiter, err failure) answer =
      (audited (with_limiter state limiter) (throttle_event req now), refused failure)
  limited state req now (limiter, ok _) answer = (with_limiter state limiter, reached answer)

  -- rate_limit_guard
  unfoldable pub rate_limit_guard : AppState → Request Method → ℕ → R → AppState × Reply R
  unfolding limited check
  rate_limit_guard state req now answer =
      limited state req now (check f64 state.rate_limiter now) answer

  abbrev pub action_of : Request Method → Option String → Text
  action_of req (some action) = codes action
  action_of req none = method_text req.method ++ codes " " ++ codes req.path

  -- The event of the guard, which is sent as it is or with the outcome `allow`.
  abbrev pub deny_event : Request Method → ℕ → Decision → AuditEvent
  unfolding extract_role extract_subject role_as_str
  deny_event req now decision =
      with_detail
        (new_event (extract_subject req.headers) (codes (role_as_str (extract_role req.headers)))
          (action_of req decision.audit_action) (codes req.path) (codes "deny") now)
        (codes "method", method_text req.method)

  -- What `rbac_guard` does once the request is decided.
  unfoldable pub decided :
      AppState → Request Method → ℕ → Decision → (UserContext → R) → AppState × Reply R
  unfolding audited deny_event rate_limit_guard extract_role extract_subject role_as_str
  decided state req now decision handler =
      let role = extract_role req.headers in
      let subject = extract_subject req.headers in
      let event = deny_event req now decision in
      let through =
        rate_limit_guard state req now (handler (record { subject = subject; role = role })) in
      if not decision.allowed
      then (
        audited state event,
        refused (
            forbidden (
              codes "role "
              ++ codes (role_as_str role)
              ++ codes " is not permitted to access "
              ++ codes req.path)),
      )
      else (audited through.0 (with_outcome event (codes "allow")), through.1)

  -- rbac_guard in front of rate_limit_guard in front of a handler; `none` if `authorize` finds no
  -- decision with its fuel.
  unfoldable pub rbac_guard :
      AppState → Request Method → ℕ → (UserContext → R) → Option (AppState × Reply R)
  unfolding authorize decided extract_role
  rbac_guard state req now handler =
      elim (authorize state.policy (extract_role req.headers) req.method req.path) [
        | some decision ↦ some (decided state req now decision handler)
        | none ↦ none
      ]
