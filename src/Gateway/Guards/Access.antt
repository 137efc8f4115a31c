-- ===== src/Gateway/Guards/Access.antt =====
-- services/api-gateway/src/lib.rs: which requests reach their handler, and what the audit log is told.
use lokan_os.Prelude.{
  ℕ, ◌≡◌, ◌↔◌, refl, ap, sym, subst, if-cases, ◌∙◌, Bool, true, false, not, Option, none, some,
  List, [], ◌∷◌, ◌++◌, if◌then◌else◌, map, append_assoc,
}
use lokan_os.Prelude.Text.{Text, codes}
use lokan_os.Prelude.Keys.{Eq}
use lokan_os.Prelude.Result.{Result, ok, err, is_ok}
use lokan_os.Gateway.Errors.{ApiError, forbidden}
use lokan_os.Gateway.RateLimit.{F64, RateLimiter, check}
use lokan_os.Gateway.Rbac.{Role, role_as_str, role_key, RouteRule, RbacPolicy, Decision, contains}
use lokan_os.Gateway.Rbac.Inheritance.{Inherits}
use lokan_os.Gateway.Rbac.Decisions.{FirstMatch, authorize_lem}
use lokan_os.Gateway.Guards.{
  AuditEvent, AuditClient, with_outcome, send, Trail, record_event, extract_role, extract_subject,
  UserContext, Reply, reached, refused, Request, AppState, with_limiter, audited, throttle_event,
  limited, rate_limit_guard, deny_event, decided, rbac_guard,
}

false≢true : Path Bool false true → ⊥
false≢true e = cc

not-true : (b : Bool) → not b ≡ true → b ≡ false
not-true true h = cc
not-true false h = refl

not-false : (b : Bool) → not b ≡ false → b ≡ true
not-false true h = refl
not-false false h = cc

abbrev pub is_reached : {R : Type 0} → Reply R → Bool
is_reached (reached r) = true
is_reached (refused e) = false

module _ (f64 : F64) {Method : Type 0} ⦃e : Eq Method⦄ (method_text : Method → Text)
    (R : Type 0) where
  -- The first rule for the request lists a role that the caller is or inherits from.
  abbrev pub IsPermitted : RbacPolicy Method → Request Method → Type 0
  IsPermitted policy req =
      (rule : RouteRule Method) × FirstMatch req.method req.path policy.rules rule
      × ((a : Role) × (contains rule.roles a ≡ true)
          × Inherits policy.inherit (extract_role req.headers) a)

  -- The outcomes of the events of one request.
  abbrev pub outcomes : Bool → Bool → List Text
  outcomes permitted fast =
      if permitted
      then (if fast then codes "allow" ∷ [] else codes "throttle" ∷ codes "allow" ∷ [])
      else codes "deny" ∷ []

  abbrev pub posted_outcomes : AppState f64 method_text R → List Text
  posted_outcomes state = map (λ event. event.outcome) state.trail.posted

  map_last :
      {A B : Type 0} (f : A → B) (xs : List A) (x : A) → map f (xs ++ x ∷ []) ≡ map f xs ++ f x ∷ []
  map_last f [] x = refl
  map_last f (y ∷ xs) x = ap (f y ∷◌) (map_last f xs x)

  -- The audit client posts its events.
  abbrev pub IsPosting : AuditClient → Type 0
  IsPosting client = (client.enabled ≡ true) × ((url : Text) × (client.endpoint ≡ some url))

  outcomes-audited :
      (state : AppState f64 method_text R) (event : AuditEvent)
      → IsPosting state.audit
      → posted_outcomes (audited f64 method_text R state event)
        ≡ posted_outcomes state ++ event.outcome ∷ []
  unfolding audited record_event
  outcomes-audited state event (on, (url, there)) =
      let trail : Bool → Option Text → Trail =
        λ b o. if b then send o event state.trail else state.trail in
      ap (λ b. map (λ event. event.outcome) (trail b state.audit.endpoint).posted) on
      ∙ ap (λ o. map (λ event. event.outcome) (trail true o).posted) there
      ∙ map_last (λ event. event.outcome) state.trail.posted event

  -- What a request comes to, where `permitted` says that the policy allows it, and `fast` that the
  -- limiter lets it through.
  pub record Fits (permitted fast : Bool) (limiter : RateLimiter f64)
      (before : AppState f64 method_text R) (r : AppState f64 method_text R × Reply R)
      : Type 0 where
    pub reached : (is_reached r.1 ≡ true) ↔ ((permitted ≡ true) × (fast ≡ true))
    pub told : posted_outcomes r.0 ≡ posted_outcomes before ++ outcomes permitted fast
    pub tokens : r.0.rate_limiter ≡ (if permitted then limiter else before.rate_limiter)

  limited-Fits :
      (state : AppState f64 method_text R) (req : Request Method) (now : ℕ) (event : AuditEvent)
      (answer : R) (checked : RateLimiter f64 × Result ApiError (Unit {0}))
      → IsPosting state.audit
      → (let through = limited f64 method_text R state req now checked answer in
          Fits true
            (is_ok checked.1)
            checked.0
            state
            (audited f64 method_text R through.0 (with_outcome event (codes "allow")), through.1))
  unfolding audited limited throttle_event
  limited-Fits state req now event answer (limiter, ok x) posting = record {
    reached = (λ h. (refl, refl), λ h. refl);
    told =
        outcomes-audited (with_limiter f64 method_text R state limiter)
          (with_outcome event (codes "allow")) posting;
    tokens = refl;
  }
  limited-Fits state req now event answer (limiter, err failure) posting =
      let slow = with_limiter f64 method_text R state limiter in
      let throttled = throttle_event f64 method_text R req now in
      record {
        reached = (λ h. absurd (false≢true h), λ h. absurd (false≢true h.1));
        told =
            outcomes-audited (audited f64 method_text R slow throttled)
              (with_outcome event (codes "allow")) posting
            ∙ ap (λ os. os ++ codes "allow" ∷ []) (outcomes-audited slow throttled posting)
            ∙ append_assoc (posted_outcomes state) (codes "throttle" ∷ []) (codes "allow" ∷ []);
        tokens = refl;
      }

  decided-Fits :
      (state : AppState f64 method_text R) (req : Request Method) (now : ℕ) (d : Decision)
      (handler : UserContext → R)
      → IsPosting state.audit
      → Fits d.allowed
          (is_ok (check f64 state.rate_limiter now).1)
          (check f64 state.rate_limiter now).0
          state
          (decided f64 method_text R state req now d handler)
  unfolding decided rate_limit_guard deny_event
  decided-Fits state req now d handler posting =
      let checked = check f64 state.rate_limiter now in
      let role = extract_role req.headers in
      let event = deny_event f64 method_text R req now d in
      let answer = handler (record { subject = extract_subject req.headers; role = role }) in
      let through = limited f64 method_text R state req now checked answer in
      let denied : AppState f64 method_text R × Reply R = (
        audited f64 method_text R state event,
        refused (
            forbidden (
              codes "role "
              ++ codes (role_as_str role)
              ++ codes " is not permitted to access "
              ++ codes req.path)),
      ) in
      let passed : AppState f64 method_text R × Reply R =
        (audited f64 method_text R through.0 (with_outcome event (codes "allow")), through.1) in
      if-cases {A = AppState f64 method_text R × Reply R}
        (λ r. Fits d.allowed (is_ok checked.1) checked.0 state r) (not d.allowed) denied passed
        (λ e.
          subst (λ b. Fits b (is_ok checked.1) checked.0 state denied) (sym (not-true d.allowed e))
            (record {
              reached = (λ h. absurd (false≢true h), λ h. absurd (false≢true h.0));
              told = outcomes-audited state event posting;
              tokens = refl;
            }))
        (λ e.
          subst (λ b. Fits b (is_ok checked.1) checked.0 state passed) (sym (not-false d.allowed e))
            (limited-Fits state req now event answer checked posting))

  -- Let the audit client be enabled and have an endpoint. Then every request is answered. It reaches
  -- its handler just if the policy permits it to the caller's role and the limiter has a token for it.
  -- One that is not permitted takes no token and posts one event, with the outcome `deny`; one that
  -- reaches its handler posts one event, `allow`; one that is permitted and has no token posts two:
  -- `throttle`, and after it `allow` too.
  pub rbac_guard_lem :
      (state : AppState f64 method_text R) (req : Request Method) (now : ℕ)
      (handler : UserContext → R)
      → IsPosting state.audit
      → (r : AppState f64 method_text R × Reply R) × (permitted : Bool) × (rbac_guard f64
            method_text R state req now handler
          ≡ some r)
        × ((permitted ≡ true) ↔ IsPermitted state.policy req)
        × Fits permitted
            (is_ok (check f64 state.rate_limiter now).1)
            (check f64 state.rate_limiter now).0
            state
            r
  unfolding rbac_guard
  rbac_guard_lem state req now handler posting =
      let (d, decision, permitted) =
        authorize_lem state.policy (extract_role req.headers) req.method req.path in
      (
        decided f64 method_text R state req now d handler,
        d.allowed,
        ap
            (λ o. elim o [
              | some decision ↦ some (decided f64 method_text R state req now decision handler)
              | none ↦ none
            ])
            decision,
        permitted,
        decided-Fits state req now d handler posting,
      )
