-- ===== src/Gateway/Rbac/Decisions.antt =====
-- services/api-gateway/src/rbac.rs: what `authorize` decides.
use lokan_os.Prelude.{
  String, ◌≡◌, refl, ◌↔◌, inl, inr, true, false, some, List, [], ◌∷◌, any, arith, Bool-cases,
  if-cases,
}
use lokan_os.Prelude.Keys.{Eq}
use lokan_os.Gateway.Rbac.{
  Role, role_eq, role_eq_iff, role_key, Inherit, contains, expand_roles, RouteRule, RbacPolicy,
  rule_matches, Decision, decide, authorize, fuel_of,
}
use lokan_os.Gateway.Rbac.Inheritance.{Inherits, itself, through, From, Closed, expand_lem, measure}

Closed-Inherits :
    {inherit : Inherit} {a b : Role} (roles : List Role)
    → Closed inherit roles []
    → Inherits inherit a b
    → contains roles a ≡ true
    → contains roles b ≡ true
unfolding Closed
Closed-Inherits roles closed itself h = h
Closed-Inherits {inherit = inherit} roles closed (through {a = a} {b = b} g p) h =
    Closed-Inherits roles closed p (ground (arith, closed a b h g))

any-contains :
    (rs roles : List Role)
    → any (λ r. contains roles r) rs ≡ true
    → (a : Role) × (contains rs a ≡ true) × (contains roles a ≡ true)
any-contains [] roles h = absurd (ground (arith, h))
any-contains (r ∷ rs) roles h = elim (Bool-cases (contains roles r)) [
  | inl found ↦ (r, ground (arith, role_eq_iff r r), found)
  | inr other ↦
      let (a, listed, held) = any-contains rs roles (ground (arith, h, other)) in
      (a, ground (arith, listed), held)
]

contains-any :
    (rs roles : List Role) (a : Role)
    → contains rs a ≡ true
    → contains roles a ≡ true
    → any (λ r. contains roles r) rs ≡ true
contains-any [] roles a h g = h
contains-any (r ∷ rs) roles a h g = elim (Bool-cases (role_eq r a)) [
  | inl same ↦ rw ((role_eq_iff r a).0 same, g) refl
  | inr other ↦ ground (arith, contains-any rs roles a (ground (arith, h, other)) g)
]

module _ {Method : Type 0} ⦃e : Eq Method⦄ where
  -- The expansion of a role always ends, and gives just the roles that the role inherits from over
  -- any number of roles, itself included.
  pub expand_roles_lem :
      (policy : RbacPolicy Method) (role : Role)
      → (roles : List Role) × (expand_roles policy role ≡ some roles)
        × ((a : Role) → (contains roles a ≡ true) ↔ Inherits policy.inherit role a)
  unfolding expand_roles From measure fuel_of Closed
  expand_roles_lem policy role =
      let (roles, run, from, closed, has) =
        expand_lem (fuel_of policy.inherit) policy.inherit role [] (role ∷ []) (ground arith)
          (λ a h. absurd (ground (arith, h)))
          (λ a h. rw (← (role_eq_iff role a).0 (ground (arith, h))) itself)
          (λ a b h g. absurd (ground (arith, h))) (ground (arith, role_eq_iff role role)) in
      (roles, run, λ a. (from a, λ p. Closed-Inherits roles closed p has))

  -- `FirstMatch rules method path rule`: rule is the first of the rules that matches.
  pub data FirstMatch (method : Method) (path : String)
      : List (RouteRule Method) → RouteRule Method → Type 0 where
    here :
        {rule : RouteRule Method} {rules : List (RouteRule Method)}
        → rule_matches rule method path ≡ true
        → FirstMatch method path (rule ∷ rules) rule
    later :
        {other rule : RouteRule Method} {rules : List (RouteRule Method)}
        → rule_matches other method path ≡ false
        → FirstMatch method path rules rule
        → FirstMatch method path (other ∷ rules) rule

  decide_sound :
      (rules : List (RouteRule Method)) (roles : List Role) (method : Method) (path : String)
      → (decide rules roles method path).allowed ≡ true
      → (rule : RouteRule Method) × FirstMatch method path rules rule
        × ((a : Role) × (contains rule.roles a ≡ true) × (contains roles a ≡ true))
  decide_sound [] roles method path = λ h. absurd (ground (arith, h))
  decide_sound (rule ∷ rules) roles method path =
      if-cases
        (λ (d : Decision).
          d.allowed ≡ true
          → (r : RouteRule Method) × FirstMatch method path (rule ∷ rules) r
            × ((a : Role) × (contains r.roles a ≡ true) × (contains roles a ≡ true)))
        (rule_matches rule method path) _ _
        (λ matched h. (rule, here matched, any-contains rule.roles roles h))
        (λ other h.
          let (r, first, found) = decide_sound rules roles method path h in
          (r, later other first, found))

  decide_complete :
      {method : Method} {path : String} {rules : List (RouteRule Method)} {rule : RouteRule Method}
      (roles : List Role) (a : Role)
      → FirstMatch method path rules rule
      → contains rule.roles a ≡ true
      → contains roles a ≡ true
      → (decide rules roles method path).allowed ≡ true
  decide_complete roles a (here {rule = rule} matched) h g =
      simp matched (contains-any rule.roles roles a h g)
  decide_complete roles a (later other first) h g = simp other (decide_complete roles a first h g)

  -- A request is decided for every policy, role, method and path, and it is allowed exactly when
  -- the first rule that matches the method and the path lists a role that the caller's role is or
  -- inherits from. So a request that no rule matches is refused.
  pub authorize_lem :
      (policy : RbacPolicy Method) (role : Role) (method : Method) (path : String)
      → (d : Decision) × (authorize policy role method path ≡ some d)
        × ((d.allowed ≡ true) ↔ (
            (rule : RouteRule Method) × FirstMatch method path policy.rules rule
            × ((a : Role) × (contains rule.roles a ≡ true) × Inherits policy.inherit role a)))
  unfolding authorize
  authorize_lem policy role method path =
      let (roles, run, good) = expand_roles_lem policy role in
      rw (run, authorize)
        (
          decide policy.rules roles method path,
          refl,
          (
            (λ h.
                let (rule, first, (a, listed, held)) =
                  decide_sound policy.rules roles method path h in
                (rule, first, (a, listed, (good a).0 held))),
            (λ x.
                let (rule, first, (a, listed, held)) = x in
                decide_complete roles a first listed ((good a).1 held)),
          ),
        )
