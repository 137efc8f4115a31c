-- ===== src/Gateway/Rbac.antt =====
-- services/api-gateway/src/rbac.rs: which role may call which route.
pub mod Inheritance
pub mod Decisions
use lokan_os.Prelude.{
  ℕ, zero, suc, String, ◌≡◌, refl, ◌↔◌, Bool, true, false, Option, none, some, List, [], ◌∷◌, ◌++◌,
  reverse, any, length, ◌+◌, ◌&&◌, ◌==◌, arith, if◌then◌else◌,
}
use lokan_os.Prelude.Result.{Result, ok, err, ◌>>=◌}
use lokan_os.Prelude.Keys.{Eq}
use lokan_os.Prelude.Dict.{Dict, get, insert}
use lokan_os.Prelude.Text.{codes, codes_eq, eq_ignore_ascii_case}

pub data Role : Type 0 where
  owner admin member guest : Role

abbrev role_number : Role → ℕ
role_number owner = 0
role_number admin = 1
role_number member = 2
role_number guest = 3

abbrev pub role_eq : Role → Role → Bool
role_eq a b = role_number a == role_number b

pub role_eq_iff : (a b : Role) → (role_eq a b ≡ true) ↔ (a ≡ b)
role_eq_iff a b = ground arith

instance abbrev pub role_key : Eq Role
role_key = record { beq = role_eq; beq_iff = role_eq_iff }

-- The errors of a policy that was read; those of reading it come from the library that does.
pub data PolicyError : Type 0 where
  unknown_role : String → PolicyError
  invalid_method : String → PolicyError

-- Role::from_str. No other character's lower case is a letter of these words.
unfoldable pub role_from_str : String → Result PolicyError Role
role_from_str s =
    if eq_ignore_ascii_case s "owner"
    then ok owner
    else if eq_ignore_ascii_case s "admin"
    then ok admin
    else if eq_ignore_ascii_case s "member"
    then ok member
    else if eq_ignore_ascii_case s "guest"
    then ok guest
    else err (unknown_role s)

unfoldable pub role_as_str : Role → String
role_as_str owner = "Owner"
role_as_str admin = "Admin"
role_as_str member = "Member"
role_as_str guest = "Guest"

abbrev starts_with : List ℕ → List ℕ → Bool
starts_with s [] = true
starts_with [] (c ∷ prefix) = false
starts_with (d ∷ s) (c ∷ prefix) = d == c && starts_with s prefix

-- A pattern, given backwards, without its last character if that is a star.
abbrev prefix_of : List ℕ → Option (List ℕ)
prefix_of [] = none
prefix_of (c ∷ s) = if c == b'*' then some (reverse s) else none

-- RoutePattern::matches
unfoldable pub pattern_matches : String → String → Bool
pattern_matches pattern path = elim (prefix_of (reverse (codes pattern))) [
  | some prefix ↦ starts_with (codes path) prefix
  | none ↦ codes_eq (codes pattern) (codes path)
]

abbrev pub contains {ℓ} : {A : Type ℓ} ⦃e : Eq A⦄ → List A → A → Bool
contains ⦃e⦄ xs x = any (λ y. e.beq y x) xs

pub record RawRole : Type 0 where
  pub inherits : List String

pub record RawRoute : Type 0 where
  pub pattern : String
  pub methods : List String
  pub roles : List String
  pub audit_action : Option String

pub record RawPolicy : Type 0 where
  pub roles : Dict String RawRole
  pub routes : List RawRoute

pub record Decision : Type 0 where
  pub allowed : Bool
  pub audit_action : Option String

abbrev Inherit : Type 0
Inherit = Dict Role (List Role)

-- The roles that a role inherits from.
unfoldable pub parents_of : Inherit → Role → List Role
parents_of inherit role = elim (get inherit role) [ some parents ↦ parents | none ↦ [] ]

-- The loop of `expand_roles`, on fuel. A set of parents has no fixed order: the list has the one
-- in which they are popped.
pub expand : ℕ → Inherit → List Role → List Role → Option (List Role)
expand zero inherit visited stack = none
expand (suc fuel) inherit visited [] = some visited
expand (suc fuel) inherit visited (current ∷ stack) =
    let again = expand fuel inherit visited stack in
    let deeper = expand fuel inherit (current ∷ visited) (parents_of inherit current ++ stack) in
    if contains visited current then again else deeper

abbrev parents_count : Inherit → Role → ℕ
parents_count inherit role = length (parents_of inherit role)

-- Each role's parents are pushed once at most.
unfoldable pub fuel_of : Inherit → ℕ
fuel_of inherit = suc (
    suc (
      parents_count inherit owner
      + parents_count inherit admin
      + parents_count inherit member
      + parents_count inherit guest))

abbrev load {ℓ κ} :
    {A : Type ℓ} {B : Type κ} → (A → Result PolicyError B) → List A → Result PolicyError (List B)
load f [] = ok []
load f (x ∷ xs) = f x >>= λ y. load f xs >>= λ ys. ok (y ∷ ys)

load_inherit : Dict String RawRole → Inherit → Result PolicyError Inherit
unfolding role_from_str
load_inherit [] inherit = ok inherit
load_inherit ((role_name, definition) ∷ rest) inherit = role_from_str role_name >>= λ role.
    load role_from_str definition.inherits >>= λ parents.
    load_inherit rest (insert inherit role parents)

pub record RouteRule (Method : Type 0) : Type 0 where
  pub pattern : String
  pub methods : List Method
  pub roles : List Role
  pub audit_action : Option String

pub record RbacPolicy (Method : Type 0) : Type 0 where
  pub rules : List (RouteRule Method)
  pub inherit : Inherit

-- `Method` and what reads one are those of the HTTP library.
module _ {Method : Type 0} ⦃e : Eq Method⦄ where
  unfoldable pub rule_matches : RouteRule Method → Method → String → Bool
  rule_matches rule method path = contains rule.methods method && pattern_matches rule.pattern path

  -- RbacPolicy::expand_roles
  unfoldable pub expand_roles : RbacPolicy Method → Role → Option (List Role)
  unfolding expand fuel_of
  expand_roles policy role = expand (fuel_of policy.inherit) policy.inherit [] (role ∷ [])

  abbrev pub decide : List (RouteRule Method) → List Role → Method → String → Decision
  decide [] effective_roles method path = record { allowed = false; audit_action = none }
  decide (rule ∷ rules) effective_roles method path =
      let rest = decide rules effective_roles method path in
      if rule_matches rule method path
      then record {
        allowed = any (λ r. contains effective_roles r) rule.roles;
        audit_action = rule.audit_action;
      }
      else rest

  -- RbacPolicy::authorize; `none` if the roles are not all found with the fuel given.
  unfoldable pub authorize : RbacPolicy Method → Role → Method → String → Option Decision
  unfolding expand_roles rule_matches
  authorize policy role method path = elim (expand_roles policy role) [
    | some effective_roles ↦ some (decide policy.rules effective_roles method path)
    | none ↦ none
  ]

  module _ (get_method : Method) (method_from_bytes : String → Option Method) where
    load_method : String → Result PolicyError Method
    load_method s = elim (method_from_bytes s) [ some m ↦ ok m | none ↦ err (invalid_method s) ]

    load_methods : List String → Result PolicyError (List Method)
    unfolding load_method
    load_methods [] = ok (get_method ∷ [])
    load_methods (m ∷ ms) = load load_method (m ∷ ms)

    load_route : RawRoute → Result PolicyError (RouteRule Method)
    unfolding load_methods role_from_str
    load_route raw = load_methods raw.methods >>= λ methods.
        load role_from_str raw.roles >>= λ roles. ok record {
          pattern = raw.pattern;
          methods = methods;
          roles = roles;
          audit_action = raw.audit_action;
        }

    -- TryFrom<RawPolicy> for RbacPolicy
    pub try_from : RawPolicy → Result PolicyError (RbacPolicy Method)
    unfolding load_inherit load_route
    try_from policy = load_inherit policy.roles [] >>= λ inherit.
        load load_route policy.routes >>= λ rules. ok record { rules = rules; inherit = inherit }
