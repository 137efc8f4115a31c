-- ===== src/RuleEngine/Evaluate/References.antt =====
-- services/rule-engine/src/main.rs: what a reference to a value means.
use lokan_os.Prelude.{
  String, true, false, ◌≡◌, refl, subst, sym, ◌∙◌, ap, Option, none, some, List, [], ◌∷◌,
  if◌then◌else◌, Bool-cases, Option-cases, inl, inr, ℕ,
}
use mathlib.Core.Option.{some-injective}
use lokan_os.Prelude.Text.{codes, codes_eq}
use lokan_os.Prelude.Keys.{codes_key}
use lokan_os.Prelude.Dict.{get}
use lokan_os.RuleEngine.Json.{Json}
use lokan_os.RuleEngine.Rules.{ValueRef, literal, context}
use lokan_os.RuleEngine.Evaluate.{Context, split, member, walk, walk_first, resolve_path, resolve}

module _ (json : Json) where
  open json use {Value, null, text, as_object}

  -- From a value, through the members of these names, to a value.
  pub data Leads : Value → List (List ℕ) → Value → Type 0 where
    here : (v : Value) → Leads v [] v
    through :
        (v w u : Value) (m : Context json) (name : List ℕ) (names : List (List ℕ))
        → as_object v ≡ some m
        → get m name ≡ some w
        → Leads w names u
        → Leads v (name ∷ names) u

  -- What stands at a path: the entry of the context of this name; and if there is none, the value
  -- that the pieces between the dots lead to, the first of which names an entry.
  pub data StandsAt (ctx : Context json) (path : List ℕ) : Value → Type 0 where
    entry : (v : Value) → get ctx path ≡ some v → StandsAt ctx path v
    nested :
        (first : List ℕ) (names : List (List ℕ)) (w v : Value)
        → get ctx path ≡ none
        → split b'.' path ≡ first ∷ names
        → get ctx first ≡ some w
        → Leads w names v
        → StandsAt ctx path v

  -- What a reference means: itself, or what stands at its path; where nothing stands, `now` is the
  -- time, and anything else is null.
  pub data Means (ctx : Context json) (now : String) : ValueRef json → Value → Type 0 where
    itself : (v : Value) → Means ctx now (literal v) v
    found : (path : List ℕ) (v : Value) → StandsAt ctx path v → Means ctx now (context path) v
    clock :
        (path : List ℕ)
        → ((v : Value) → StandsAt ctx path v → ⊥)
        → codes_eq path (codes "now") ≡ true
        → Means ctx now (context path) (text now)
    nothing :
        (path : List ℕ)
        → ((v : Value) → StandsAt ctx path v → ⊥)
        → codes_eq path (codes "now") ≡ false
        → Means ctx now (context path) null

  walk-none : (names : List (List ℕ)) → walk json names none ≡ none
  unfolding walk
  walk-none [] = refl
  walk-none (name ∷ names) = refl

  walk-Leads :
      (names : List (List ℕ)) (v u : Value) → walk json names (some v) ≡ some u → Leads v names u
  unfolding walk member
  walk-Leads [] v u h = subst (Leads v []) (some-injective v u h) (here v)
  walk-Leads (name ∷ names) v u h = elim (Option-cases (as_object v)) [
    | inl bare ↦
        let stuck = ap (λ o. walk json names (member json o name)) bare ∙ walk-none names in
        absurd (cc (stuck, h))
    | inr (m, e) ↦
        let inside = ap (λ o. walk json names (member json o name)) e in
        elim (Option-cases (get m name)) [
          | inl missing ↦
              let stuck = inside ∙ ap (walk json names) missing ∙ walk-none names in
              absurd (cc (stuck, h))
          | inr (w, f) ↦
              let next = inside ∙ ap (walk json names) f in
              through v w u m name names e f (walk-Leads names w u (sym next ∙ h))
        ]
  ]

  Leads-walk :
      (names : List (List ℕ)) (v u : Value) → Leads v names u → walk json names (some v) ≡ some u
  unfolding walk member
  Leads-walk _ _ _ (here v) = refl
  Leads-walk _ _ _ (through v w u m name names e f rest) =
      ap (λ o. walk json names (member json o name)) e
      ∙ ap (walk json names) f
      ∙ Leads-walk names w u rest

  walk_first-StandsAt :
      (ctx : Context json) (path : List ℕ) (parts : List (List ℕ)) (v : Value)
      → get ctx path ≡ none
      → split b'.' path ≡ parts
      → walk_first json ctx parts ≡ some v
      → StandsAt ctx path v
  unfolding walk_first
  walk_first-StandsAt ctx path [] v missing e h = absurd (cc h)
  walk_first-StandsAt ctx path (first ∷ names) v missing e h = elim (Option-cases (get ctx first)) [
    | inl gone ↦ let stuck = ap (walk json names) gone ∙ walk-none names in absurd (cc (stuck, h))
    | inr (w, f) ↦
        nested first names w v missing e f (walk-Leads names w v (sym (ap (walk json names) f) ∙ h))
  ]

  abbrev chosen : Context json → List ℕ → Option Value → Option Value
  chosen ctx path o = elim o [
    | some value ↦ some value
    | none ↦ walk_first json ctx (split b'.' path)
  ]

  resolve_path-StandsAt :
      (ctx : Context json) (path : List ℕ) (v : Value)
      → resolve_path json ctx path ≡ some v
      → StandsAt ctx path v
  unfolding resolve_path
  resolve_path-StandsAt ctx path v h = elim (Option-cases (get ctx path)) [
    | inl missing ↦
        walk_first-StandsAt ctx path (split b'.' path) v missing refl
          (sym (ap (chosen ctx path) missing) ∙ h)
    | inr (w, e) ↦ entry v (e ∙ sym (ap (chosen ctx path) e) ∙ h)
  ]

  StandsAt-resolve_path :
      (ctx : Context json) (path : List ℕ) (v : Value)
      → StandsAt ctx path v
      → resolve_path json ctx path ≡ some v
  unfolding resolve_path walk_first
  StandsAt-resolve_path ctx path _ (entry v e) = ap (chosen ctx path) e
  StandsAt-resolve_path ctx path _ (nested first names w v missing e f rest) =
      ap (chosen ctx path) missing
      ∙ ap (walk_first json ctx) e
      ∙ ap (walk json names) f
      ∙ Leads-walk names w v rest

  abbrev or_default : String → List ℕ → Option Value → Value
  or_default now path o = elim o [
    | some value ↦ value
    | none ↦ if codes_eq path (codes "now") then text now else null
  ]

  pub resolve-Means :
      (ctx : Context json) (now : String) (r : ValueRef json)
      → Means ctx now r (resolve json ctx now r)
  unfolding resolve
  resolve-Means ctx now (literal v) = itself v
  resolve-Means ctx now (context path) = elim (Option-cases (resolve_path json ctx path)) [
    | inr (v, e) ↦
        subst (Means ctx now (context path)) (sym (ap (or_default now path) e))
          (found path v (resolve_path-StandsAt ctx path v e))
    | inl missing ↦
        let empty : (v : Value) → StandsAt ctx path v → ⊥ =
          λ v there. cc (missing, StandsAt-resolve_path ctx path v there) in
        subst (Means ctx now (context path)) (sym (ap (or_default now path) missing))
          (elim (Bool-cases (codes_eq path (codes "now"))) [
            | inl is_now ↦ rw is_now (clock path empty is_now)
            | inr other ↦ rw other (nothing path empty other)
          ])
  ]
