-- ===== src/OasBundle/Kinds.antt =====
-- tools/oas-bundle.rs: the components of one kind, such as the schemas.
use lokan_os.Prelude.{
  true, Option, none, some, List, [], ◌∷◌, ◌++◌, ◌≡◌, refl, subst, ◌∙◌, All, arith,
}
use lokan_os.Prelude.Text.{Text}
use lokan_os.Prelude.Keys.{codes_eq_iff, codes_eq_refl}
use lokan_os.Prelude.Result.{ok, ◌>>=◌, >>=-eq-ok}
use lokan_os.OasBundle.Loops.{flat, for_each_lem, All-append, All-map}
use lokan_os.OasBundle.Lookups.{
  value_at, look_in, look_in-bucket_of, value_at-insert, look_in-insert,
}
use lokan_os.OasBundle.Values.{Yaml, IndexMap, Unicode, for_each, ok_or}
use lokan_os.OasBundle.{Nested, Entries, bucket_of, put_component, add_component, add_kind}

module _ (yaml : Yaml) (index : (V : Type 0) → IndexMap V) (unicode : Unicode) where
  open yaml use {Value, Mapping}

  -- A component of a document, such as the schema of a device.
  pub record Component : Type 0 where
    pub kind : Text
    pub name : Text
    pub value : Value

  abbrev component : Text → Value → Option Text → List Component
  component kind value none = []
  component kind value (some name) = record { kind = kind; name = name; value = value } ∷ []

  abbrev in_entry : Text → Value × Value → List Component
  in_entry kind (key, value) = component kind value (yaml.as_str key)

  abbrev pub in_mapping : Option Text → Option Mapping → List Component
  in_mapping (some kind) (some items) = flat (in_entry kind) (yaml.entries items)
  in_mapping none items = []
  in_mapping (some kind) none = []

  -- A component stands in a map by kind and name as it is, or as one that is equal.
  abbrev pub Stands : (Text → Text → Option Value) → Component → Type 0
  Stands look c = (v : Value) × (look c.kind c.name ≡ some v) × (yaml.eq v c.value ≡ true)

  Stands-eq :
      {look look' : Text → Text → Option Value} (cs : List Component)
      → ((k n : Text) → look' k n ≡ look k n)
      → All (Stands look) cs
      → All (Stands look') cs
  Stands-eq cs same h = All-map _ _ cs (λ c s. (s.0, same c.kind c.name ∙ s.1, s.2)) h

  module _ (eq_self : (v : Value) → yaml.eq v v ≡ true) where
    put_component-Stands :
        (combined : Nested yaml index unicode) (path kind : Text)
        (bucket : Entries yaml index unicode) (name : Text) (item : Value) (existing : Option Value)
        (bucket' : Entries yaml index unicode) (before : List Component)
        → (index Value).get bucket name ≡ existing
        → All (Stands (look_in yaml index unicode combined kind bucket)) before
        → put_component yaml index unicode path bucket name item existing ≡ ok bucket'
        → All
            (Stands (look_in yaml index unicode combined kind bucket'))
            (before ++ component kind item (some name))
    unfolding put_component
    put_component-Stands combined path kind bucket name item none bucket' before found h e =
        let same : (index Value).insert bucket name item ≡ bucket' = cc e in
        let changed = look_in-insert yaml index unicode combined kind bucket name item in
        subst
          (λ b.
            All (Stands (look_in yaml index unicode combined kind b))
              (before ++ component kind item (some name)))
          same
          (All-append _ before (component kind item (some name))
            (All-map _ _ before
              (λ c s. (
                s.0,
                changed c.kind c.name
                    ∙ ground
                        (arith, s.1, found, codes_eq_iff name c.name, codes_eq_iff kind c.kind),
                s.2,
              ))
              h)
            (
              (
                item,
                changed kind name ∙ rw (codes_eq_refl kind, codes_eq_refl name) refl,
                eq_self item,
              ),
              tt,
            ))
    put_component-Stands combined path kind bucket name item (some ex) bucket' before found h e =
        let alike : yaml.eq ex item ≡ true = ground (arith, e) in
        let same : bucket ≡ bucket' = ground (arith, e) in
        subst
          (λ b.
            All (Stands (look_in yaml index unicode combined kind b))
              (before ++ component kind item (some name)))
          same
          (All-append _ before (component kind item (some name)) h
            ((ex, rw (codes_eq_refl kind) found, alike), tt))

    named-Stands :
        (combined : Nested yaml index unicode) (path kind message : Text)
        (bucket : Entries yaml index unicode) (item : Value) (named : Option Text)
        (bucket' : Entries yaml index unicode) (before : List Component)
        → All (Stands (look_in yaml index unicode combined kind bucket)) before
        → (ok_or named message >>= λ name.
            put_component yaml index unicode path bucket name item ((index Value).get bucket name))
          ≡ ok bucket'
        → All
            (Stands (look_in yaml index unicode combined kind bucket'))
            (before ++ component kind item named)
    named-Stands combined path kind message bucket item none bucket' before h e = absurd (cc e)
    named-Stands combined path kind message bucket item (some name) bucket' before h e =
        put_component-Stands combined path kind bucket name item ((index Value).get bucket name)
          bucket' before refl h e

    add_component-Stands :
        (combined : Nested yaml index unicode) (path kind : Text)
        (bucket : Entries yaml index unicode) (entry : Value × Value)
        (bucket' : Entries yaml index unicode) (before : List Component)
        → All (Stands (look_in yaml index unicode combined kind bucket)) before
        → add_component yaml index unicode path bucket entry ≡ ok bucket'
        → All
            (Stands (look_in yaml index unicode combined kind bucket'))
            (before ++ in_entry kind entry)
    unfolding add_component
    add_component-Stands combined path kind bucket (key, item) bucket' before h e =
        named-Stands combined path kind _ bucket item (yaml.as_str key) bucket' before h e

    pub add_kind-Stands :
        (path : Text) (combined : Nested yaml index unicode) (kind : Text) (items : Mapping)
        (after : Nested yaml index unicode) (before : List Component)
        → All (Stands (value_at yaml index unicode combined)) before
        → add_kind yaml index unicode path combined kind items ≡ ok after
        → All
            (Stands (value_at yaml index unicode after))
            (before ++ in_mapping (some kind) (some items))
    unfolding add_kind
    add_kind-Stands path combined kind items after before h e =
        let body = add_component yaml index unicode path in
        let start = bucket_of yaml index unicode combined kind in
        let (filled, loop, put) = >>=-eq-ok (for_each body start (yaml.entries items)) _ e in
        let added = flat (in_entry kind) (yaml.entries items) in
        let inside =
          for_each_lem (λ b cs. All (Stands (look_in yaml index unicode combined kind b)) cs) body
            (in_entry kind) (λ b entry b' cs. add_component-Stands combined path kind b entry b' cs)
            start (yaml.entries items) filled before
            (Stands-eq before (look_in-bucket_of yaml index unicode combined kind) h) loop in
        let done : (index (Entries yaml index unicode)).insert combined kind filled ≡ after =
          cc put in
        subst
          (λ (n : Nested yaml index unicode).
            All (Stands (value_at yaml index unicode n)) (before ++ added))
          done
          (Stands-eq (before ++ added) (value_at-insert yaml index unicode combined kind filled)
            inside)
