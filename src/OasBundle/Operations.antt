-- ===== src/OasBundle/Operations.antt =====
-- tools/oas-bundle.rs: the operations of the documents, and a map that has just these.
pub mod Items
pub mod Collected
use lokan_os.Prelude.{
  Bool, false, not, ◌&&◌, ◌||◌, Option, none, some, List, [], ◌∷◌, ◌++◌, map, if◌then◌else◌, any,
  ◌≡◌, refl, sym, ap, subst, ◌∙◌, All, arith, append-nil, inl, inr, Bool-cases, Option-cases,
}
use lokan_os.Prelude.Text.{Text, codes, codes_eq}
use lokan_os.Prelude.Keys.{codes_eq_iff, codes_eq_refl}
use lokan_os.Prelude.Dict.{unwrap_or}
use lokan_os.Prelude.Result.{ok, ◌>>=◌, ◌>>◌, >>=-eq-ok}
use lokan_os.OasBundle.Loops.{flat, for_each_lem, All-append, All-map}
use lokan_os.OasBundle.Values.{
  Yaml, IndexMap, Unicode, for_each, ok_or, and_then, is_none, contains,
}
use lokan_os.OasBundle.{
  Nested, Entries, bucket_of, operation_id_of, new_id, put_operation, add_operation, add_item,
  add_path, paths_in, collect_paths, Bundle, empty_bundle, add_root, add_document, collect,
  validate_version, collect_tags, collect_components,
}

-- No text stands twice.
abbrev pub Distinct : List Text → Type 0
Distinct [] = Unit
Distinct (k ∷ ks) = (contains ks k ≡ false) × Distinct ks

any-append :
    {A : Type 0} (test : A → Bool) (xs ys : List A)
    → any test (xs ++ ys) ≡ (any test xs || any test ys)
any-append test [] ys = refl
any-append test (x ∷ xs) ys = ground (arith, any-append test xs ys)

Distinct-append :
    (ks : List Text) (k : Text) → contains ks k ≡ false → Distinct ks → Distinct (ks ++ k ∷ [])
Distinct-append [] k h d = (refl, tt)
Distinct-append (j ∷ ks) k h (new, d) = (
  ground (arith, any-append (codes_eq j) ks (k ∷ []), codes_eq_iff j k, codes_eq_iff k j),
  Distinct-append ks k (ground (arith, h)) d,
)

map-append : {A B : Type 0} (f : A → B) (xs ys : List A) → map f (xs ++ ys) ≡ map f xs ++ map f ys
map-append f [] ys = refl
map-append f (x ∷ xs) ys = ap (◌∷◌ (f x)) (map-append f xs ys)

module _ (yaml : Yaml) (index : (V : Type 0) → IndexMap V) (unicode : Unicode) where
  open yaml use {Value, Mapping}

  -- An operation of a document: its path, its method in lower case, and what stands there.
  pub record Operation : Type 0 where
    pub path : Text
    pub method : Text
    pub value : Value

  -- The operationId of an operation, empty if it has none.
  abbrev pub id_of : Operation → Text
  id_of o = unwrap_or (and_then (yaml.as_mapping o.value) (operation_id_of yaml index unicode)) []

  abbrev pub operation : Text → Value → Option Text → List Operation
  operation path value none = []
  operation path value (some spelled) =
      record { path = path; method = unicode.to_lowercase spelled; value = value } ∷ []

  abbrev pub in_entry : Text → Value × Value → List Operation
  in_entry path (key, value) = operation path value (yaml.as_str key)

  abbrev pub in_mapping : Option Text → Option Mapping → List Operation
  in_mapping (some path) (some item) = flat (in_entry path) (yaml.entries item)
  in_mapping none item = []
  in_mapping (some path) none = []

  abbrev pub in_path : Value × Value → List Operation
  in_path (key, value) = in_mapping (yaml.as_str key) (yaml.as_mapping value)

  abbrev pub in_paths : Option Mapping → List Operation
  in_paths none = []
  in_paths (some paths) = flat in_path (yaml.entries paths)

  abbrev pub in_root : Option Mapping → List Operation
  in_root none = []
  in_root (some doc) = in_paths (and_then (yaml.field doc (codes "paths")) yaml.mapping)

  abbrev pub in_document : Text × Value → List Operation
  in_document (path, doc) = in_root (yaml.as_mapping doc)

  -- All operations of the documents, in their order.
  unfoldable pub operations : List (Text × Value) → List Operation
  unfolding flat
  operations docs = flat in_document docs

  -- Whether this is the place of the operation.
  abbrev pub stands_at : Text → Text → Operation → Bool
  stands_at path method o = codes_eq o.path path && codes_eq o.method method

  -- A map of operations by path and method that has just these, with their ids apart.
  pub record Holds (look : Text → Text → Option Value) (ids : List Text) (ops : List Operation)
      : Type 0 where
    pub complete : All (λ (o : Operation). look o.path o.method ≡ some o.value) ops
    pub exact : (p m : Text) → not (is_none (look p m)) ≡ any (stands_at p m) ops
    pub distinct : Distinct (map id_of ops)
    pub known : (k : Text) → contains ids k ≡ contains (map id_of ops) k

  pub Holds-eq :
      {look look' : Text → Text → Option Value} {ids : List Text} {ops : List Operation}
      → ((p m : Text) → look' p m ≡ look p m)
      → Holds look ids ops
      → Holds look' ids ops
  Holds-eq same h = record {
    complete = All-map _ _ _ (λ o e. same o.path o.method ∙ e) h.complete;
    exact = λ p m. ap (λ o. not (is_none o)) (same p m) ∙ h.exact p m;
    distinct = h.distinct;
    known = h.known;
  }

  pub Holds-add :
      {look look' : Text → Text → Option Value} {ids : List Text} {ops : List Operation}
      (o : Operation)
      → look o.path o.method ≡ none
      → contains ids (id_of o) ≡ false
      → ((p m : Text) → look' p m ≡ (if stands_at p m o then some o.value else look p m))
      → Holds look ids ops
      → Holds look' (id_of o ∷ ids) (ops ++ o ∷ [])
  Holds-add {look} {look'} {ids} {ops} o absent new changed h = record {
    complete =
        All-append _ ops (o ∷ [])
          (All-map _ _ ops
            (λ q e.
              changed q.path q.method
              ∙ ground
                  (arith, codes_eq_iff o.path q.path, codes_eq_iff o.method q.method, e, absent))
            h.complete)
          (
            changed o.path o.method
                ∙ ground (arith, codes_eq_iff o.path o.path, codes_eq_iff o.method o.method),
            tt,
          );
    exact = λ p m.
        ap (λ r. not (is_none r)) (changed p m)
        ∙ ground (arith, h.exact p m, any-append (stands_at p m) ops (o ∷ []));
    distinct =
        rw (map-append id_of ops (o ∷ []))
          (Distinct-append (map id_of ops) (id_of o) (sym (h.known (id_of o)) ∙ new) h.distinct);
    known = λ k.
        rw (map-append id_of ops (o ∷ []))
          (ground (arith, any-append (codes_eq k) (map id_of ops) (id_of o ∷ []), h.known k));
  }
