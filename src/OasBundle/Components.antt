-- ===== src/OasBundle/Components.antt =====
-- tools/oas-bundle.rs: the components of the bundle against those of the documents.
use lokan_os.Prelude.{
  true, Option, none, some, List, [], ◌∷◌, ◌++◌, ◌≡◌, sym, subst, All, arith, append-nil,
}
use lokan_os.Prelude.Text.{Text, codes}
use lokan_os.Prelude.Result.{ok, ◌>>=◌, ◌>>◌, >>=-eq-ok}
use lokan_os.OasBundle.Loops.{flat, for_each_lem}
use lokan_os.OasBundle.Lookups.{value_at}
use lokan_os.OasBundle.Values.{Yaml, IndexMap, Unicode, ok_or, and_then}
use lokan_os.OasBundle.{
  Nested, add_kind, add_components, components_in, collect_components, Bundle, empty_bundle,
  add_root, add_document, collect, validate_version, collect_tags, collect_paths,
}
use lokan_os.OasBundle.Kinds.{Component, in_mapping, Stands, add_kind-Stands}

module _ (yaml : Yaml) (index : (V : Type 0) → IndexMap V) (unicode : Unicode) where
  open yaml use {Value, Mapping}

  abbrev in_kind : Value × Value → List (Component yaml index unicode)
  in_kind (key, value) = in_mapping yaml index unicode (yaml.as_str key) (yaml.as_mapping value)

  abbrev in_components : Option Mapping → List (Component yaml index unicode)
  in_components none = []
  in_components (some kinds) = flat in_kind (yaml.entries kinds)

  abbrev in_root : Option Mapping → List (Component yaml index unicode)
  in_root none = []
  in_root (some doc) = in_components (and_then (yaml.field doc (codes "components")) yaml.mapping)

  abbrev in_document : Text × Value → List (Component yaml index unicode)
  in_document (path, doc) = in_root (yaml.as_mapping doc)

  -- All components of the documents, in their order.
  unfoldable pub components : List (Text × Value) → List (Component yaml index unicode)
  unfolding flat
  components docs = flat in_document docs

  module _ (eq_self : (v : Value) → yaml.eq v v ≡ true) where
    read-Stands :
        (path : Text) (combined : Nested yaml index unicode) (message : Text)
        (message' : Text → Text) (named : Option Text) (items : Option Mapping)
        (after : Nested yaml index unicode) (before : List (Component yaml index unicode))
        → All (Stands yaml index unicode (value_at yaml index unicode combined)) before
        → (ok_or named message >>= λ kind.
            ok_or items (message' kind) >>= λ m. add_kind yaml index unicode path combined kind m)
          ≡ ok after
        → All
            (Stands yaml index unicode (value_at yaml index unicode after))
            (before ++ in_mapping yaml index unicode named items)
    read-Stands path combined message message' none items after before h e = absurd (cc e)
    read-Stands path combined message message' (some kind) none after before h e = absurd (cc e)
    read-Stands path combined message message' (some kind) (some items) after before h e =
        add_kind-Stands yaml index unicode eq_self path combined kind items after before h e

    add_components-Stands :
        (path : Text) (combined : Nested yaml index unicode) (entry : Value × Value)
        (after : Nested yaml index unicode) (before : List (Component yaml index unicode))
        → All (Stands yaml index unicode (value_at yaml index unicode combined)) before
        → add_components yaml index unicode path combined entry ≡ ok after
        → All
            (Stands yaml index unicode (value_at yaml index unicode after))
            (before ++ in_kind entry)
    unfolding add_components
    add_components-Stands path combined (key, value) after before h e =
        read-Stands path combined _ _ (yaml.as_str key) (yaml.as_mapping value) after before h e

    components_in-Stands :
        (path : Text) (combined : Nested yaml index unicode) (kinds : Option Mapping)
        (after : Nested yaml index unicode) (before : List (Component yaml index unicode))
        → All (Stands yaml index unicode (value_at yaml index unicode combined)) before
        → components_in yaml index unicode path combined kinds ≡ ok after
        → All
            (Stands yaml index unicode (value_at yaml index unicode after))
            (before ++ in_components kinds)
    unfolding components_in
    components_in-Stands path combined none after before h e =
        let same : combined ≡ after = cc e in
        subst
          (λ (n : Nested yaml index unicode).
            All (Stands yaml index unicode (value_at yaml index unicode n)) (before ++ []))
          same
          (subst (All (Stands yaml index unicode (value_at yaml index unicode combined)))
            (sym (append-nil before)) h)
    components_in-Stands path combined (some kinds) after before h e =
        for_each_lem (λ n cs. All (Stands yaml index unicode (value_at yaml index unicode n)) cs)
          (add_components yaml index unicode path) in_kind (add_components-Stands path) combined
          (yaml.entries kinds) after before h e

    add_root-Stands :
        (path : Text) (bundle : Bundle yaml index unicode) (doc : Mapping)
        (after : Bundle yaml index unicode) (before : List (Component yaml index unicode))
        → All (Stands yaml index unicode (value_at yaml index unicode bundle.components)) before
        → add_root yaml index unicode path bundle doc ≡ ok after
        → All
            (Stands yaml index unicode (value_at yaml index unicode after.components))
            (before ++ in_root (some doc))
    unfolding add_root collect_components
    add_root-Stands path bundle doc after before h e =
        let (tags, e1, r1) =
          >>=-eq-ok
            (validate_version yaml index unicode path doc
              >> collect_tags yaml index unicode path doc bundle.tags)
            _ e in
        let (merged, e2, r2) =
          >>=-eq-ok (collect_components yaml index unicode path doc bundle.components) _ r1 in
        let (paths, e3, r3) =
          >>=-eq-ok (collect_paths yaml index unicode path doc (bundle.paths, bundle.operation_ids))
            _ r2 in
        let kept : merged ≡ after.components = ground (arith, r3) in
        subst
          (λ (n : Nested yaml index unicode).
            All (Stands yaml index unicode (value_at yaml index unicode n))
              (before ++ in_root (some doc)))
          kept
          (components_in-Stands path bundle.components
            (and_then (yaml.field doc (codes "components")) yaml.mapping) merged before h e2)

    root-Stands :
        (path message : Text) (bundle : Bundle yaml index unicode) (doc : Option Mapping)
        (after : Bundle yaml index unicode) (before : List (Component yaml index unicode))
        → All (Stands yaml index unicode (value_at yaml index unicode bundle.components)) before
        → (ok_or doc message >>= add_root yaml index unicode path bundle) ≡ ok after
        → All
            (Stands yaml index unicode (value_at yaml index unicode after.components))
            (before ++ in_root doc)
    root-Stands path message bundle none after before h e = absurd (cc e)
    root-Stands path message bundle (some doc) after before h e =
        add_root-Stands path bundle doc after before h e

    add_document-Stands :
        (bundle : Bundle yaml index unicode) (doc : Text × Value)
        (after : Bundle yaml index unicode) (before : List (Component yaml index unicode))
        → All (Stands yaml index unicode (value_at yaml index unicode bundle.components)) before
        → add_document yaml index unicode bundle doc ≡ ok after
        → All
            (Stands yaml index unicode (value_at yaml index unicode after.components))
            (before ++ in_document doc)
    unfolding add_document
    add_document-Stands bundle (path, doc) after before h e =
        root-Stands path _ bundle (yaml.as_mapping doc) after before h e

    -- Let each value be equal to itself. When the documents go into one bundle, each component of
    -- theirs stands there under its kind and its name, as it is or as one that is equal to it.
    pub collect-Stands :
        (docs : List (Text × Value)) (bundle : Bundle yaml index unicode)
        → collect yaml index unicode docs ≡ ok bundle
        → All
            (Stands yaml index unicode (value_at yaml index unicode bundle.components))
            (components docs)
    unfolding collect components
    collect-Stands [] bundle e = absurd (cc e)
    collect-Stands (doc ∷ docs) bundle e =
        for_each_lem
          (λ (b : Bundle yaml index unicode) (cs : List (Component yaml index unicode)).
            All (Stands yaml index unicode (value_at yaml index unicode b.components)) cs)
          (add_document yaml index unicode) in_document add_document-Stands
          (empty_bundle yaml index unicode) (doc ∷ docs) bundle [] tt e
