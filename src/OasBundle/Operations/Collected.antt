-- ===== src/OasBundle/Operations/Collected.antt =====
-- tools/oas-bundle.rs: the operations of the bundle against those of the documents.
use lokan_os.Prelude.{
  not, Option, none, some, List, [], ◌∷◌, ◌++◌, map, any, ◌≡◌, refl, sym, subst, All, arith,
  append-nil,
}
use lokan_os.Prelude.Text.{Text, codes}
use lokan_os.Prelude.Result.{ok, ◌>>=◌, ◌>>◌, >>=-eq-ok}
use lokan_os.OasBundle.Loops.{for_each_lem}
use lokan_os.OasBundle.Values.{Yaml, IndexMap, Unicode, ok_or, and_then, is_none}
use lokan_os.OasBundle.{
  Nested, Entries, add_item, add_path, paths_in, collect_paths, Bundle, empty_bundle, add_root,
  add_document, collect, validate_version, collect_tags, collect_components,
}
use lokan_os.OasBundle.Lookups.{value_at}
use lokan_os.OasBundle.Operations.{
  Operation, operations, in_mapping, in_path, in_paths, in_root, in_document, stands_at, id_of,
  Distinct, Holds,
}
use lokan_os.OasBundle.Operations.Items.{item-Holds}

module _ (yaml : Yaml) (index : (V : Type 0) → IndexMap V) (unicode : Unicode) where
  open yaml use {Value, Mapping}

  read-Holds :
      (path : Text) (combined : Nested yaml index unicode) (ids : List Text) (message : Text)
      (message' : Text → Text) (named : Option Text) (item : Option Mapping)
      (s' : Nested yaml index unicode × List Text) (before : List (Operation yaml index unicode))
      → Holds yaml index unicode (value_at yaml index unicode combined) ids before
      → (ok_or named message >>= λ path_str. ok_or item (message' path_str) >>= λ m.
          add_item yaml index unicode path combined ids path_str m)
        ≡ ok s'
      → Holds yaml index unicode
          (value_at yaml index unicode s'.0)
          s'.1
          (before ++ in_mapping yaml index unicode named item)
  read-Holds path combined ids message message' none item s' before h e = absurd (cc e)
  read-Holds path combined ids message message' (some p) none s' before h e = absurd (cc e)
  read-Holds path combined ids message message' (some p) (some item) s' before h e =
      item-Holds yaml index unicode path combined ids p item s' before h e

  add_path-Holds :
      (path : Text) (s : Nested yaml index unicode × List Text) (entry : Value × Value)
      (s' : Nested yaml index unicode × List Text) (before : List (Operation yaml index unicode))
      → Holds yaml index unicode (value_at yaml index unicode s.0) s.1 before
      → add_path yaml index unicode path s entry ≡ ok s'
      → Holds yaml index unicode
          (value_at yaml index unicode s'.0)
          s'.1
          (before ++ in_path yaml index unicode entry)
  unfolding add_path
  add_path-Holds path (combined, ids) (key, value) s' before h e =
      read-Holds path combined ids _ _ (yaml.as_str key) (yaml.as_mapping value) s' before h e

  paths_in-Holds :
      (path : Text) (s : Nested yaml index unicode × List Text) (paths : Option Mapping)
      (s' : Nested yaml index unicode × List Text) (before : List (Operation yaml index unicode))
      → Holds yaml index unicode (value_at yaml index unicode s.0) s.1 before
      → paths_in yaml index unicode path s paths ≡ ok s'
      → Holds yaml index unicode
          (value_at yaml index unicode s'.0)
          s'.1
          (before ++ in_paths yaml index unicode paths)
  unfolding paths_in
  paths_in-Holds path s none s' before h e =
      let same : s ≡ s' = cc e in
      subst
        (λ (t : Nested yaml index unicode × List Text).
          Holds yaml index unicode (value_at yaml index unicode t.0) t.1 (before ++ []))
        same
        (subst (Holds yaml index unicode (value_at yaml index unicode s.0) s.1)
          (sym (append-nil before)) h)
  paths_in-Holds path s (some paths) s' before h e =
      for_each_lem (λ t ops. Holds yaml index unicode (value_at yaml index unicode t.0) t.1 ops)
        (add_path yaml index unicode path) (in_path yaml index unicode) (add_path-Holds path) s
        (yaml.entries paths) s' before h e

  add_root-Holds :
      (path : Text) (bundle : Bundle yaml index unicode) (doc : Mapping)
      (after : Bundle yaml index unicode) (before : List (Operation yaml index unicode))
      → Holds yaml index unicode
          (value_at yaml index unicode bundle.paths)
          bundle.operation_ids
          before
      → add_root yaml index unicode path bundle doc ≡ ok after
      → Holds yaml index unicode
          (value_at yaml index unicode after.paths)
          after.operation_ids
          (before ++ in_root yaml index unicode (some doc))
  unfolding add_root collect_paths
  add_root-Holds path bundle doc after before h e =
      let (tags, e1, r1) =
        >>=-eq-ok
          (validate_version yaml index unicode path doc
            >> collect_tags yaml index unicode path doc bundle.tags)
          _ e in
      let (components, e2, r2) =
        >>=-eq-ok (collect_components yaml index unicode path doc bundle.components) _ r1 in
      let (paths, e3, r3) =
        >>=-eq-ok (collect_paths yaml index unicode path doc (bundle.paths, bundle.operation_ids)) _
          r2 in
      let collected : Bundle yaml index unicode = record {
        paths = paths.0;
        components = components;
        tags = tags;
        operation_ids = paths.1;
      } in
      let same : collected ≡ after = cc r3 in
      subst
        (λ (b : Bundle yaml index unicode).
          Holds yaml index unicode (value_at yaml index unicode b.paths) b.operation_ids
            (before ++ in_root yaml index unicode (some doc)))
        same
        (paths_in-Holds path (bundle.paths, bundle.operation_ids)
          (and_then (yaml.field doc (codes "paths")) yaml.mapping) paths before h e3)

  root-Holds :
      (path message : Text) (bundle : Bundle yaml index unicode) (doc : Option Mapping)
      (after : Bundle yaml index unicode) (before : List (Operation yaml index unicode))
      → Holds yaml index unicode
          (value_at yaml index unicode bundle.paths)
          bundle.operation_ids
          before
      → (ok_or doc message >>= add_root yaml index unicode path bundle) ≡ ok after
      → Holds yaml index unicode
          (value_at yaml index unicode after.paths)
          after.operation_ids
          (before ++ in_root yaml index unicode doc)
  root-Holds path message bundle none after before h e = absurd (cc e)
  root-Holds path message bundle (some doc) after before h e =
      add_root-Holds path bundle doc after before h e

  add_document-Holds :
      (bundle : Bundle yaml index unicode) (doc : Text × Value) (after : Bundle yaml index unicode)
      (before : List (Operation yaml index unicode))
      → Holds yaml index unicode
          (value_at yaml index unicode bundle.paths)
          bundle.operation_ids
          before
      → add_document yaml index unicode bundle doc ≡ ok after
      → Holds yaml index unicode
          (value_at yaml index unicode after.paths)
          after.operation_ids
          (before ++ in_document yaml index unicode doc)
  unfolding add_document
  add_document-Holds bundle (path, doc) after before h e =
      root-Holds path _ bundle (yaml.as_mapping doc) after before h e

  empty_bundle-Holds :
      Holds yaml index unicode
        (value_at yaml index unicode (empty_bundle yaml index unicode).paths)
        (empty_bundle yaml index unicode).operation_ids
        []
  unfolding empty_bundle
  empty_bundle-Holds = record {
    complete = tt;
    exact = λ p m. ground (arith, (index (Entries yaml index unicode)).get-empty p);
    distinct = tt;
    known = λ k. refl;
  }

  -- When the documents go into one bundle: each operation of theirs stands in the bundle as it
  -- stands in its document, under its path and its method in lower case; at any other path and
  -- method nothing stands; and no two of the operations have the same operationId.
  pub collect_lem :
      (docs : List (Text × Value)) (bundle : Bundle yaml index unicode) (path method : Text)
      → collect yaml index unicode docs ≡ ok bundle
      → All
          (λ (o : Operation yaml index unicode).
            value_at yaml index unicode bundle.paths o.path o.method ≡ some o.value)
          (operations yaml index unicode docs)
        × (not (is_none (value_at yaml index unicode bundle.paths path method))
            ≡ any (stands_at yaml index unicode path method) (operations yaml index unicode docs))
        × Distinct (map (id_of yaml index unicode) (operations yaml index unicode docs))
  unfolding collect operations
  collect_lem [] bundle path method e = absurd (cc e)
  collect_lem (doc ∷ docs) bundle path method e =
      let h =
        for_each_lem
          (λ (b : Bundle yaml index unicode) (ops : List (Operation yaml index unicode)).
            Holds yaml index unicode (value_at yaml index unicode b.paths) b.operation_ids ops)
          (add_document yaml index unicode) (in_document yaml index unicode) add_document-Holds
          (empty_bundle yaml index unicode) (doc ∷ docs) bundle [] empty_bundle-Holds e in
      (h.complete, h.exact path method, h.distinct)
