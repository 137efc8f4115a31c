-- ===== src/OasBundle.antt =====
-- tools/oas-bundle.rs: the OpenAPI documents of the services in one. The documents come read and
-- sorted; the files themselves, and what is printed, are left out. serde_yaml, indexmap and the
-- tables of Unicode are parameters.

pub mod Values
pub mod Loops
pub mod Lookups
pub mod Operations
pub mod Kinds
pub mod Components
pub mod Tests
use lokan_os.Prelude.{
  Bool, true, false, not, ◌&&◌, Option, none, some, List, [], ◌∷◌, ◌++◌, map, if◌then◌else◌, any,
  ◌≡◌,
}
use lokan_os.Prelude.Text.{Text, codes, codes_eq}
use lokan_os.Prelude.Dict.{unwrap_or}
use lokan_os.Prelude.Result.{Result, ok, err, ◌>>=◌, ◌>>◌}
use lokan_os.OasBundle.Values.{
  Yaml, IndexMap, Unicode, for_each, ok_or, and_then, is_none, contains, starts_with,
}

module _ (yaml : Yaml) (index : (V : Type 0) → IndexMap V) (unicode : Unicode) where
  open yaml use {Value, Mapping}

  abbrev pub Entries : Type 0
  Entries = (index Value).Map

  abbrev pub Nested : Type 0
  Nested = (index Entries).Map

  -- map.entry(key).or_insert_with(IndexMap::new)
  abbrev pub bucket_of : Nested → Text → Entries
  bucket_of combined key = unwrap_or ((index Entries).get combined key) (index Value).empty

  version_of : Text → Option Text → Option Value → Result Text (Unit {0})
  version_of path (some version) declared =
      if starts_with version (codes "3.1")
      then ok tt
      else err (path ++ codes " declares unsupported OpenAPI version " ++ version)
  version_of path none declared =
      err (path ++ codes " is missing the required 'openapi' version field")

  unfoldable pub validate_version : Text → Mapping → Result Text (Unit {0})
  unfolding version_of
  validate_version path doc =
      let declared = yaml.field doc (codes "openapi") in
      version_of path (and_then declared yaml.string) declared

  add_tag : Text → Entries → Value → Result Text Entries
  add_tag path combined tag =
      ok_or (yaml.as_mapping tag) (path ++ codes " contains a non-object tag entry") >>= λ tag_map.
      ok_or (and_then (yaml.field tag_map (codes "name")) yaml.string)
        (path ++ codes " defines a tag without the required 'name' field")
      >>= λ name. ok (
          if is_none ((index Value).get combined name)
          then (index Value).insert combined name tag
          else combined)

  tags_in : Text → Entries → Option (List Value) → Result Text Entries
  unfolding for_each add_tag
  tags_in path combined none = ok combined
  tags_in path combined (some tags) = for_each (add_tag path) combined tags

  unfoldable pub collect_tags : Text → Mapping → Entries → Result Text Entries
  unfolding tags_in
  collect_tags path doc combined =
      tags_in path combined (and_then (yaml.field doc (codes "tags")) yaml.sequence)

  -- An item of a bucket is new, or equal to the one that is there.
  pub put_component : Text → Entries → Text → Value → Option Value → Result Text Entries
  put_component path bucket name item none = ok ((index Value).insert bucket name item)
  put_component path bucket name item (some existing) =
      if not (yaml.eq existing item)
      then err (
          path
          ++ codes " defines component '"
          ++ name
          ++ codes "' which conflicts with an existing definition")
      else ok bucket

  pub add_component : Text → Entries → Value × Value → Result Text Entries
  unfolding put_component
  add_component path bucket (name_value, item) =
      ok_or (yaml.as_str name_value) (path ++ codes " component name must be a string") >>= λ name.
      put_component path bucket name item ((index Value).get bucket name)

  pub add_kind : Text → Nested → Text → Mapping → Result Text Nested
  unfolding for_each add_component
  add_kind path combined comp_type entries_map =
      for_each (add_component path) (bucket_of combined comp_type) (yaml.entries entries_map)
      >>= λ bucket. ok ((index Entries).insert combined comp_type bucket)

  pub add_components : Text → Nested → Value × Value → Result Text Nested
  unfolding add_kind
  add_components path combined (type_value, entries_value) =
      ok_or (yaml.as_str type_value) (path ++ codes " has a non-string components key")
      >>= λ comp_type.
          ok_or (yaml.as_mapping entries_value)
            (path ++ codes " component '" ++ comp_type ++ codes "' must be a mapping")
          >>= λ entries_map. add_kind path combined comp_type entries_map

  pub components_in : Text → Nested → Option Mapping → Result Text Nested
  unfolding for_each add_components
  components_in path combined none = ok combined
  components_in path combined (some components) =
      for_each (add_components path) combined (yaml.entries components)

  unfoldable pub collect_components : Text → Mapping → Nested → Result Text Nested
  unfolding components_in
  collect_components path doc combined =
      components_in path combined (and_then (yaml.field doc (codes "components")) yaml.mapping)

  -- The operationId of an operation.
  abbrev pub operation_id_of : Mapping → Option Text
  operation_id_of operation = and_then (yaml.field operation (codes "operationId")) yaml.as_str

  -- `{path} path '{path_str}' method '{method}'`
  abbrev place_of : Text → Text → Text → Text
  place_of path path_str method =
      path ++ codes " path '" ++ path_str ++ codes "' method '" ++ method ++ codes "'"

  -- Refused, if the test holds.
  abbrev pub refuse_if : Bool → Text → Result Text (Unit {0})
  refuse_if true message = err message
  refuse_if false message = ok tt

  -- The checks of an operation, which give its id.
  pub new_id : Text → Text → Entries → List Text → Text → Value → Result Text Text
  new_id path path_str bucket operation_ids method operation_value =
      refuse_if (not (is_none ((index Value).get bucket method))) (
        codes "duplicate definition for "
        ++ unicode.to_uppercase method
        ++ codes " "
        ++ path_str
        ++ codes " in "
        ++ path)
      >> ok_or (yaml.as_mapping operation_value)
          (place_of path path_str method ++ codes " must define an object")
      >>= λ operation.
          ok_or (operation_id_of operation)
            (place_of path path_str method ++ codes " is missing an operationId")
          >>= λ operation_id.
              refuse_if (contains operation_ids operation_id)
                (codes "duplicate operationId '" ++ operation_id ++ codes "' detected")
              >> ok operation_id

  pub put_operation :
      Text → Text → Entries × List Text → Value → Text → Result Text (Entries × List Text)
  unfolding new_id
  put_operation path path_str (bucket, operation_ids) operation_value spelled =
      new_id path path_str bucket operation_ids (unicode.to_lowercase spelled) operation_value
      >>= λ operation_id. ok (
        (index Value).insert bucket (unicode.to_lowercase spelled) operation_value,
        operation_id ∷ operation_ids,
      )

  pub add_operation :
      Text → Text → Entries × List Text → Value × Value → Result Text (Entries × List Text)
  unfolding put_operation
  add_operation path path_str collected (method_key, operation_value) =
      ok_or (yaml.as_str method_key)
        (path ++ codes " path '" ++ path_str ++ codes "' uses a non-string HTTP method")
      >>= λ spelled. put_operation path path_str collected operation_value spelled

  pub add_item : Text → Nested → List Text → Text → Mapping → Result Text (Nested × List Text)
  unfolding for_each add_operation
  add_item path combined operation_ids path_str path_item =
      for_each (add_operation path path_str) (bucket_of combined path_str, operation_ids)
        (yaml.entries path_item)
      >>= λ (bucket, ids). ok ((index Entries).insert combined path_str bucket, ids)

  pub add_path : Text → Nested × List Text → Value × Value → Result Text (Nested × List Text)
  unfolding add_item
  add_path path (combined, operation_ids) (path_key, path_item_value) =
      ok_or (yaml.as_str path_key) (path ++ codes " path keys must be strings") >>= λ path_str.
      ok_or (yaml.as_mapping path_item_value)
        (path ++ codes " path '" ++ path_str ++ codes "' must map to an object")
      >>= λ path_item. add_item path combined operation_ids path_str path_item

  pub paths_in : Text → Nested × List Text → Option Mapping → Result Text (Nested × List Text)
  unfolding for_each add_path
  paths_in path combined none = ok combined
  paths_in path combined (some paths) = for_each (add_path path) combined (yaml.entries paths)

  unfoldable pub collect_paths :
      Text → Mapping → Nested × List Text → Result Text (Nested × List Text)
  unfolding paths_in
  collect_paths path doc combined =
      paths_in path combined (and_then (yaml.field doc (codes "paths")) yaml.mapping)

  pub record Bundle : Type 0 where
    pub paths : Nested
    pub components : Nested
    pub tags : Entries
    pub operation_ids : List Text

  unfoldable pub empty_bundle : Bundle
  empty_bundle = record {
    paths = (index Entries).empty;
    components = (index Entries).empty;
    tags = (index Value).empty;
    operation_ids = [];
  }

  pub add_root : Text → Bundle → Mapping → Result Text Bundle
  unfolding validate_version collect_tags collect_components collect_paths
  add_root path bundle doc_map =
      validate_version path doc_map >> collect_tags path doc_map bundle.tags >>= λ tags.
      collect_components path doc_map bundle.components >>= λ components.
      collect_paths path doc_map (bundle.paths, bundle.operation_ids) >>= λ (paths, operation_ids).
      ok record {
        paths = paths;
        components = components;
        tags = tags;
        operation_ids = operation_ids;
      }

  -- One document.
  unfoldable pub add_document : Bundle → Text × Value → Result Text Bundle
  unfolding add_root
  add_document bundle (path, doc) =
      ok_or (yaml.as_mapping doc) (path ++ codes " must be a YAML mapping at the root")
      >>= add_root path bundle

  -- All documents, of which there is one at least.
  unfoldable pub collect : List (Text × Value) → Result Text Bundle
  unfolding for_each add_document empty_bundle
  collect [] = err (codes "no service OpenAPI documents were discovered")
  collect (doc ∷ docs) = for_each add_document empty_bundle (doc ∷ docs)

  abbrev some_of : {A : Type 0} → Text → List A → Value → List (Text × Value)
  some_of key [] value = []
  some_of key (x ∷ xs) value = (key, value) ∷ []

  nested_value : Nested → Value
  nested_value nested = yaml.object (
      map (λ (key, bucket). (key, yaml.object ((index Value).entries bucket)))
        ((index Entries).entries nested))

  -- The value that is written.
  unfoldable pub bundle_value : Bundle → Value
  unfolding nested_value
  bundle_value bundle = yaml.object (
      (codes "openapi", yaml.text (codes "3.1.0"))
      ∷ (
        codes "info",
        yaml.object (
            (codes "title", yaml.text (codes "LokanOS API Bundle"))
            ∷ (codes "version", yaml.text (codes "0.1.0"))
            ∷ []),
      )
      ∷ (some_of (codes "tags") ((index Value).entries bundle.tags)
            (yaml.list (map (λ (name, tag). tag) ((index Value).entries bundle.tags)))
          ++ (codes "paths", nested_value bundle.paths)
            ∷ some_of (codes "components") ((index Entries).entries bundle.components)
                (nested_value bundle.components)))
