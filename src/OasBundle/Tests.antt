-- ===== src/OasBundle/Tests.antt =====
-- tools/oas-bundle.rs: two documents by example.
use lokan_os.Prelude.{
  String, Bool, true, false, not, ◌&&◌, Option, none, some, List, [], ◌∷◌, map, if◌then◌else◌, any,
  ◌≡◌, refl, All, arith,
}
use lokan_os.Prelude.Text.{Text, codes, codes_eq, to_ascii_lowercase}
use lokan_os.Prelude.Keys.{codes_key, codes_eq_refl}
use lokan_os.Prelude.Dict.{Dict, get, insert, get-insert}
use lokan_os.Prelude.Result.{ok, err}
use lokan_os.OasBundle.Values.{Yaml, IndexMap, Unicode, is_none}
use lokan_os.OasBundle.{Bundle, collect}
use lokan_os.OasBundle.Kinds.{Stands}
use lokan_os.OasBundle.Components.{components, collect-Stands}
use lokan_os.OasBundle.Operations.{Operation, operations, stands_at, id_of, Distinct}
use lokan_os.OasBundle.Operations.Collected.{collect_lem}
use lokan_os.OasBundle.Lookups.{value_at}

mutual
  data Node : Type 0 where
    text : Text → Node
    list : Nodes → Node
    object : Fields → Node

  data Nodes : Type 0 where
    end : Nodes
    node : Node → Nodes → Nodes

  data Fields : Type 0 where
    none_left : Fields
    field : Text → Node → Fields → Fields

to_list : Nodes → List Node
to_list end = []
to_list (node x xs) = x ∷ to_list xs

of_list : List Node → Nodes
of_list [] = end
of_list (x ∷ xs) = node x (of_list xs)

to_entries : Fields → List (Node × Node)
to_entries none_left = []
to_entries (field k v fs) = (text k, v) ∷ to_entries fs

of_entries : List (Text × Node) → Fields
of_entries [] = none_left
of_entries ((k, v) ∷ fs) = field k v (of_entries fs)

find_field : Fields → Text → Option Node
find_field none_left k = none
find_field (field j v fs) k = if codes_eq j k then some v else find_field fs k

abbrev a_text : Node → Option Text
a_text (text s) = some s
a_text (list xs) = none
a_text (object fs) = none

abbrev a_list : Node → Option (List Node)
a_list (text s) = none
a_list (list xs) = some (to_list xs)
a_list (object fs) = none

abbrev an_object : Node → Option Fields
an_object (text s) = none
an_object (list xs) = none
an_object (object fs) = some fs

mutual
  node_eq : Node → Node → Bool
  node_eq (text s) (text t) = codes_eq s t
  node_eq (list xs) (list ys) = nodes_eq xs ys
  node_eq (object fs) (object gs) = fields_eq fs gs
  node_eq _ _ = false

  nodes_eq : Nodes → Nodes → Bool
  nodes_eq end end = true
  nodes_eq (node x xs) (node y ys) = node_eq x y && nodes_eq xs ys
  nodes_eq _ _ = false

  fields_eq : Fields → Fields → Bool
  fields_eq none_left none_left = true
  fields_eq (field j v fs) (field k w gs) = codes_eq j k && node_eq v w && fields_eq fs gs
  fields_eq _ _ = false

mutual
  unfolding node_eq nodes_eq fields_eq

  node_eq_refl : (v : Node) → node_eq v v ≡ true
  node_eq_refl (text s) = codes_eq_refl s
  node_eq_refl (list xs) = nodes_eq_refl xs
  node_eq_refl (object fs) = fields_eq_refl fs

  nodes_eq_refl : (xs : Nodes) → nodes_eq xs xs ≡ true
  nodes_eq_refl end = refl
  nodes_eq_refl (node x xs) = ground (arith, node_eq_refl x, nodes_eq_refl xs)

  fields_eq_refl : (fs : Fields) → fields_eq fs fs ≡ true
  fields_eq_refl none_left = refl
  fields_eq_refl (field k v fs) = ground (arith, codes_eq_refl k, node_eq_refl v, fields_eq_refl fs)

abbrev nodes : Yaml
nodes = record {
  Value = Node;
  Mapping = Fields;
  string = a_text;
  sequence = a_list;
  mapping = an_object;
  as_str = a_text;
  as_mapping = an_object;
  field = find_field;
  entries = to_entries;
  eq = node_eq;
  text = text;
  list = λ xs. list (of_list xs);
  object = λ fs. object (of_entries fs);
}

nothing_there : {V : Type 0} (k : Text) → ◌≡◌ {A = Option V} (get [] k) none
unfolding get
nothing_there k = refl

abbrev dict_index : (V : Type 0) → IndexMap V
dict_index V = record {
  Map = Dict Text V;
  empty = [];
  get = λ m k. get m k;
  insert = λ m k v. insert m k v;
  entries = λ m. m;
  get-empty = nothing_there;
  get-insert = λ m k v j. get-insert m k v j;
}

-- Letters of ASCII only.
abbrev ascii : Unicode
ascii = record { to_lowercase = map to_ascii_lowercase; to_uppercase = λ s. s }

abbrev one : String → Node → Fields
one k v = field (codes k) v none_left

-- A document with one path and one operation.
abbrev document : String → String → String → Node
document path method id = object (
    field (codes "openapi") (text (codes "3.1.0")) (
      one "paths"
        (object (one path (object (one method (object (one "operationId" (text (codes id))))))))))

abbrev docs : List (Text × Node)
docs =
    (codes "audit.yaml", document "/v1/audit" "GET" "listAudit")
    ∷ (codes "scenes.yaml", document "/v1/scenes" "post" "applyScene")
    ∷ []

abbrev bundled : Bundle nodes dict_index ascii
bundled = record {
  paths =
      (codes "/v1/audit", (codes "get", object (one "operationId" (text (codes "listAudit")))) ∷ [])
      ∷ (
        codes "/v1/scenes",
        (codes "post", object (one "operationId" (text (codes "applyScene")))) ∷ [],
      )
      ∷ [];
  components = [];
  tags = [];
  operation_ids = codes "applyScene" ∷ codes "listAudit" ∷ [];
}

docs_collected : collect nodes dict_index ascii docs ≡ ok bundled
unfolding collect to_entries find_field get insert
docs_collected = refl

-- One id in two documents.
same_id :
    collect nodes dict_index ascii (
      (codes "a.yaml", document "/a" "get" "list")
      ∷ (codes "b.yaml", document "/b" "get" "list")
      ∷ [])
    ≡ err (codes "duplicate operationId 'list' detected")
unfolding collect to_entries find_field get insert
same_id = refl

collect_lem_example :
    All
      (λ (o : Operation nodes dict_index ascii).
        value_at nodes dict_index ascii bundled.paths o.path o.method ≡ some o.value)
      (operations nodes dict_index ascii docs)
    × (not (
          is_none (value_at nodes dict_index ascii bundled.paths (codes "/v1/audit") (codes "get")))
        ≡ any
            (stands_at nodes dict_index ascii (codes "/v1/audit") (codes "get"))
            (operations nodes dict_index ascii docs))
    × Distinct (map (id_of nodes dict_index ascii) (operations nodes dict_index ascii docs))
collect_lem_example =
    collect_lem nodes dict_index ascii docs bundled (codes "/v1/audit") (codes "get") docs_collected

-- A document with one schema.
abbrev schemas : String → String → Node
schemas name type = object (
    field (codes "openapi") (text (codes "3.1.0"))
      (one "components" (object (one "schemas" (object (one name (text (codes type))))))))

abbrev agreeing : List (Text × Node)
agreeing =
    (codes "a.yaml", schemas "Device" "object") ∷ (codes "b.yaml", schemas "Device" "object") ∷ []

abbrev agreed : Bundle nodes dict_index ascii
agreed = record {
  paths = [];
  components = (codes "schemas", (codes "Device", text (codes "object")) ∷ []) ∷ [];
  tags = [];
  operation_ids = [];
}

agreeing_collected : collect nodes dict_index ascii agreeing ≡ ok agreed
unfolding collect to_entries find_field node_eq get insert
agreeing_collected = refl

-- Two documents that disagree.
conflict :
    collect nodes dict_index ascii (
      (codes "a.yaml", schemas "Device" "object")
      ∷ (codes "b.yaml", schemas "Device" "string")
      ∷ [])
    ≡ err (codes "b.yaml defines component 'Device' which conflicts with an existing definition")
unfolding collect to_entries find_field node_eq get insert
conflict = refl

collect-Stands_example :
    All
      (Stands nodes dict_index ascii (value_at nodes dict_index ascii agreed.components))
      (components nodes dict_index ascii agreeing)
collect-Stands_example =
    collect-Stands nodes dict_index ascii node_eq_refl agreeing agreed agreeing_collected
