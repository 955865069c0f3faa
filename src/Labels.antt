-- ===== src/Labels.antt =====
-- controllers/util.go: the metadata that the operator puts on what it creates.
pub mod Selectors
use ds_operator.Prelude.{String, Option, some, none, [], ◌∷◌, Dict, insert_all}
use ds_operator.Kube.Meta.{ObjectMeta}

abbrev pub label_application_name : String
label_application_name = "ds"

unfoldable pub make_meta : String → String → ObjectMeta
make_meta name namespace = record {
  name = name;
  namespace = namespace;
  uid = "";
  labels = some [];
  annotations = some [];
  owner_references = [];
  creation_timestamp = 0;
}

abbrev pub standard_labels : String → String → Dict String
standard_labels instance_name controller_name =
    ("app.kubernetes.io/managed-by", "ds-operator")
    ∷ ("app.kubernetes.io/name", label_application_name)
    ∷ ("app.kubernetes.io/instance", instance_name)
    ∷ ("app.kubernetes.io/controller", controller_name)
    ∷ ("app.kubernetes.io/part-of", "forgerock")
    ∷ []

unfoldable pub create_labels : String → String → Option (Dict String) → Dict String
unfolding insert_all
create_labels instance_name controller_name none = standard_labels instance_name controller_name
create_labels instance_name controller_name (some labels) =
    insert_all (standard_labels instance_name controller_name) labels

unfoldable pub create_annotations : Option (Dict String) → Dict String
unfolding insert_all
create_annotations none = []
create_annotations (some annotations) = insert_all [] annotations
