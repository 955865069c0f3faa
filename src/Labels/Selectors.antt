-- ===== src/Labels/Selectors.antt =====
-- controllers/util.go: which labels and selectors fit each other.
use ds_operator.Prelude.{
  String, Option, some, none, true, [], ◌∷◌, ◌≡◌, refl, ◌↔◌, ◌⊎◌, inl, arith, eq_iff, eq_refl, ◌∙◌,
  Dict, lookup, lookup-insert_all, NodupKeys, or_else, matches, agrees,
}
use ds_operator.Kube.Client.Laws.{entries}
use ds_operator.Labels.{create_labels, create_annotations, standard_labels, label_application_name}

-- createLabels: a label of the given map wins, and every standard label that it does not set stays.
pub lookup-create_labels :
    (instance_name controller_name : String) (labels : Option (Dict String)) (k : String)
    → NodupKeys (entries labels)
    → lookup k (create_labels instance_name controller_name labels)
      ≡ or_else
          (lookup k (entries labels))
          (lookup k (standard_labels instance_name controller_name))
unfolding create_labels lookup
lookup-create_labels i c none k u = refl
lookup-create_labels i c (some d) k u = lookup-insert_all k (standard_labels i c) d u

or_else-none : (o : Option String) → or_else o none ≡ o
or_else-none none = refl
or_else-none (some v) = refl

-- createAnnotations copies the given map.
pub lookup-create_annotations :
    (annotations : Option (Dict String)) (k : String)
    → NodupKeys (entries annotations)
    → lookup k (create_annotations annotations) ≡ lookup k (entries annotations)
unfolding create_annotations lookup
lookup-create_annotations none k u = refl
lookup-create_annotations (some d) k u = lookup-insert_all k [] d u ∙ or_else-none (lookup k d)

-- A map that leaves the key out, or gives it that value.
abbrev pub Allows : String → String → Option (Dict String) → Type 0
Allows k v labels = (lookup k (entries labels) ≡ none) ⊎ (lookup k (entries labels) ≡ some v)

abbrev pub pod_selector : String → Dict String
pod_selector instance_name =
    ("app.kubernetes.io/name", label_application_name)
    ∷ ("app.kubernetes.io/instance", instance_name)
    ∷ []

agrees-or_else :
    (v : String) (o : Option String)
    → (agrees v (or_else o (some v)) ≡ true) ↔ ((o ≡ none) ⊎ (o ≡ some v))
unfolding agrees
agrees-or_else v none = (λ h. inl refl, λ h. eq_refl v)
agrees-or_else v (some w) = ground (arith, eq_iff v w)

-- A selector by name and instance fits a set of created labels exactly when the labels that were
-- given leave these two keys alone or repeat their standard values.
pub matches-pod_selector :
    (instance_name controller_name : String) (labels : Option (Dict String))
    → NodupKeys (entries labels)
    → (matches (pod_selector instance_name) (create_labels instance_name controller_name labels)
        ≡ true)
      ↔ (Allows "app.kubernetes.io/name" label_application_name labels
          × Allows "app.kubernetes.io/instance" instance_name labels)
unfolding matches
matches-pod_selector i c labels u =
    let name = lookup-create_labels i c labels "app.kubernetes.io/name" u in
    let inst = lookup-create_labels i c labels "app.kubernetes.io/instance" u in
    rw (name, inst)
      (ground (
        arith,
        agrees-or_else "ds" (lookup "app.kubernetes.io/name" (entries labels)),
        agrees-or_else i (lookup "app.kubernetes.io/instance" (entries labels)),
      ))
