-- ===== src/Kube/Meta.antt =====
-- metav1: names, labels, owners. Times are Unix seconds; a zero `creation_timestamp` is `IsZero`.
use ds_operator.Prelude.{
  ℕ, String, Bool, Option, none, [], Dict, List, ◌≡◌, ◌≢◌, ◌⊎◌, inl, inr, Bool-cases, ◌==◌, ◌&&◌,
  arith, eq_iff,
}

-- types.NamespacedName
pub record Key : Type 0 where
  pub namespace : String
  pub name : String

-- Owners are identified by the uid.
pub record OwnerReference : Type 0 where
  pub api_version : String
  pub kind : String
  pub name : String
  pub uid : String
  pub is_controller : Bool

-- Labels and annotations are `none` where the Go map is nil.
pub record ObjectMeta : Type 0 where
  pub name : String
  pub namespace : String
  pub uid : String
  pub labels : Option (Dict String)
  pub annotations : Option (Dict String)
  pub owner_references : List OwnerReference
  pub creation_timestamp : ℕ

-- `var x T; x.Name = name; x.Namespace = namespace`
abbrev pub named : String → String → ObjectMeta
named name namespace = record {
  name = name;
  namespace = namespace;
  uid = "";
  labels = none;
  annotations = none;
  owner_references = [];
  creation_timestamp = 0;
}

abbrev pub key_of : ObjectMeta → Key
key_of m = record { namespace = m.namespace; name = m.name }

pub Key-cases : (a b : Key) → (a ≡ b) ⊎ (a ≢ b)
Key-cases a b = elim (Bool-cases (a.namespace == b.namespace && a.name == b.name)) [
  | inl e ↦ inl (ground (arith, eq_iff a.namespace b.namespace, eq_iff a.name b.name))
  | inr e ↦ inr (λ p. ground (arith, eq_iff a.namespace b.namespace, eq_iff a.name b.name))
]
