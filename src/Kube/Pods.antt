-- ===== src/Kube/Pods.antt =====
-- corev1: the parts of a pod that the operator writes.
use ds_operator.Prelude.{ℕ, String, Option, List, Dict}

-- v1.ResourceRequirements: the operator copies it whole.
pub record Resources : Type 0 where
  pub requests : Dict String
  pub limits : Dict String

-- v1.EnvVar. The operator sets a value, or a field reference in `ValueFrom`.
pub data EnvVar : Type 0 where
  env_value : String → String → EnvVar
  env_field_ref : String → String → EnvVar

-- v1.EnvFromSource: a secret or a config map, by name.
pub data EnvFromSource : Type 0 where
  secret_ref : String → EnvFromSource
  config_map_ref : String → EnvFromSource

pub record VolumeMount : Type 0 where
  pub name : String
  pub mount_path : String

pub data VolumeSource : Type 0 where
  secret_volume : String → VolumeSource
  empty_dir : VolumeSource
  config_map_volume : String → ℕ → VolumeSource
  claim_volume : String → VolumeSource

pub record Volume : Type 0 where
  pub name : String
  pub source : VolumeSource

pub record ContainerPort : Type 0 where
  pub name : String
  pub container_port : ℕ

-- v1.Probe with an HTTPGet action
pub record Probe : Type 0 where
  pub path : String
  pub port : String
  pub initial_delay_seconds : ℕ
  pub period_seconds : ℕ
  pub failure_threshold : ℕ

pub record Container : Type 0 where
  pub name : String
  pub image : String
  pub image_pull_policy : String
  pub command : List String
  pub args : List String
  pub volume_mounts : List VolumeMount
  pub resources : Option Resources
  pub ports : List ContainerPort
  pub env : List EnvVar
  pub env_from : List EnvFromSource
  pub startup_probe : Option Probe
  pub run_as_user : Option ℕ

pub record TopologySpreadConstraint : Type 0 where
  pub max_skew : ℕ
  pub topology_key : String
  pub when_unsatisfiable : String
  pub match_labels : Dict String

pub record Toleration : Type 0 where
  pub key : String
  pub operator : String
  pub value : String
  pub effect : String

-- v1.PodSecurityContext
pub record PodSecurity : Type 0 where
  pub fs_group : Option ℕ
  pub run_as_user : Option ℕ
  pub run_as_group : Option ℕ

-- metav1.LabelSelectorRequirement and corev1.NodeSelectorRequirement
pub record Requirement : Type 0 where
  pub key : String
  pub operator : String
  pub values : List String

-- v1.Affinity, with the two preferred terms that the operator writes
pub record Affinity : Type 0 where
  pub node_weight : ℕ
  pub node_expressions : List Requirement
  pub pod_anti_weight : ℕ
  pub pod_anti_labels : Dict String
  pub pod_anti_expressions : List Requirement
  pub pod_anti_topology_key : String

pub record PodSpec : Type 0 where
  pub service_account_name : String
  pub topology_spread_constraints : List TopologySpreadConstraint
  pub affinity : Option Affinity
  pub tolerations : List Toleration
  pub subdomain : String
  pub image_pull_secrets : List String
  pub init_containers : List Container
  pub containers : List Container
  pub restart_policy : String
  pub security_context : PodSecurity
  pub volumes : List Volume

-- v1.PodTemplateSpec; of its metadata the operator sets the labels.
pub record PodTemplateSpec : Type 0 where
  pub labels : Option (Dict String)
  pub spec : PodSpec
