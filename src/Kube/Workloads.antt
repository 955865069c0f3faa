-- ===== src/Kube/Workloads.antt =====
-- Stateful sets, deployments, jobs, services, secrets. A `none` spec or selector is Go's zero value.
use ds_operator.Prelude.{ℕ, ℤ, String, Option, List, Dict}
use ds_operator.Kube.Meta.{ObjectMeta}
use ds_operator.Kube.Pods.{PodTemplateSpec}
use ds_operator.Kube.Volumes.{PersistentVolumeClaim}

pub record StatefulSetSpec : Type 0 where
  pub selector : Dict String
  pub service_name : String
  pub replicas : Option ℤ
  pub template : PodTemplateSpec
  pub volume_claim_templates : List PersistentVolumeClaim

pub record StatefulSet : Type 0 where
  pub meta : ObjectMeta
  pub spec : StatefulSetSpec
  -- Status.CurrentReplicas
  pub current_replicas : ℤ

pub record DeploymentSpec : Type 0 where
  pub selector : Dict String
  pub replicas : Option ℤ
  pub template : PodTemplateSpec

pub record Deployment : Type 0 where
  pub meta : ObjectMeta
  pub spec : DeploymentSpec
  -- Status.ReadyReplicas and Status.Replicas
  pub ready_replicas : ℤ
  pub status_replicas : ℤ

pub record JobStatus : Type 0 where
  pub completion_time : Option ℕ
  pub failed : ℤ
  pub succeeded : ℤ

pub record Job : Type 0 where
  pub meta : ObjectMeta
  pub template : PodTemplateSpec
  pub status : JobStatus

pub record ServicePort : Type 0 where
  pub name : String
  pub port : ℕ

pub record Service : Type 0 where
  pub meta : ObjectMeta
  pub cluster_ip : String
  pub selector : Dict String
  pub ports : List ServicePort

-- `payload` is the field Data, `none` where the map is nil.
pub record Secret : Type 0 where
  pub meta : ObjectMeta
  pub payload : Option (Dict String)
