-- ===== src/StatefulSets/Template.antt =====
-- controllers/sts.go, createDSStatefulSet: the stateful set that is made for a directory service.
use ds_operator.Prelude.{String, [], ◌∷◌, some, none, Bool, if◌then◌else◌, pos}
use ds_operator.Kube.Pods.{TopologySpreadConstraint, Toleration, PodSpec}
use ds_operator.Kube.Volumes.{ClaimSpec, PersistentVolumeClaim}
use ds_operator.Kube.Workloads.{StatefulSet}
use ds_operator.Kube.Client.{Client}
use ds_operator.Api.Types.{DirectoryService}
use ds_operator.Settings.{forge_rock_user, root_group}
use ds_operator.Labels.{create_labels, create_annotations, label_application_name}
use ds_operator.Claims.{set_volume_claim_template_from_snapshot}
use ds_operator.StatefulSets.Volumes.{volume_mounts, volumes}
use ds_operator.StatefulSets.Containers.{init_container, ds_container, inject_debug_containers}

abbrev pub spread : String → DirectoryService → TopologySpreadConstraint
spread topology_key ds = record {
  max_skew = 1;
  topology_key = topology_key;
  when_unsatisfiable = "ScheduleAnyway";
  match_labels = ("app.kubernetes.io/instance", ds.meta.name) ∷ [];
}

abbrev pub toleration : Toleration
toleration = record { key = "key"; operator = "Equal"; value = "directory"; effect = "NoSchedule" }

abbrev pub pod_spec : DirectoryService → String → PodSpec
pod_spec ds svc_name = record {
  service_account_name = ds.spec.pod_template.service_account_name;
  topology_spread_constraints =
      spread "topology.kubernetes.io/zone" ds ∷ spread "topology.kubernetes.io/hostname" ds ∷ [];
  affinity = none;
  tolerations = toleration ∷ [];
  subdomain = svc_name;
  image_pull_secrets = ds.spec.pod_template.image_pull_secrets;
  init_containers = init_container ds ∷ [];
  containers = ds_container ds ∷ [];
  restart_policy = "";
  security_context = record {
    fs_group = some root_group;
    run_as_user = some forge_rock_user;
    run_as_group = none;
  };
  volumes = volumes ds;
}

-- `if DebugContainer { injectDebugContainers(…) }`
unfoldable pub with_debug : Bool → DirectoryService → PodSpec → PodSpec
with_debug debug ds pod =
    if debug then inject_debug_containers (volume_mounts ds) ds.spec.pod_template.image pod else pod

abbrev pub data_claim : DirectoryService → ClaimSpec → PersistentVolumeClaim
data_claim ds spec = record {
  meta = record {
    name = "data";
    namespace = ds.meta.namespace;
    uid = "";
    labels = some (create_labels ds.meta.name ds.kind none);
    annotations = some (("pv.beta.kubernetes.io/gid", "0") ∷ []);
    owner_references = [];
    creation_timestamp = 0;
  };
  spec = spec;
}

-- The template, with the spec of its claim.
abbrev pub stateful_set : Bool → DirectoryService → String → ClaimSpec → StatefulSet
stateful_set debug ds svc_name claim = record {
  meta = record {
    name = ds.meta.name;
    namespace = ds.meta.namespace;
    uid = "";
    labels = some (create_labels ds.meta.name ds.kind ds.meta.labels);
    annotations = some (create_annotations ds.meta.annotations);
    owner_references = [];
    creation_timestamp = 0;
  };
  spec = record {
    selector =
        ("app.kubernetes.io/name", label_application_name)
        ∷ ("app.kubernetes.io/instance", ds.meta.name)
        ∷ [];
    service_name = svc_name;
    replicas = ds.spec.replicas;
    template = record {
      labels = some (create_labels ds.meta.name ds.kind ds.spec.labels);
      spec = with_debug debug ds (pod_spec ds svc_name);
    };
    volume_claim_templates = data_claim ds claim ∷ [];
  };
  current_replicas = pos 0;
}

module _ {W : Type 0} (api : Client W) (debug : Bool) (ds : DirectoryService)
    (svc_name : String) where
  unfoldable pub create_ds_stateful_set : W → StatefulSet
  create_ds_stateful_set w =
      stateful_set debug ds svc_name (set_volume_claim_template_from_snapshot api ds w)
