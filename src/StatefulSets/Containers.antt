-- ===== src/StatefulSets/Containers.antt =====
-- controllers/sts.go, createDSStatefulSet and injectDebugContainers: the containers of a pod.
use ds_operator.Prelude.{String, ◌<>◌, List, [], ◌∷◌, ◌++◌, some, none}
use ds_operator.Kube.Pods.{EnvVar, ContainerPort, Probe, Container, VolumeMount, PodSpec}
use ds_operator.Api.Types.{DirectoryService, account_of}
use ds_operator.StatefulSets.Volumes.{volume_mounts}

abbrev pub standard_env : DirectoryService → List EnvVar
standard_env ds =
    EnvVar.env_field_ref "POD_NAME" "metadata.name"
    ∷ EnvVar.env_value "DS_SET_UID_ADMIN_AND_MONITOR_PASSWORDS" "true"
    ∷ EnvVar.env_value "DS_UID_MONITOR_PASSWORD_FILE"
        ("/var/run/secrets/monitor/" <> (account_of ds "uid=monitor").key)
    ∷ EnvVar.env_value "DS_UID_ADMIN_PASSWORD_FILE"
        ("/var/run/secrets/admin/" <> (account_of ds "uid=admin").key)
    ∷ []

abbrev pub env_vars : DirectoryService → List EnvVar
env_vars ds = standard_env ds ++ ds.spec.pod_template.env

abbrev pub startup_probe : Probe
startup_probe = record {
  path = "/healthy";
  port = "http";
  initial_delay_seconds = 30;
  period_seconds = 10;
  failure_threshold = 720;
}

abbrev pub container_ports : List ContainerPort
container_ports = record { name = "http"; container_port = 8080 } ∷ []

abbrev pub init_container : DirectoryService → Container
init_container ds = record {
  name = "init";
  image = ds.spec.pod_template.image;
  image_pull_policy = ds.spec.pod_template.image_pull_policy;
  command = [];
  args = "init" ∷ [];
  volume_mounts = volume_mounts ds;
  resources = some ds.spec.pod_template.resources;
  ports = [];
  env = env_vars ds;
  env_from = ds.spec.pod_template.init_env_from;
  startup_probe = none;
  run_as_user = none;
}

abbrev pub ds_container : DirectoryService → Container
ds_container ds = record {
  name = "ds";
  image = ds.spec.pod_template.image;
  image_pull_policy = ds.spec.pod_template.image_pull_policy;
  command = [];
  args = "start-ds" ∷ [];
  volume_mounts = volume_mounts ds;
  resources = some ds.spec.pod_template.resources;
  ports = container_ports;
  env = env_vars ds;
  env_from = ds.spec.pod_template.env_from;
  startup_probe = some startup_probe;
  run_as_user = none;
}

abbrev pub debug_init : List VolumeMount → String → Container
debug_init mounts image = record {
  name = "debug-init";
  image = image;
  image_pull_policy = "IfNotPresent";
  command = "sh" ∷ "-c" ∷ "echo debug pod running && chown -R 11111:0 /opt/opendj/data" ∷ [];
  args = [];
  volume_mounts = mounts;
  resources = none;
  ports = [];
  env = [];
  env_from = [];
  startup_probe = none;
  run_as_user = some 0;
}

abbrev pub debug_sidecar : List VolumeMount → String → Container
debug_sidecar mounts image = record {
  name = "debug";
  image = image;
  image_pull_policy = "IfNotPresent";
  command = "bash" ∷ "-c" ∷ "echo debug pod running && while true; do sleep 300; done" ∷ [];
  args = [];
  volume_mounts = mounts;
  resources = none;
  ports = [];
  env = [];
  env_from = [];
  startup_probe = none;
  run_as_user = none;
}

-- injectDebugContainers: the debug containers come first.
unfoldable pub inject_debug_containers : List VolumeMount → String → PodSpec → PodSpec
inject_debug_containers mounts image pod = record pod {
  init_containers = debug_init mounts image ∷ pod.init_containers;
  containers = debug_sidecar mounts image ∷ pod.containers;
}
