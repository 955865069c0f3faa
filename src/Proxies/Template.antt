-- ===== src/Proxies/Template.antt =====
-- controllers/proxy.go, createDSProxyDeployment: the deployment of the proxies.
use ds_operator.Prelude.{◌<>◌, List, [], ◌∷◌, some, none, pos, lookup}
use ds_operator.Kube.Pods.{
  Affinity, Toleration, Container, EnvVar, Volume, VolumeMount, VolumeSource, PodSpec,
}
use ds_operator.Kube.Workloads.{Deployment}
use ds_operator.Api.Types.{DirectoryService, account_of, secret_name_for_dn}
use ds_operator.Settings.{
  ds_data_path, ssl_key_path, master_key_path, truststore_key_path, forge_rock_user,
}
use ds_operator.Services.{proxy_name, proxy_labels, proxy_selector, or_empty}
use ds_operator.StatefulSets.Volumes.{mount, from_secret}

unfoldable pub affinity : DirectoryService → Affinity
unfolding lookup
affinity ds = record {
  node_weight = 100;
  node_expressions = record { key = "ds"; operator = "Exists"; values = [] } ∷ [];
  pod_anti_weight = 100;
  pod_anti_labels = [];
  pod_anti_expressions =
      record {
        key = "app.kubernetes.io/component";
        operator = "In";
        values = or_empty (lookup "app.kubernetes.io/component" (proxy_labels ds)) ∷ [];
      }
      ∷ [];
  pod_anti_topology_key = "kubernetes.io/hostname";
}

abbrev pub bootstrap_env : DirectoryService → List EnvVar
bootstrap_env ds =
    EnvVar.env_value "DSPROXY_BOOTSTRAP_REPLICATION_SERVERS"
      (ds.meta.name <> "-0." <> ds.meta.name <> ":4444")
    ∷ EnvVar.env_value "DSPROXY_PRIMARY_GROUP_ID" ds.spec.proxy.primary_group_id
    ∷ []

abbrev pub init_env : DirectoryService → List EnvVar
init_env ds =
    EnvVar.env_value "DS_SET_UID_ADMIN_AND_MONITOR_PASSWORDS" "true"
    ∷ EnvVar.env_value "DS_UID_MONITOR_PASSWORD_FILE"
        ("/var/run/secrets/monitor/" <> (account_of ds "uid=monitor").key)
    ∷ EnvVar.env_value "DS_UID_ADMIN_PASSWORD_FILE"
        ("/var/run/secrets/admin/" <> (account_of ds "uid=admin").key)
    ∷ bootstrap_env ds

abbrev pub init_mounts : List VolumeMount
init_mounts =
    mount "data" ds_data_path
    ∷ mount "admin-password" "/var/run/secrets/admin"
    ∷ mount "monitor-password" "/var/run/secrets/monitor"
    ∷ []

abbrev pub proxy_mounts : List VolumeMount
proxy_mounts =
    mount "data" ds_data_path
    ∷ mount "ds-ssl-keypair" ssl_key_path
    ∷ mount "ds-master-keypair" master_key_path
    ∷ mount "truststore" truststore_key_path
    ∷ []

abbrev pub initialize_container : DirectoryService → Container
initialize_container ds = record {
  name = "initialize";
  image = ds.spec.proxy.image;
  image_pull_policy = "IfNotPresent";
  command = "/opt/opendj/scripts/init-and-restore.sh" ∷ [];
  args = [];
  volume_mounts = init_mounts;
  resources = some ds.spec.proxy.resources;
  ports = [];
  env = init_env ds;
  env_from = [];
  startup_probe = none;
  run_as_user = none;
}

abbrev pub proxy_container : DirectoryService → Container
proxy_container ds = record {
  name = "ds-proxy";
  image = ds.spec.proxy.image;
  image_pull_policy = "IfNotPresent";
  command = [];
  args = "start-ds" ∷ [];
  volume_mounts = proxy_mounts;
  resources = some ds.spec.proxy.resources;
  ports = [];
  env = bootstrap_env ds;
  env_from = [];
  startup_probe = none;
  run_as_user = none;
}

abbrev pub proxy_volumes : DirectoryService → List Volume
proxy_volumes ds =
    from_secret "ds-master-keypair" ds.spec.pod_template.certificates.master_secret_name
    ∷ from_secret "ds-ssl-keypair" ds.spec.pod_template.certificates.ssl_secret_name
    ∷ from_secret "truststore" ds.spec.pod_template.certificates.truststore_secret_name
    ∷ from_secret "admin-password" (secret_name_for_dn ds "uid=admin")
    ∷ from_secret "monitor-password" (secret_name_for_dn ds "uid=monitor")
    ∷ record { name = "data"; source = VolumeSource.empty_dir }
    ∷ []

abbrev pub proxy_toleration : Toleration
proxy_toleration = record {
  key = "WorkerDedicatedDS";
  operator = "Exists";
  value = "";
  effect = "";
}

abbrev pub proxy_pod : DirectoryService → PodSpec
proxy_pod ds = record {
  service_account_name = "";
  topology_spread_constraints = [];
  affinity = some (affinity ds);
  tolerations = proxy_toleration ∷ [];
  subdomain = "";
  image_pull_secrets = [];
  init_containers = initialize_container ds ∷ [];
  containers = proxy_container ds ∷ [];
  restart_policy = "";
  security_context = record {
    fs_group = some 0;
    run_as_user = some forge_rock_user;
    run_as_group = none;
  };
  volumes = proxy_volumes ds;
}

abbrev pub create_ds_proxy_deployment : DirectoryService → Deployment
create_ds_proxy_deployment ds = record {
  meta = record {
    name = proxy_name ds;
    namespace = ds.meta.namespace;
    uid = "";
    labels = some (proxy_labels ds);
    annotations = none;
    owner_references = [];
    creation_timestamp = 0;
  };
  spec = record {
    selector = proxy_selector ds;
    replicas = some ds.spec.proxy.replicas;
    template = record { labels = some (proxy_labels ds); spec = proxy_pod ds };
  };
  ready_replicas = pos 0;
  status_replicas = pos 0;
}
