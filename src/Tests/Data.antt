-- ===== src/Tests/Data.antt =====
-- A directory service of the sample kind (config/samples) and servers in memory.
use ds_operator.Prelude.{ℤ, pos, String, true, false, some, none, [], ◌∷◌}
use ds_operator.Kube.Volumes.{DataSource, VolumeSnapshot}
use ds_operator.Kube.Memory.{Server}
use ds_operator.Api.Types.{DirectoryService, DirectoryPodTemplate, DirectorySnapshotSpec}
use ds_operator.Labels.{create_labels}

abbrev pub source : DataSource
source = record {
  kind = "VolumeSnapshot";
  name = "$(latest)";
  api_group = some "snapshot.storage.k8s.io";
}

abbrev pub pod_template : DirectoryPodTemplate
pod_template = record {
  image = "ds:7";
  image_pull_policy = "IfNotPresent";
  image_pull_secrets = [];
  resources = record { requests = []; limits = [] };
  certificates = record {
    master_secret_name = "ds-master-keypair";
    ssl_secret_name = "ds-ssl-keypair";
    truststore_secret_name = "truststore";
  };
  volume_claim_spec = record {
    access_modes = "ReadWriteOnce" ∷ [];
    storage_class_name = none;
    resources = record { requests = ("storage", "10Gi") ∷ []; limits = [] };
    data_source = some source;
  };
  script_config_map_name = "";
  init_env_from = [];
  env = [];
  env_from = [];
  volume_snapshot_class_name = "ds-snapshot-class";
  service_account_name = "default";
}

abbrev pub snapshot_spec : DirectorySnapshotSpec
snapshot_spec = record {
  enabled = true;
  period_minutes = pos 30;
  snapshots_retained = pos 1;
  directory_instance = pos 0;
}

abbrev pub idrepo : DirectoryService
idrepo = record {
  kind = "DirectoryService";
  meta = record {
    name = "ds-idrepo";
    namespace = "prod";
    uid = "u-1";
    labels = none;
    annotations = some [];
    owner_references = [];
    creation_timestamp = 100;
  };
  spec = record {
    labels = none;
    pod_template = pod_template;
    replicas = some (pos 2);
    passwords =
        ("uid=admin", record { secret_name = "admin"; key = "dirmanager.pw"; create = true })
        ∷ ("uid=monitor", record { secret_name = "monitor"; key = "monitor.pw"; create = true })
        ∷ [];
    snapshots = snapshot_spec;
    proxy = record {
      enabled = true;
      image = "ds-proxy:7";
      replicas = pos 1;
      primary_group_id = "default";
      resources = record { requests = []; limits = [] };
    };
  };
  status = record {
    current_replicas = none;
    server_message = "";
    proxy_status = record { replicas = pos 0; ready_replicas = pos 0; server_message = "" };
    last_snapshot_timestamp = pos 1_000;
  };
}

abbrev pub without_proxy : DirectoryService
without_proxy = record idrepo {
  spec = record idrepo.spec { proxy = record idrepo.spec.proxy { enabled = false } };
}

-- The same with another number of snapshots to retain, or another period.
abbrev pub retaining : ℤ → DirectoryService
retaining r = record idrepo {
  spec = record idrepo.spec { snapshots = record snapshot_spec { snapshots_retained = r } };
}

abbrev pub every : ℤ → DirectoryService
every minutes = record idrepo {
  spec = record idrepo.spec { snapshots = record snapshot_spec { period_minutes = minutes } };
}

abbrev pub auto_snapshot : String → VolumeSnapshot
auto_snapshot name = record {
  meta = record {
    name = name;
    namespace = "prod";
    uid = "";
    labels = some (create_labels "ds-idrepo" "DirectoryService" none);
    annotations = none;
    owner_references = [];
    creation_timestamp = 0;
  };
  spec = record { class_name = none; claim_name = some "data-ds-idrepo-0" };
}

abbrev pub empty_server : Server
empty_server = record {
  cells = record {
    claims = λ key. none;
    secrets = λ key. none;
    stateful_sets = λ key. none;
    deployments = λ key. none;
    services = λ key. none;
    snapshots = λ key. none;
    jobs = λ key. none;
    directory_services = λ key. none;
    directory_backups = λ key. none;
    directory_restores = λ key. none;
  };
  names = [];
  clock = 5;
  events = [];
  refuses = λ k. false;
  directory = ("uid=admin", "x") ∷ [];
  connections = 0;
  reachable = true;
}
