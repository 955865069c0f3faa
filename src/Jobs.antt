-- ===== src/Jobs.antt =====
-- controllers/job.go: the jobs that back up or restore the data of a directory server.
pub mod Mounts
pub mod Creation
pub mod Keeps
use ds_operator.Prelude.{
  ℕ, String, Bool, List, [], ◌∷◌, ◌++◌, some, none, pos, Error, Result, ok, err, panic, ltb,
  if◌then◌else◌, ◌==◌, Action, pure, ◌>>=◌,
}
use ds_operator.Kube.Meta.{ObjectMeta, named}
use ds_operator.Kube.Pods.{
  EnvVar, Volume, VolumeMount, VolumeSource, Container, PodSpec, PodTemplateSpec,
}
use ds_operator.Kube.Volumes.{PersistentVolumeClaim}
use ds_operator.Kube.Workloads.{Job}
use ds_operator.Kube.Objects.{Kind}
use ds_operator.Kube.Client.{Client, Mutate}
use ds_operator.Api.Types.{DirectoryPodTemplate}
use ds_operator.Settings.{forge_rock_user, root_group, ds_data_path, master_key_path}
use ds_operator.Labels.{create_labels}
use ds_operator.StatefulSets.Volumes.{mount, from_secret, script_mounts, script_volumes}

-- The hostpath of a development cluster belongs to root.
abbrev pub job_user : Bool → ℕ
job_user debug = if debug then 0 else forge_rock_user

abbrev pub job_env : String → DirectoryPodTemplate → List EnvVar
job_env namespace t = EnvVar.env_value "NAMESPACE" namespace ∷ t.env

abbrev pub standard_volumes : String → String → DirectoryPodTemplate → List Volume
standard_volumes backup_pvc data_pvc t =
    record { name = "backup"; source = VolumeSource.claim_volume backup_pvc }
    ∷ record { name = "data"; source = VolumeSource.claim_volume data_pvc }
    ∷ from_secret "master-keypair" t.certificates.master_secret_name
    ∷ record { name = "keys"; source = VolumeSource.empty_dir }
    ∷ []

abbrev pub standard_mounts : List VolumeMount
standard_mounts =
    mount "backup" "/backup"
    ∷ mount "data" ds_data_path
    ∷ mount "master-keypair" master_key_path
    ∷ mount "keys" "/var/run/secrets/keys"
    ∷ []

unfoldable pub job_volumes : String → String → DirectoryPodTemplate → List Volume
unfolding script_volumes
job_volumes backup_pvc data_pvc t = standard_volumes backup_pvc data_pvc t ++ script_volumes t

unfoldable pub job_mounts : DirectoryPodTemplate → List VolumeMount
unfolding script_mounts
job_mounts t = standard_mounts ++ script_mounts t

abbrev pub job_container : String → DirectoryPodTemplate → List String → Container
job_container namespace t args = record {
  name = "ds-job";
  image = t.image;
  image_pull_policy = t.image_pull_policy;
  command = [];
  args = args;
  volume_mounts = job_mounts t;
  resources = some t.resources;
  ports = [];
  env = job_env namespace t;
  env_from = [];
  startup_probe = none;
  run_as_user = none;
}

abbrev pub job_pod : Bool → String → String → String → DirectoryPodTemplate → List String → PodSpec
job_pod debug namespace backup_pvc data_pvc t args = record {
  service_account_name = t.service_account_name;
  topology_spread_constraints = [];
  affinity = none;
  tolerations = [];
  subdomain = "";
  image_pull_secrets = [];
  init_containers = [];
  containers = job_container namespace t args ∷ [];
  restart_policy = "Never";
  security_context = record {
    fs_group = some root_group;
    run_as_user = some (job_user debug);
    run_as_group = some root_group;
  };
  volumes = job_volumes backup_pvc data_pvc t;
}

abbrev pub empty_job : String → String → Job
empty_job name namespace = record {
  meta = named name namespace;
  template = record {
    labels = none;
    spec = record {
      service_account_name = "";
      topology_spread_constraints = [];
      affinity = none;
      tolerations = [];
      subdomain = "";
      image_pull_secrets = [];
      init_containers = [];
      containers = [];
      restart_policy = "";
      security_context = record { fs_group = none; run_as_user = none; run_as_group = none };
      volumes = [];
    };
  };
  status = record { completion_time = none; failed = pos 0; succeeded = pos 0 };
}

abbrev pub with_owner : Job → Result ObjectMeta → Result (Job × Unit {0})
with_owner job (ok m) = ok (record job { meta = m }, tt)
with_owner job (err e) = err e
with_owner job panic = panic

module _ {W : Type 0} (api : Client W) (debug : Bool) (data_pvc backup_pvc : String)
    (t : DirectoryPodTemplate) (args : List String) (owner : ObjectMeta)
    (owner_kind kind : String) where
  -- The labels and the template of a job that is not there yet.
  abbrev pub new_job : Job → Job
  new_job job = record job {
    meta = record job.meta { labels = some (create_labels job.meta.name kind none) };
    template = record {
      labels = none;
      spec = job_pod debug owner.namespace backup_pvc data_pvc t args;
    };
  }

  -- The error of SetOwnerReference is the callback's. The owner of the claim `dataPVC` is set as
  -- well, but only in a copy that is not written.
  unfoldable pub mutate_job : Mutate W (Unit {0}) Kind.job
  mutate_job w job =
      if ltb 0 job.meta.creation_timestamp
      then ok (job, tt)
      else let made = new_job job in
        with_owner made (api.set_owner_reference owner_kind owner made.meta)

  unfoldable pub create_ds_job : Action W Job
  create_ds_job = do
    (job, x) ←
        api.create_or_update Kind.job (Unit {0}) (empty_job owner.name owner.namespace) mutate_job
    pure job
