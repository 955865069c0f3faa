-- ===== src/StatefulSets/Volumes.antt =====
-- controllers/sts.go, createDSStatefulSet: the volumes of a pod and where they are mounted.
use ds_operator.Prelude.{String, List, [], ◌∷◌, ◌++◌, ◌==◌, if◌then◌else◌}
use ds_operator.Kube.Pods.{VolumeMount, Volume, VolumeSource}
use ds_operator.Api.Types.{DirectoryService, DirectoryPodTemplate, secret_name_for_dn}
use ds_operator.Settings.{ds_data_path, ssl_key_path, master_key_path, truststore_key_path}

abbrev pub mount : String → String → VolumeMount
mount name path = record { name = name; mount_path = path }

abbrev pub from_secret : String → String → Volume
from_secret name secret = record { name = name; source = VolumeSource.secret_volume secret }

abbrev pub standard_mounts : List VolumeMount
standard_mounts =
    mount "data" ds_data_path
    ∷ mount "admin-password" "/var/run/secrets/admin"
    ∷ mount "monitor-password" "/var/run/secrets/monitor"
    ∷ mount "ds-ssl-keypair" ssl_key_path
    ∷ mount "ds-master-keypair" master_key_path
    ∷ mount "truststore" truststore_key_path
    ∷ mount "keys" "/var/run/secrets/keys"
    ∷ []

abbrev pub standard_volumes : DirectoryService → List Volume
standard_volumes ds =
    from_secret "ds-master-keypair" ds.spec.pod_template.certificates.master_secret_name
    ∷ from_secret "ds-ssl-keypair" ds.spec.pod_template.certificates.ssl_secret_name
    ∷ from_secret "truststore" ds.spec.pod_template.certificates.truststore_secret_name
    ∷ from_secret "admin-password" (secret_name_for_dn ds "uid=admin")
    ∷ from_secret "monitor-password" (secret_name_for_dn ds "uid=monitor")
    ∷ record { name = "keys"; source = VolumeSource.empty_dir }
    ∷ []

-- Where the user supplies a config map of scripts, it is mounted. The mode is octal 755.
unfoldable pub script_mounts : DirectoryPodTemplate → List VolumeMount
script_mounts t =
    if t.script_config_map_name == "" then [] else mount "scripts" "/opt/opendj/scripts" ∷ []

unfoldable pub script_volumes : DirectoryPodTemplate → List Volume
script_volumes t =
    if t.script_config_map_name == ""
    then []
    else record {
      name = "scripts";
      source = VolumeSource.config_map_volume t.script_config_map_name 493;
    }
      ∷ []

unfoldable pub volume_mounts : DirectoryService → List VolumeMount
unfolding script_mounts
volume_mounts ds = standard_mounts ++ script_mounts ds.spec.pod_template

unfoldable pub volumes : DirectoryService → List Volume
unfolding script_volumes
volumes ds = standard_volumes ds ++ script_volumes ds.spec.pod_template
