-- ===== src/Backups.antt =====
-- controllers/directorybackup_controller.go: a backup is a job on a clone of the volume.
pub mod Steps
pub mod Origins
pub mod Advances
pub mod Parts
pub mod Preparing
pub mod Outcome
use ds_operator.Prelude.{
  ℕ, String, ◌<>◌, Bool, Option, some, none, [], ◌∷◌, Error, Result, ok, err, panic, ltb,
  if◌then◌else◌, Action, pure, raise, ◌>>=◌,
}
use ds_operator.Kube.Meta.{Key, ObjectMeta}
use ds_operator.Kube.Volumes.{ClaimSpec, DataSource, PersistentVolumeClaim, VolumeSnapshot}
use ds_operator.Kube.Workloads.{Job}
use ds_operator.Kube.Objects.{Kind}
use ds_operator.Kube.Client.{Client, Mutate}
use ds_operator.Api.Types.{DirectoryBackup}
use ds_operator.Labels.{create_labels}
use ds_operator.Claims.{empty_claim}
use ds_operator.Snapshots.{empty_snapshot}
use ds_operator.Jobs.{create_ds_job}
use ds_operator.Runs.{found_or_zero, job_times, claim_with, claim_owned, snapshot_owned}

abbrev pub snapshot_api_group : String
snapshot_api_group = "snapshot.storage.k8s.io"

abbrev pub temp_name : DirectoryBackup → String
temp_name db = "temp-" <> db.meta.name

-- The snapshot of the claim that is to be backed up, as a new one is filled in.
abbrev pub snapshot_of : DirectoryBackup → VolumeSnapshot → VolumeSnapshot
snapshot_of db snap = record snap {
  meta = record snap.meta { labels = some (create_labels snap.meta.name db.kind none) };
  spec = record {
    class_name = some db.pod_template.volume_snapshot_class_name;
    claim_name = some db.claim_to_backup;
  };
}

-- The claim that is cloned from the snapshot of a name.
abbrev pub clone_spec : DirectoryBackup → String → ClaimSpec
clone_spec db snapshot_name = record db.pod_template.volume_claim_spec {
  data_source = some (record {
    kind = "VolumeSnapshot";
    name = snapshot_name;
    api_group = some snapshot_api_group;
  });
}

module _ {W : Type 0} (api : Client W) (debug : Bool) (db : DirectoryBackup) where
  unfoldable pub mutate_backup_claim : Mutate W (Unit {0}) Kind.claim
  mutate_backup_claim w pvc =
      if ltb 0 pvc.meta.creation_timestamp
      then ok (pvc, tt)
      else ok (claim_with db.kind db.pod_template.volume_claim_spec pvc, tt)

  unfoldable pub mutate_backup_snapshot : Mutate W (Unit {0}) Kind.snapshot
  mutate_backup_snapshot w snap =
      let made = if ltb 0 snap.meta.creation_timestamp then snap else snapshot_of db snap in
      snapshot_owned made (api.set_owner_reference "DirectoryBackup" db.meta made.meta)

  -- The claim has the snapshot's name, so its labels are those of `snap.GetName()`.
  unfoldable pub mutate_data_claim : String → Mutate W (Unit {0}) Kind.claim
  mutate_data_claim snapshot_name w pvc =
      let made =
        if ltb 0 pvc.meta.creation_timestamp
        then pvc
        else claim_with db.kind (clone_spec db snapshot_name) pvc in
      claim_owned made (api.set_owner_reference "DirectoryBackup" db.meta made.meta)

  -- From the /backup claim to the job.
  unfoldable pub run_backup : Action W (Unit {0})
  run_backup = do
    (pvc, x) ←
        api.create_or_update Kind.claim (Unit {0}) (empty_claim db.meta.name db.meta.namespace)
          mutate_backup_claim
    (snap, y) ←
        api.create_or_update Kind.snapshot (Unit {0})
          (empty_snapshot (temp_name db) db.meta.namespace) mutate_backup_snapshot
    (data_pvc, z) ←
        api.create_or_update Kind.claim (Unit {0}) (empty_claim snap.meta.name snap.meta.namespace)
          (mutate_data_claim snap.meta.name)
    job ←
        create_ds_job api debug data_pvc.meta.name pvc.meta.name db.pod_template ("backup" ∷ [])
          db.meta "DirectoryBackup" db.kind
    pure tt

module _ {W : Type 0} (api : Client W) (debug : Bool) (key : Key) where
  -- The status, with what the job of the same name has come to.
  unfoldable pub report_backup : DirectoryBackup → Option Job → Action W DirectoryBackup
  report_backup db job =
      api.update_status Kind.directory_backup (record db { status = job_times job db.status })

  unfoldable pub backup_found : Option DirectoryBackup → Action W (Unit {0})
  backup_found none = pure tt
  backup_found (some db) = do
    job ← λ w. found_or_zero (api.get Kind.job key w) w
    db' ← report_backup db job
    run_backup api debug db'

  -- A backup that is gone is no error.
  unfoldable pub reconcile_backup : Action W (Unit {0})
  reconcile_backup = do
    db ← λ w. found_or_zero (api.get Kind.directory_backup key w) w
    backup_found db
