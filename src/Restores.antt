-- ===== src/Restores.antt =====
-- controllers/directoryrestore_controller.go: a restore is a job that fills a new volume, of which
-- a snapshot is taken once the job has succeeded.
pub mod Steps
pub mod Safety
pub mod Outcome
pub mod Telling
use ds_operator.Prelude.{
  ℕ, ℤ, pos, String, ◌<>◌, Bool, true, false, Option, some, none, [], ◌∷◌, Error, Result, ok, err,
  panic, message, ltb, ltb_ℤ, if◌then◌else◌, Action, pure, raise, ignore, ◌>>=◌,
}
use ds_operator.Kube.Meta.{Key, ObjectMeta}
use ds_operator.Kube.Volumes.{PersistentVolumeClaim, VolumeSnapshot}
use ds_operator.Kube.Workloads.{Job}
use ds_operator.Kube.Objects.{Kind}
use ds_operator.Kube.Client.{Client, Mutate}
use ds_operator.Api.Types.{DirectoryRestore}
use ds_operator.Labels.{create_labels}
use ds_operator.Claims.{empty_claim}
use ds_operator.Snapshots.{empty_snapshot}
use ds_operator.Jobs.{create_ds_job}
use ds_operator.Runs.{found_or_zero, job_times, claim_with, claim_owned, snapshot_owned}

abbrev pub temp_name : DirectoryRestore → String
temp_name dr = "temp-" <> dr.meta.name

-- How the job stands: it has not been created, it runs, it has failed, or it has completed, with
-- or without a success.
pub data Progress : Type 0 where
  running failed succeeded completed : Progress

unfoldable pub finished : Job → Option ℕ → Progress
finished job none = Progress.running
finished job (some t) =
    if ltb_ℤ (pos 0) job.status.failed
    then Progress.failed
    else if ltb_ℤ (pos 0) job.status.succeeded
    then Progress.succeeded
    else Progress.completed

unfoldable pub progress_of : Option Job → Progress
unfolding finished
progress_of none = Progress.running
progress_of (some job) =
    if ltb 0 job.meta.creation_timestamp
    then finished job job.status.completion_time
    else Progress.running

-- The snapshot of the restored volume, as a new one is filled in.
abbrev pub snapshot_of : DirectoryRestore → VolumeSnapshot → VolumeSnapshot
snapshot_of dr snap = record snap {
  meta = record snap.meta { labels = some (create_labels dr.meta.name dr.kind none) };
  spec = record {
    class_name = some dr.pod_template.volume_snapshot_class_name;
    claim_name = some snap.meta.name;
  };
}

module _ {W : Type 0} (api : Client W) (debug : Bool) (dr : DirectoryRestore) where
  unfoldable pub mutate_restore_snapshot : Mutate W (Unit {0}) Kind.snapshot
  mutate_restore_snapshot w snap =
      if ltb 0 snap.meta.creation_timestamp
      then ok (snap, tt)
      else let made = snapshot_of dr snap in
        snapshot_owned made (api.set_owner_reference "DirectoryRestore" dr.meta made.meta)

  -- The result of this CreateOrUpdate is dropped.
  unfoldable pub take_restored : Action W (Unit {0})
  take_restored = ignore (
      api.create_or_update Kind.snapshot (Unit {0})
        (empty_snapshot (temp_name dr) dr.meta.namespace) mutate_restore_snapshot)

  -- Before the status is written: a failed job ends the call, a successful one gives a snapshot.
  unfoldable pub after_job : Progress → Action W (Unit {0})
  after_job Progress.running = pure tt
  after_job Progress.failed = raise (message "Restore Job had failures. Cant take snapshot")
  after_job Progress.succeeded = take_restored
  after_job Progress.completed = pure tt

  unfoldable pub mutate_restore_claim : Mutate W (Unit {0}) Kind.claim
  mutate_restore_claim w pvc =
      if ltb 0 pvc.meta.creation_timestamp
      then ok (pvc, tt)
      else let made = claim_with dr.kind dr.pod_template.volume_claim_spec pvc in
        claim_owned made (api.set_controller_reference "DirectoryRestore" dr.meta made.meta)

  -- The claim that is filled, and the job that fills it.
  unfoldable pub run_restore : Action W (Unit {0})
  run_restore = do
    (pvc, x) ←
        api.create_or_update Kind.claim (Unit {0}) (empty_claim (temp_name dr) dr.meta.namespace)
          mutate_restore_claim
    job ←
        create_ds_job api debug pvc.meta.name dr.source_pvc_name dr.pod_template ("restore" ∷ [])
          dr.meta "DirectoryRestore" dr.kind
    pure tt

-- `requeueWhileJobRunning`: whether to come back after a minute.
abbrev pub requeues : Progress → Bool
requeues Progress.running = true
requeues _ = false

module _ {W : Type 0} (api : Client W) (debug : Bool) (key : Key) where
  unfoldable pub restore_with : DirectoryRestore → Option Job → Action W Bool
  restore_with dr job = do
    x ← after_job api debug dr (progress_of job)
    dr' ← api.update_status Kind.directory_restore (record dr { status = job_times job dr.status })
    y ← run_restore api debug dr'
    pure (requeues (progress_of job))

  unfoldable pub restore_found : Option DirectoryRestore → Action W Bool
  restore_found none = pure false
  restore_found (some dr) = do
    job ← λ w. found_or_zero (api.get Kind.job key w) w
    restore_with dr job

  -- The result says whether to come back after a minute.
  unfoldable pub reconcile_restore : Action W Bool
  reconcile_restore = do
    dr ← λ w. found_or_zero (api.get Kind.directory_restore key w) w
    restore_found dr
