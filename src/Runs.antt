-- ===== src/Runs.antt =====
-- controllers/directorybackup_controller.go and directoryrestore_controller.go: what the two
-- reconcilers of jobs do alike.
pub mod Owners
use ds_operator.Prelude.{
  ℕ, String, Bool, Option, some, none, [], ◌∷◌, Error, Result, ok, err, panic, not_found, external,
  message, wrap, ltb, if◌then◌else◌, Action, pure, raise, crash,
}
use ds_operator.Kube.Meta.{Key, ObjectMeta}
use ds_operator.Kube.Volumes.{ClaimSpec, PersistentVolumeClaim, VolumeSnapshot}
use ds_operator.Kube.Workloads.{Job}
use ds_operator.Kube.Objects.{Kind}
use ds_operator.Kube.Client.{Client, Mutate}
use ds_operator.Api.Types.{JobTimes}
use ds_operator.Labels.{create_labels}

-- The object that a `Get` left in its variable: `none` is the zero value, after NotFound. Any
-- other error is returned (`client.IgnoreNotFound`).
unfoldable pub found_or_zero : {W A : Type 0} → Result A → Action W (Option A)
found_or_zero (ok a) = pure (some a)
found_or_zero (err not_found) = pure none
found_or_zero (err (external e)) = raise (external e)
found_or_zero (err (message e)) = raise (message e)
found_or_zero (err (wrap m e)) = raise (wrap m e)
found_or_zero panic = crash

abbrev pub completion : Option ℕ → Option ℕ → Option ℕ
completion none old = old
completion (some t) old = some t

-- The times of a job that has been created, in the status of the object that runs it.
unfoldable pub job_times : Option Job → JobTimes → JobTimes
job_times none s = s
job_times (some job) s =
    if ltb 0 job.meta.creation_timestamp
    then record {
      start_timestamp = some job.meta.creation_timestamp;
      completion_timestamp = completion job.status.completion_time s.completion_timestamp;
    }
    else s

-- A claim of the operator's, made with a spec.
abbrev pub claim_with : String → ClaimSpec → PersistentVolumeClaim → PersistentVolumeClaim
claim_with kind spec pvc = record pvc {
  meta = record pvc.meta {
    labels = some (create_labels pvc.meta.name kind none);
    annotations = some (("pv.beta.kubernetes.io/gid", "0") ∷ []);
  };
  spec = spec;
}

-- The result of SetOwnerReference or SetControllerReference, returned by a callback.
abbrev pub claim_owned :
    PersistentVolumeClaim → Result ObjectMeta → Result (PersistentVolumeClaim × Unit {0})
claim_owned pvc (ok m) = ok (record pvc { meta = m }, tt)
claim_owned pvc (err e) = err e
claim_owned pvc panic = panic

abbrev pub snapshot_owned : VolumeSnapshot → Result ObjectMeta → Result (VolumeSnapshot × Unit {0})
snapshot_owned snap (ok m) = ok (record snap { meta = m }, tt)
snapshot_owned snap (err e) = err e
snapshot_owned snap panic = panic
