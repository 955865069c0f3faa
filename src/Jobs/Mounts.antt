-- ===== src/Jobs/Mounts.antt =====
-- controllers/job.go: the mounts of a job's pod have their volumes.
use ds_operator.Prelude.{String, Bool, Bool-cases, inl, inr, refl, ◌==◌, [], All, List}
use ds_operator.Kube.Mounts.{IsClosed, IsKnown}
use ds_operator.Api.Types.{DirectoryPodTemplate}
use ds_operator.StatefulSets.Volumes.{script_mounts, script_volumes}
use ds_operator.Jobs.{job_pod, job_mounts, job_volumes}

All-IsKnown :
    (backup_pvc data_pvc : String) (t : DirectoryPodTemplate)
    → All (IsKnown (job_volumes backup_pvc data_pvc t) []) (job_mounts t)
unfolding job_volumes job_mounts script_mounts script_volumes
All-IsKnown backup_pvc data_pvc t = elim (Bool-cases (t.script_config_map_name == "")) [
  | inl e ↦ simp e (refl, (refl, (refl, (refl, tt))))
  | inr e ↦ simp e (refl, (refl, (refl, (refl, (refl, tt)))))
]

-- Every mount of the container of a backup or restore job is of a volume of its pod, with scripts
-- or without.
pub job_pod-IsClosed :
    (debug : Bool) (namespace backup_pvc data_pvc : String) (t : DirectoryPodTemplate)
    (args : List String)
    → IsClosed (job_pod debug namespace backup_pvc data_pvc t args) []
job_pod-IsClosed debug namespace backup_pvc data_pvc t args =
    (tt, (All-IsKnown backup_pvc data_pvc t, tt))
