-- ===== src/Backups/Parts.antt =====
-- controllers/directorybackup_controller.go, Reconcile: what its steps leave, and where that comes
-- from.
use mathlib.Core.Path.{subst₂}
use ds_operator.Prelude.{
  Bool, ◌≡◌, sym, ◌∙◌, ◌⊎◌, inl, inr, String, some, ok, err, not_found, [], ◌∷◌,
}
use ds_operator.Kube.Meta.{Key, key_of}
use ds_operator.Kube.Volumes.{PersistentVolumeClaim, VolumeSnapshot}
use ds_operator.Kube.Workloads.{Job}
use ds_operator.Kube.Objects.{Kind}
use ds_operator.Kube.Client.{Client, Mutate}
use ds_operator.Kube.Client.Laws.{IsLawful}
use ds_operator.Kube.Client.Apply.{Applied}
use ds_operator.Kube.Client.Tend.{Tended}
use ds_operator.Api.Types.{DirectoryBackup}
use ds_operator.Jobs.Creation.{Made, NewJob}
use ds_operator.Backups.{temp_name, mutate_backup_claim, mutate_backup_snapshot}
use ds_operator.Backups.Steps.{
  backup_blank, snapshot_blank, backup_claim-OwnersOnly, snapshot-OwnersOnly,
}
use ds_operator.Backups.Origins.{
  Origin, NewClaim, NewSnapshot, Applied-Origin, backup_claim-Makes, snapshot-Makes,
}
use ds_operator.Backups.Advances.{Advances}

module _ {W : Type 0} (api : Client W) where
  module _ (law : IsLawful api) where
    -- What the steps of a backup leave: two claims, a snapshot and a job, each what was there in `w`,
    -- but for the owners, or new.
    pub record Prepared (debug : Bool) (db : DirectoryBackup) (w w' : W) : Type 0 where
      pub advances : Advances api w w'
      pub claim : PersistentVolumeClaim
      pub backup_claim : Tended api Kind.claim (key_of db.meta) w' claim
      pub claim_origin :
          Origin api Kind.claim
            (key_of db.meta)
            w
            (NewClaim db.meta.name db.kind db.pod_template.volume_claim_spec)
            claim
      pub snapshot : VolumeSnapshot
      pub has_snapshot :
          Tended api Kind.snapshot
            (record { namespace = db.meta.namespace; name = temp_name db })
            w'
            snapshot
      pub snapshot_origin :
          Origin api Kind.snapshot
            (record { namespace = db.meta.namespace; name = temp_name db })
            w
            (NewSnapshot
              (temp_name db)
              db.kind
              db.pod_template.volume_snapshot_class_name
              db.claim_to_backup)
            snapshot
      pub clone : PersistentVolumeClaim
      pub data_claim :
          Tended api Kind.claim
            (record { namespace = db.meta.namespace; name = temp_name db })
            w'
            clone
      -- the clone's volume is filled from the snapshot
      pub clone_origin :
          Origin api Kind.claim
            (record { namespace = db.meta.namespace; name = temp_name db })
            w
            (NewClaim (temp_name db) db.kind (record db.pod_template.volume_claim_spec {
              data_source = some (record {
                kind = "VolumeSnapshot";
                name = temp_name db;
                api_group = some "snapshot.storage.k8s.io";
              });
            }))
            clone
      pub job : Job
      pub has_job : api.get Kind.job (key_of db.meta) w' ≡ ok job
      -- the job reads the clone and writes to the backup's claim
      pub job_origin :
          (api.get Kind.job (key_of db.meta) w ≡ ok job)
          ⊎ ((api.get Kind.job (key_of db.meta) w ≡ err not_found)
              × NewJob api debug
                  (temp_name db)
                  db.meta.name
                  db.pod_template
                  ("backup" ∷ [])
                  db.meta
                  "DirectoryBackup"
                  db.kind
                  job)
      pub same_backups :
          (key : Key) → api.get Kind.directory_backup key w' ≡ api.get Kind.directory_backup key w

    module _ (debug : Bool) (db : DirectoryBackup) (w : W) where
      abbrev pub temp_key : Key
      temp_key = record { namespace = db.meta.namespace; name = temp_name db }

      abbrev pub callback : Mutate W (Unit {0}) Kind.claim
      callback = mutate_backup_claim api debug db

      pub claim_from :
          (pvc : PersistentVolumeClaim) (x : Unit {0}) (w1 : W)
          → Applied api Kind.claim (Unit {0}) (backup_blank api debug db) callback w (pvc, x) w1
          → Origin api Kind.claim
              (key_of db.meta)
              w
              (NewClaim db.meta.name db.kind db.pod_template.volume_claim_spec)
              pvc
      claim_from pvc x w1 a =
          Applied-Origin api law Kind.claim (Unit {0}) (backup_blank api debug db) callback w w1
            (NewClaim db.meta.name db.kind db.pod_template.volume_claim_spec) (pvc, x)
            (backup_claim-OwnersOnly api debug db w) (backup_claim-Makes api debug db w) a

      pub snapshot_from :
          (v : W) (snap : VolumeSnapshot) (x : Unit {0}) (v' : W)
          → Applied api Kind.snapshot
              (Unit {0})
              (snapshot_blank api debug db)
              (mutate_backup_snapshot api debug db)
              v
              (snap, x)
              v'
          → Origin api Kind.snapshot temp_key v
              (NewSnapshot
                (temp_name db)
                db.kind
                db.pod_template.volume_snapshot_class_name
                db.claim_to_backup)
              snap
      snapshot_from v snap x v' a =
          Applied-Origin api law Kind.snapshot (Unit {0}) (snapshot_blank api debug db)
            (mutate_backup_snapshot api debug db) v v'
            (NewSnapshot (temp_name db) db.kind db.pod_template.volume_snapshot_class_name
              db.claim_to_backup)
            (snap, x) (snapshot-OwnersOnly api debug db law v) (snapshot-Makes api debug db v law) a

      abbrev pub NewBackupJob : String → String → Job → Type 0
      NewBackupJob data_pvc backup_pvc job =
          NewJob api debug data_pvc backup_pvc db.pod_template ("backup" ∷ []) db.meta
            "DirectoryBackup" db.kind job

      pub job_from :
          (v v' : W) (data_pvc backup_pvc : String)
          → data_pvc ≡ temp_name db
          → backup_pvc ≡ db.meta.name
          → api.get Kind.job (key_of db.meta) v ≡ api.get Kind.job (key_of db.meta) w
          → (job : Job)
          → Made api debug data_pvc backup_pvc db.pod_template
              ("backup" ∷ [])
              db.meta
              "DirectoryBackup"
              db.kind
              v
              job
              v'
          → (api.get Kind.job (key_of db.meta) w ≡ ok job)
            ⊎ ((api.get Kind.job (key_of db.meta) w ≡ err not_found)
                × NewBackupJob (temp_name db) db.meta.name job)
      job_from v v' data_pvc backup_pvc d b same job made = elim made.how [
        | inl there ↦ inl (sym same ∙ there)
        | inr (absent, new) ↦ inr (sym same ∙ absent, subst₂ (λ x y. NewBackupJob x y job) d b new)
      ]
