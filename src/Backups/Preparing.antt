-- ===== src/Backups/Preparing.antt =====
-- controllers/directorybackup_controller.go, Reconcile: the claims, the snapshot and the job.
use ds_operator.Prelude.{
  Bool, refl, sym, ap, ◌∙◌, [], ◌∷◌, Ends, Ends-bind, Ends_mono, pure, ◌>>=◌, Action,
}
use ds_operator.Kube.Meta.{key_of}
use ds_operator.Kube.Volumes.{PersistentVolumeClaim, VolumeSnapshot}
use ds_operator.Kube.Workloads.{Job}
use ds_operator.Kube.Objects.{Kind}
use ds_operator.Kube.Client.{Client}
use ds_operator.Kube.Client.Laws.{IsLawful}
use ds_operator.Api.Types.{DirectoryBackup}
use ds_operator.Claims.{empty_claim}
use ds_operator.Jobs.{create_ds_job}
use ds_operator.Jobs.Creation.{create_ds_job-Made}
use ds_operator.Jobs.Keeps.{Made-Ensures}
use ds_operator.Backups.{
  temp_name, clone_spec, mutate_backup_claim, mutate_backup_snapshot, mutate_data_claim, run_backup,
}
use ds_operator.Backups.Steps.{
  backup_blank, snapshot_blank, backup_claim-Sound, backup_claim-OwnersOnly, snapshot-Sound,
  snapshot-OwnersOnly, data-Sound, data-OwnersOnly,
}
use ds_operator.Backups.Parts.{Prepared, temp_key, claim_from, snapshot_from, job_from}
use ds_operator.Backups.Origins.{NewClaim, NewSnapshot, Origin-earlier, temp-ne, clone-Origin}
use ds_operator.Backups.Advances.{
  Advances, Advances-refl, Advances-trans, Advances-job, claim_step, snapshot_step,
}

module _ {W : Type 0} (api : Client W) where
  module _ (law : IsLawful api) where
    module _ (debug : Bool) (db : DirectoryBackup) (w : W) where
      pub run_backup-Prepared :
          Ends
            (run_backup api debug db)
            w
            (λ _ w'. Prepared api law debug db w w')
            (λ _ w'. Advances api w w')
      unfolding run_backup
      run_backup-Prepared =
          Ends-bind
            (api.create_or_update Kind.claim (Unit {0}) (backup_blank api debug db)
              (mutate_backup_claim api debug db))
            (λ (pvc, x). from_claim pvc) w
            (Ends_mono (λ r w1 p. p) (λ e w1 same. rw same (Advances-refl api w))
              (claim_step api law (backup_blank api debug db) (mutate_backup_claim api debug db) w
                (backup_claim-Sound api debug db w) (backup_claim-OwnersOnly api debug db w)))
            (λ (pvc, x) w1 ((adv1, has1, same1), a1).
              Ends-bind
                (api.create_or_update Kind.snapshot (Unit {0}) (snapshot_blank api debug db)
                  (mutate_backup_snapshot api debug db))
                (λ (snap, y). from_snapshot pvc snap) w1
                (Ends_mono (λ r w2 p. p) (λ e w2 same. rw same adv1)
                  (snapshot_step api law (snapshot_blank api debug db)
                    (mutate_backup_snapshot api debug db) w1 (snapshot-Sound api debug db law w1)
                    (snapshot-OwnersOnly api debug db law w1)))
                (λ (snap, y) w2 ((adv2, has2, same2), a2).
                  let named =
                    law.get_named Kind.snapshot (temp_key api law debug db w) w2 snap has2 in
                  Ends-bind
                    (api.create_or_update Kind.claim (Unit {0})
                      (empty_claim snap.meta.name snap.meta.namespace)
                      (mutate_data_claim api debug db snap.meta.name))
                    (λ (clone, z). from_data pvc clone) w2
                    (Ends_mono (λ r w3 p. p) (λ e w3 same. rw same (Advances-trans api adv1 adv2))
                      (claim_step api law (empty_claim snap.meta.name snap.meta.namespace)
                        (mutate_data_claim api debug db snap.meta.name) w2
                        (data-Sound api debug db law snap.meta.name w2
                          (empty_claim snap.meta.name snap.meta.namespace))
                        (data-OwnersOnly api debug db law snap.meta.name w2
                          (empty_claim snap.meta.name snap.meta.namespace))))
                    (λ (clone, z) w3 ((adv3, has3, same3), a3).
                      Ends-bind (job_of pvc clone) (λ job. pure tt) w3
                        (Ends_mono (λ j w4 p. p)
                          (λ e w4 same.
                            rw same (Advances-trans api adv1 (Advances-trans api adv2 adv3)))
                          (create_ds_job-Made api debug clone.meta.name pvc.meta.name
                            db.pod_template ("backup" ∷ []) db.meta "DirectoryBackup" db.kind law
                            w3))
                        (λ j w4 made.
                          let ensured =
                            Made-Ensures api debug clone.meta.name pvc.meta.name db.pod_template
                              ("backup" ∷ []) db.meta "DirectoryBackup" db.kind w3 w4 j made in
                          let adv4 = Advances-job api ensured.adds in
                          Ends.returns tt w4 refl (record {
                            advances =
                                Advances-trans api adv1
                                  (Advances-trans api adv2 (Advances-trans api adv3 adv4));
                            claim = pvc;
                            backup_claim =
                                (Advances-trans api adv2 (Advances-trans api adv3 adv4)).tended
                                  Kind.claim (λ e. cc) (key_of db.meta) pvc has1;
                            claim_origin = claim_from api law debug db w pvc x w1 a1;
                            snapshot = snap;
                            has_snapshot =
                                (Advances-trans api adv3 adv4).tended Kind.snapshot (λ e. cc)
                                  (temp_key api law debug db w) snap has2;
                            snapshot_origin =
                                Origin-earlier api Kind.snapshot (temp_key api law debug db w) w w1
                                  (NewSnapshot (temp_name db) db.kind
                                    db.pod_template.volume_snapshot_class_name db.claim_to_backup)
                                  snap
                                  (a1.elsewhere Kind.snapshot (temp_key api law debug db w)
                                    (λ e. absurd cc))
                                  (snapshot_from api law debug db w w1 snap y w2 a2);
                            clone = clone;
                            data_claim =
                                adv4.tended Kind.claim (λ e. cc) (temp_key api law debug db w) clone
                                  (ap (λ k. api.get Kind.claim k w3) (sym named) ∙ has3);
                            clone_origin =
                                Origin-earlier api Kind.claim (temp_key api law debug db w) w w2
                                  (NewClaim (temp_name db) db.kind (clone_spec db (temp_name db)))
                                  clone
                                  (a2.elsewhere Kind.claim (temp_key api law debug db w)
                                      (λ e. absurd cc)
                                    ∙ a1.elsewhere Kind.claim (temp_key api law debug db w)
                                        (λ e same.
                                          temp-ne db.meta.name (sym (ap (λ k. k.name) same))))
                                  (clone-Origin api debug db w2 law snap.meta.name
                                    snap.meta.namespace (temp_key api law debug db w) w3 (clone, z)
                                    named
                                    (data-OwnersOnly api debug db law snap.meta.name w2
                                      (empty_claim snap.meta.name snap.meta.namespace))
                                    a3);
                            job = j;
                            job_origin =
                                job_from api law debug db w w3 w4 clone.meta.name pvc.meta.name
                                  (ap (λ k. k.name)
                                    (law.get_named Kind.claim (key_of snap.meta) w3 clone has3
                                      ∙ named))
                                  (ap (λ k. k.name)
                                    (law.get_named Kind.claim (key_of db.meta) w1 pvc has1))
                                  (a3.elsewhere Kind.job (key_of db.meta) (λ e. absurd cc)
                                    ∙ a2.elsewhere Kind.job (key_of db.meta) (λ e. absurd cc)
                                    ∙ a1.elsewhere Kind.job (key_of db.meta) (λ e. absurd cc))
                                  j made;
                            has_job = made.stored;
                            same_backups = λ key.
                                ensured.adds.only.at Kind.directory_backup key (λ e. cc)
                                ∙ same3 key
                                ∙ same2 key
                                ∙ same1 key;
                          })))))
        where
          job_of : PersistentVolumeClaim → PersistentVolumeClaim → Action W Job
          job_of pvc clone =
              create_ds_job api debug clone.meta.name pvc.meta.name db.pod_template ("backup" ∷ [])
                db.meta "DirectoryBackup" db.kind

          from_data : PersistentVolumeClaim → PersistentVolumeClaim → Action W (Unit {0})
          from_data pvc clone = job_of pvc clone >>= (λ job. pure tt)

          from_snapshot : PersistentVolumeClaim → VolumeSnapshot → Action W (Unit {0})
          from_snapshot pvc snap =
              api.create_or_update Kind.claim (Unit {0})
                (empty_claim snap.meta.name snap.meta.namespace)
                (mutate_data_claim api debug db snap.meta.name)
              >>= (λ (clone, z). from_data pvc clone)

          from_claim : PersistentVolumeClaim → Action W (Unit {0})
          from_claim pvc =
              api.create_or_update Kind.snapshot (Unit {0}) (snapshot_blank api debug db)
                (mutate_backup_snapshot api debug db)
              >>= (λ (snap, y). from_snapshot pvc snap)
