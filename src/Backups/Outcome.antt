-- ===== src/Backups/Outcome.antt =====
-- controllers/directorybackup_controller.go, Reconcile.
use mathlib.Core.Path.{subst}
use ds_operator.Prelude.{
  Bool, ◌≡◌, refl, sym, ap, ◌∙◌, inl, inr, Result, ok, err, not_found, Option, some, none, Ends,
  Ends-bind, Ends_mono, Ends_at, ◌>>=◌, Action, continue,
}
use ds_operator.Kube.Meta.{Key, key_of}
use ds_operator.Kube.Workloads.{Job}
use ds_operator.Kube.Objects.{Kind}
use ds_operator.Kube.Client.{Client}
use ds_operator.Kube.Client.Laws.{IsLawful, OnlyAt}
use ds_operator.Api.Types.{DirectoryBackup}
use ds_operator.Runs.{found_or_zero, job_times}
use ds_operator.Backups.{run_backup, report_backup, backup_found, reconcile_backup}
use ds_operator.Backups.Parts.{Prepared}
use ds_operator.Backups.Preparing.{run_backup-Prepared}
use ds_operator.Backups.Advances.{Advances, Advances-refl, Advances-trans, Advances-status}

module _ {W : Type 0} (api : Client W) where
  module _ (law : IsLawful api) where
    -- The backup's status tells the job's times, nothing else had changed when the steps began, and
    -- the steps have been taken.
    pub record BackedUp (debug : Bool) (db : DirectoryBackup) (job : Option Job) (w w' : W)
        : Type 0 where
      pub status :
          api.get Kind.directory_backup (key_of db.meta) w'
          ≡ ok (record db { status = job_times job db.status })
      pub at : W
      pub reported : OnlyAt api Kind.directory_backup (key_of db.meta) w at
      pub prepared : Prepared api law debug (record db { status = job_times job db.status }) at w'

    module _ (debug : Bool) (key : Key) where
      -- What was read of the job: no job, or the one that is there.
      abbrev pub Reads : Option Job → W → Type 0
      Reads none w = api.get Kind.job key w ≡ err not_found
      Reads (some j) w = api.get Kind.job key w ≡ ok j

      job_read :
          (job : Option Job) (w : W)
          → Reads job w
          → found_or_zero (api.get Kind.job key w) w ≡ (ok job, w)
      unfolding found_or_zero
      job_read none w h = rw h refl
      job_read (some j) w h = rw h refl

      backup_read :
          (db : DirectoryBackup) (w : W)
          → api.get Kind.directory_backup key w ≡ ok db
          → found_or_zero (api.get Kind.directory_backup key w) w ≡ (ok (some db), w)
      unfolding found_or_zero
      backup_read db w h = rw h refl

      abbrev status_then_run : DirectoryBackup → Option Job → Action W (Unit {0})
      status_then_run db job = report_backup api debug key db job >>= run_backup api debug

      backup_as :
          (db : DirectoryBackup) (job : Option Job) (w : W)
          → api.get Kind.directory_backup key w ≡ ok db
          → Reads job w
          → reconcile_backup api debug key w ≡ status_then_run db job w
      unfolding reconcile_backup backup_found
      backup_as db job w g reads =
          ap
            (λ ((r, v) : Result (Option DirectoryBackup) × W).
              continue r (backup_found api debug key) v)
            (backup_read db w g)
          ∙ ap (λ ((r, v) : Result (Option Job) × W). continue r (status_then_run db) v)
              (job_read job w reads)

      status_ends :
          (db : DirectoryBackup) (job : Option Job) (w : W)
          → api.get Kind.directory_backup (key_of db.meta) w ≡ ok db
          → Ends
              (report_backup api debug key db job)
              w
              (λ db' w1.
                (db' ≡ record db { status = job_times job db.status })
                × (api.get Kind.directory_backup (key_of db.meta) w1
                    ≡ ok (record db { status = job_times job db.status }))
                × OnlyAt api Kind.directory_backup (key_of db.meta) w w1)
              (λ _ w1. w1 ≡ w)
      unfolding report_backup
      status_ends db job w g =
          elim (law.update_status_outcome Kind.directory_backup
            (record db { status = job_times job db.status }) db w g) [
              | inl (e, refused) ↦ Ends.fails e w refused refl
              | inr a ↦
                  Ends.returns a.object a.after a.returns
                    (a.content, a.stored ∙ ap (λ o. ok o) a.content, a.elsewhere)
            ]

      -- Reconcile of a backup that is there, with the job of its name or none, does not panic. No
      -- object that is no backup is removed or changed but for its owners, and only claims,
      -- snapshots and jobs are added, even on an error. If it returns, the status tells the job's
      -- times, and there are the backup's claim, a snapshot, a second claim and the job. A claim or
      -- snapshot that was there is as it was but for its owners. If new, the backup's claim has the
      -- spec of the pod template, the snapshot is of the claim to back up, and the second claim is
      -- that spec with the snapshot as its data source. The job that was there is as it was, and a
      -- new one runs "backup" from the second claim to the first.
      pub reconcile_backup-BackedUp :
          (db : DirectoryBackup) (job : Option Job) (w : W)
          → api.get Kind.directory_backup key w ≡ ok db
          → Reads job w
          → Ends
              (reconcile_backup api debug key)
              w
              (λ _ w'. BackedUp debug db job w w')
              (λ _ w'. Advances api w w')
      reconcile_backup-BackedUp db job w g reads =
          let here = law.get_named Kind.directory_backup key w db g in
          Ends_at (backup_as db job w g reads) (
            Ends-bind (report_backup api debug key db job) (run_backup api debug) w
              (Ends_mono (λ d w1 p. p) (λ e w1 same. rw same (Advances-refl api w))
                (status_ends db job w (ap (λ k. api.get Kind.directory_backup k w) here ∙ g)))
              (λ db' w1 (same, stored, only).
                subst
                  (λ d.
                    Ends (run_backup api debug d) w1 (λ _ w'. BackedUp debug db job w w')
                      (λ _ w'. Advances api w w'))
                  (sym same)
                  (Ends_mono
                    (λ x w2 p. record {
                      status = p.same_backups (key_of db.meta) ∙ stored;
                      at = w1;
                      reported = only;
                      prepared = p;
                    })
                    (λ e w2 q. Advances-trans api (Advances-status api (key_of db.meta) only) q)
                    (run_backup-Prepared api law debug
                      (record db { status = job_times job db.status }) w1))))
