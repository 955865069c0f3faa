-- ===== src/Restores/Outcome.antt =====
-- controllers/directoryrestore_controller.go, Reconcile.
use mathlib.Core.Path.{subst}
use ds_operator.Prelude.{
  Bool, ◌≡◌, ◌≢◌, refl, sym, ap, ◌∙◌, inl, inr, Result, ok, err, not_found, Option, some, none,
  Ends, Ends-bind, Ends_mono, Ends_at, pure, ◌>>=◌, Action, continue,
}
use ds_operator.Kube.Meta.{Key, key_of}
use ds_operator.Kube.Workloads.{Job}
use ds_operator.Kube.Objects.{Kind, Obj}
use ds_operator.Kube.Client.{Client}
use ds_operator.Kube.Client.Laws.{IsLawful}
use ds_operator.Api.Types.{DirectoryRestore}
use ds_operator.Runs.{found_or_zero, job_times}
use ds_operator.Restores.{
  Progress, progress_of, after_job, run_restore, restore_with, restore_found, reconcile_restore,
  requeues, temp_name,
}
use ds_operator.Restores.Safety.{
  Gentle, Gentle-refl, Gentle-trans, Gentle-snapshot, Gentle-status, after_job-Adds,
  run_restore-Runs,
}

module _ {W : Type 0} (api : Client W) (debug : Bool) (key : Key) where
  -- The job's progress is that of `job`, the job that was found.
  abbrev reported : DirectoryRestore → Option Job → DirectoryRestore
  reported dr job = record dr { status = job_times job dr.status }

  -- The status tells the job's times, the claim and the job are there, a snapshot is added only if
  -- the job has succeeded, and the call comes back as long as the job runs.
  pub record Restored (dr : DirectoryRestore) (job : Option Job) (w : W) (requeue : Bool) (w' : W)
      : Type 0 where
    pub gentle : Gentle api w w'
    pub status : api.get Kind.directory_restore key w' ≡ ok (reported dr job)
    pub claim : Obj Kind.claim
    pub has_claim :
        api.get Kind.claim (record { namespace = dr.meta.namespace; name = temp_name dr }) w'
        ≡ ok claim
    pub its_job : Job
    pub has_job : api.get Kind.job key w' ≡ ok its_job
    pub no_snapshot :
        progress_of job ≢ Progress.succeeded
        → (k : Key) → api.get Kind.snapshot k w' ≡ api.get Kind.snapshot k w
    pub requeues : requeue ≡ requeues (progress_of job)

  -- What was read of the job: no job, or the one that is there.
  abbrev pub Reads : Option Job → W → Type 0
  Reads none w = api.get Kind.job key w ≡ err not_found
  Reads (some j) w = api.get Kind.job key w ≡ ok j

  module _ (law : IsLawful api) where
    module _ (dr : DirectoryRestore) (job : Option Job) (w : W) (here : key_of dr.meta ≡ key) where
      -- The status update, where the restore is still as it was read.
      status_ends :
          (w1 : W)
          → api.get Kind.directory_restore key w1 ≡ ok dr
          → Ends
              (api.update_status Kind.directory_restore (reported dr job))
              w1
              (λ dr' w2.
                (dr' ≡ reported dr job)
                × (api.get Kind.directory_restore key w2 ≡ ok (reported dr job))
                × ((k : Key) → api.get Kind.snapshot k w2 ≡ api.get Kind.snapshot k w1)
                × Gentle api w1 w2)
              (λ _ w2. w2 ≡ w1)
      status_ends w1 g =
          elim (law.update_status_outcome Kind.directory_restore (reported dr job) dr w1
            (ap (λ k. api.get Kind.directory_restore k w1) here ∙ g)) [
              | inl (e, refused) ↦ Ends.fails e w1 refused refl
              | inr a ↦ Ends.returns a.object a.after a.returns (
                a.content,
                ap (λ k. api.get Kind.directory_restore k a.after) (sym here)
                    ∙ a.stored
                    ∙ ap (λ o. ok o) a.content,
                λ k. a.elsewhere Kind.snapshot k (λ p. absurd cc),
                Gentle-status api (key_of dr.meta) a.elsewhere,
              )
            ]

      restore_with-ends :
          api.get Kind.directory_restore key w ≡ ok dr
          → Ends (restore_with api debug key dr job) w (Restored dr job w) (λ _ w'. Gentle api w w')
      unfolding restore_with
      restore_with-ends g =
          Ends-bind (after_job api debug dr (progress_of job)) (λ x. rest) w
            (Ends_mono (λ x w1 p. p) (λ e w1 same. rw same (Gentle-refl api w))
              (after_job-Adds api law debug dr (progress_of job) w))
            (λ x w1 (adds, idle).
              Ends-bind (api.update_status Kind.directory_restore (reported dr job)) last w1
                (Ends_mono (λ dr' w2 p. p) (λ e w2 same. rw same (Gentle-snapshot api adds))
                  (status_ends w1 (adds.kept.at Kind.directory_restore key dr g)))
                (λ dr' w2 (same, stored, snaps, gentle).
                  subst (λ d. Ends (last d) w2 (Restored dr job w) (λ _ w'. Gentle api w w'))
                    (sym same)
                    (Ends-bind (run_restore api debug (reported dr job))
                      (λ y. pure (requeues (progress_of job))) w2
                      (Ends_mono (λ y w3 p. p)
                        (λ e w3 q.
                          Gentle-trans api (Gentle-snapshot api adds) (Gentle-trans api gentle q))
                        (run_restore-Runs api law debug (reported dr job) w2))
                      (λ y w3 runs. Ends.returns (requeues (progress_of job)) w3 refl (record {
                        gentle =
                            Gentle-trans api (Gentle-snapshot api adds)
                              (Gentle-trans api gentle runs.gentle);
                        status = runs.same_restores key ∙ stored;
                        claim = runs.claim;
                        has_claim = runs.has_claim;
                        its_job = runs.job;
                        has_job = ap (λ k. api.get Kind.job k w3) (sym here) ∙ runs.has_job;
                        no_snapshot = λ n k.
                            runs.same_snapshots k
                            ∙ snaps k
                            ∙ ap (λ v. api.get Kind.snapshot k v) (idle n);
                        requeues = refl;
                      })))))
        where
          last : DirectoryRestore → Action W Bool
          last dr' = run_restore api debug dr' >>= (λ y. pure (requeues (progress_of job)))

          rest : Action W Bool
          rest = api.update_status Kind.directory_restore (reported dr job) >>= last

    job_read :
        (job : Option Job) (w : W)
        → Reads job w
        → found_or_zero (api.get Kind.job key w) w ≡ (ok job, w)
    unfolding found_or_zero
    job_read none w h = rw h refl
    job_read (some j) w h = rw h refl

    restore_read :
        (dr : DirectoryRestore) (w : W)
        → api.get Kind.directory_restore key w ≡ ok dr
        → found_or_zero (api.get Kind.directory_restore key w) w ≡ (ok (some dr), w)
    unfolding found_or_zero
    restore_read dr w h = rw h refl

    pub found_as :
        (dr : DirectoryRestore) (job : Option Job) (w : W)
        → api.get Kind.directory_restore key w ≡ ok dr
        → Reads job w
        → reconcile_restore api debug key w ≡ restore_with api debug key dr job w
    unfolding reconcile_restore restore_found
    found_as dr job w g reads =
        ap
          (λ ((r, v) : Result (Option DirectoryRestore) × W).
            continue r (restore_found api debug key) v)
          (restore_read dr w g)
        ∙ ap (λ ((r, v) : Result (Option Job) × W). continue r (restore_with api debug key dr) v)
            (job_read job w reads)

    -- Reconcile of a restore that is there, with the job of its name or none, does not panic. No
    -- object that is no restore is changed, and only claims, snapshots and jobs are added, even on
    -- an error. If it returns, the status tells the job's times, the claim and the job are there, a
    -- snapshot was added only if the job has succeeded, and it comes back as long as the job runs.
    pub reconcile_restore-Restored :
        (dr : DirectoryRestore) (job : Option Job) (w : W)
        → api.get Kind.directory_restore key w ≡ ok dr
        → Reads job w
        → Ends (reconcile_restore api debug key) w (Restored dr job w) (λ _ w'. Gentle api w w')
    reconcile_restore-Restored dr job w g reads =
        Ends_at (found_as dr job w g reads)
          (restore_with-ends dr job w (law.get_named Kind.directory_restore key w dr g) g)
