-- ===== src/Restores/Telling.antt =====
-- controllers/directoryrestore_controller.go, Reconcile: what it makes of the job's status.
use ds_operator.Prelude.{
  ℕ, pos, ltb_ℤ, Bool, true, false, Bool-cases, ◌<◌, ◌≡◌, refl, sym, ap, ◌∙◌, ◌⊎◌, inl, inr, Error,
  ok, message, Option, some, none, Ends, Ends_mono, arith,
}
use ds_operator.Kube.Meta.{Key}
use ds_operator.Kube.Workloads.{Job}
use ds_operator.Kube.Objects.{Kind}
use ds_operator.Kube.Client.{Client}
use ds_operator.Kube.Client.Laws.{IsLawful}
use ds_operator.Api.Types.{DirectoryRestore, JobTimes}
use ds_operator.Runs.{job_times, completion}
use ds_operator.Restores.{
  Progress, progress_of, finished, after_job, restore_with, reconcile_restore, requeues,
}
use ds_operator.Restores.Safety.{Gentle}
use ds_operator.Restores.Outcome.{found_as, reconcile_restore-Restored}

-- The job has a completion time and failed pods.
pub record FailedJob (job : Job) : Type 0 where
  pub time : ℕ
  pub complete : job.status.completion_time ≡ some time
  pub failures : ltb_ℤ (pos 0) job.status.failed ≡ true

requeues-finished :
    (job : Job) (time : ℕ)
    → ltb_ℤ (pos 0) job.status.failed ≡ false
    → requeues (finished job (some time)) ≡ false
unfolding finished
requeues-finished job time e = elim (Bool-cases (ltb_ℤ (pos 0) job.status.succeeded)) [
  | inl s ↦ rw (e, s) refl
  | inr s ↦ rw (e, s) refl
]

module _ {W : Type 0} (api : Client W) (debug : Bool) (key : Key) (dr : DirectoryRestore)
    (job : Job) (w : W) where
  abbrev StatusStored : JobTimes → W → Type 0
  StatusStored times w' = api.get Kind.directory_restore key w' ≡ ok (record dr { status = times })

  -- What a call that returns tells: the job is complete without a failed pod, or not complete.
  abbrev pub Told : Bool → W → Type 0
  Told requeue w' =
      ((time : ℕ) × (job.status.completion_time ≡ some time)
        × (ltb_ℤ (pos 0) job.status.failed ≡ false)
        × (requeue ≡ false)
        × StatusStored
            (record {
              start_timestamp = some job.meta.creation_timestamp;
              completion_timestamp = some time;
            })
            w')
      ⊎ ((job.status.completion_time ≡ none)
          × (requeue ≡ true)
          × StatusStored
              (record {
                start_timestamp = some job.meta.creation_timestamp;
                completion_timestamp = dr.status.completion_timestamp;
              })
              w')

  -- What a call that fails tells: the job has failed and nothing is changed, or it has not.
  abbrev pub Refuses : Error → W → Type 0
  Refuses e w' =
      (FailedJob job × (e ≡ message "Restore Job had failures. Cant take snapshot") × (w' ≡ w))
      ⊎ ((FailedJob job → ⊥) × Gentle api w w')

  module _ (created : 0 < job.meta.creation_timestamp) where
    times_as : job_times (some job) dr.status ≡ record {
      start_timestamp = some job.meta.creation_timestamp;
      completion_timestamp = completion job.status.completion_time dr.status.completion_timestamp;
    }
    unfolding job_times
    times_as = ground arith

    progress_as : progress_of (some job) ≡ finished job job.status.completion_time
    unfolding progress_of
    progress_as = ground arith

    progress_with :
        (c : Option ℕ) → job.status.completion_time ≡ c → progress_of (some job) ≡ finished job c
    progress_with c complete = progress_as ∙ ap (finished job) complete

  module _ (law : IsLawful api) (g : api.get Kind.directory_restore key w ≡ ok dr)
      (h : api.get Kind.job key w ≡ ok job) where
    created : 0 < job.meta.creation_timestamp
    created = law.get_created Kind.job key w job h

    -- Where the job has not failed, the call ends as any, and tells the times and the progress.
    unfailed :
        (p : Progress) (c : Option ℕ)
        → job.status.completion_time ≡ c
        → progress_of (some job) ≡ p
        → (FailedJob job → ⊥)
        → ((requeue : Bool) (w' : W)
            → requeue ≡ requeues p
            → StatusStored
                (record {
                  start_timestamp = some job.meta.creation_timestamp;
                  completion_timestamp = completion c dr.status.completion_timestamp;
                })
                w'
            → Told requeue w')
        → Ends (reconcile_restore api debug key) w Told Refuses
    unfailed p c complete stands sound tells =
        Ends_mono
          (λ requeue w' r. tells requeue w' (r.requeues ∙ ap requeues stands) (
            r.status
            ∙ ap (λ times. ok (record dr { status = times })) (times_as created)
            ∙ ap
                (λ o. ok (record dr {
                  status = record {
                    start_timestamp = some job.meta.creation_timestamp;
                    completion_timestamp = completion o dr.status.completion_timestamp;
                  };
                }))
                complete))
          (λ e w' gentle. inr (sound, gentle))
          (reconcile_restore-Restored api debug key law dr (some job) w g h)

    -- Where it has, the call stops before the status is written.
    failed :
        (time : ℕ)
        → job.status.completion_time ≡ some time
        → ltb_ℤ (pos 0) job.status.failed ≡ true
        → Ends (reconcile_restore api debug key) w Told Refuses
    unfolding restore_with after_job finished
    failed time complete failures =
        let stands : progress_of (some job) ≡ Progress.failed =
          progress_with created (some time) complete ∙ rw failures refl in
        Ends.fails (message "Restore Job had failures. Cant take snapshot") w
          (found_as api debug key law dr (some job) w g h ∙ rw stands refl)
          (inl (record { time = time; complete = complete; failures = failures }, refl, refl))

    by_completion :
        (c : Option ℕ)
        → job.status.completion_time ≡ c
        → Ends (reconcile_restore api debug key) w Told Refuses
    unfolding finished
    by_completion none complete =
        unfailed Progress.running none complete (progress_with created none complete)
          (λ f. let e : some f.time ≡ none = sym f.complete ∙ complete in cc)
          (λ requeue w' r stored. inr (complete, r, stored))
    by_completion (some time) complete = elim (Bool-cases (ltb_ℤ (pos 0) job.status.failed)) [
      | inl e ↦ failed time complete e
      | inr e ↦
          unfailed (finished job (some time)) (some time) complete
            (progress_with created (some time) complete)
            (λ f. let both : true ≡ false = sym f.failures ∙ e in cc)
            (λ requeue w' r stored.
              inl (time, complete, e, r ∙ requeues-finished job time e, stored))
    ]

    -- Reconcile of a restore that is there, with a job of its name, does not panic. It returns with
    -- the job's times in the status: without coming back where the job has a completion time and no
    -- failed pod, and to come back in a minute where it has no completion time, its failed pods not
    -- looked at. Or it fails: with "Restore Job had failures" and nothing changed, the status
    -- included, where the job has a completion time and failed pods, and else with no object that
    -- is no restore changed and only claims, snapshots and jobs added.
    pub reconcile_restore-Tells : Ends (reconcile_restore api debug key) w Told Refuses
    reconcile_restore-Tells = by_completion job.status.completion_time refl
