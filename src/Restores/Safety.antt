-- ===== src/Restores/Safety.antt =====
-- controllers/directoryrestore_controller.go: what a restore does to the cluster.
use ds_operator.Prelude.{
  Bool, ◌≡◌, ◌≢◌, refl, ◌∙◌, ok, message, Ends, Ends-bind, Ends_mono, pure, ◌>>=◌, ◌∷◌, [],
}
use ds_operator.Kube.Meta.{Key, key_of}
use ds_operator.Kube.Workloads.{Job}
use ds_operator.Kube.Objects.{Kind, Obj}
use ds_operator.Kube.Client.{Client}
use ds_operator.Kube.Client.Laws.{IsLawful, OnlyAt}
use ds_operator.Kube.Client.Keep.{Preserves-refl, OnlyKind-refl}
use ds_operator.Kube.Client.Steps.{Adds}
use ds_operator.Api.Types.{DirectoryRestore}
use ds_operator.Jobs.{create_ds_job}
use ds_operator.Jobs.Keeps.{create_ds_job-Ensures}
use ds_operator.Restores.{Progress, after_job, run_restore, mutate_restore_claim}
use ds_operator.Restores.Steps.{temp_key, blank_claim, restore_claim-Ensures, take_restored-Adds}

module _ {W : Type 0} (api : Client W) where
  -- Every object that is no restore is kept as it is, and only claims, snapshots and jobs are added.
  pub record Gentle (w w' : W) : Type 0 where
    pub kept :
        (k : Kind)
        → Kind.directory_restore ≢ k
        → (key : Key) (o : Obj k) → api.get k key w ≡ ok o
        → api.get k key w' ≡ ok o
    pub only :
        (k : Kind) (key : Key)
        → Kind.directory_restore ≢ k
        → Kind.claim ≢ k
        → Kind.snapshot ≢ k
        → Kind.job ≢ k
        → api.get k key w' ≡ api.get k key w

  pub Gentle-refl : (w : W) → Gentle w w
  Gentle-refl w = record { kept = λ k n key o g. g; only = λ k key a b c d. refl }

  pub Gentle-trans : {w w' w'' : W} → Gentle w w' → Gentle w' w'' → Gentle w w''
  Gentle-trans p q = record {
    kept = λ k n key o g. q.kept k n key o (p.kept k n key o g);
    only = λ k key a b c d. q.only k key a b c d ∙ p.only k key a b c d;
  }

  pub Gentle-claim : {w w' : W} → Adds api Kind.claim w w' → Gentle w w'
  Gentle-claim p = record {
    kept = λ k n key o g. p.kept.at k key o g;
    only = λ k key a b c d. p.only.at k key b;
  }

  pub Gentle-snapshot : {w w' : W} → Adds api Kind.snapshot w w' → Gentle w w'
  Gentle-snapshot p = record {
    kept = λ k n key o g. p.kept.at k key o g;
    only = λ k key a b c d. p.only.at k key c;
  }

  pub Gentle-job : {w w' : W} → Adds api Kind.job w w' → Gentle w w'
  Gentle-job p = record {
    kept = λ k n key o g. p.kept.at k key o g;
    only = λ k key a b c d. p.only.at k key d;
  }

  pub Gentle-status :
      {w w' : W} (key : Key) → OnlyAt api Kind.directory_restore key w w' → Gentle w w'
  Gentle-status key h = record {
    kept = λ k n key' o g. h k key' (λ p. absurd (n p)) ∙ g;
    only = λ k key' a b c d. h k key' (λ p. absurd (a p));
  }

  nothing : (w : W) → Adds api Kind.snapshot w w
  nothing w = record { kept = Preserves-refl api w; only = OnlyKind-refl api Kind.snapshot w }

  module _ (law : IsLawful api) (debug : Bool) where
    -- Before the status is written: a snapshot is added only where the job has succeeded.
    pub after_job-Adds :
        (dr : DirectoryRestore) (p : Progress) (w : W)
        → Ends
            (after_job api debug dr p)
            w
            (λ _ w'. Adds api Kind.snapshot w w' × (p ≢ Progress.succeeded → w' ≡ w))
            (λ _ w'. w' ≡ w)
    unfolding after_job
    after_job-Adds dr Progress.running w = Ends.returns tt w refl (nothing w, λ n. refl)
    after_job-Adds dr Progress.failed w =
        Ends.fails (message "Restore Job had failures. Cant take snapshot") w refl refl
    after_job-Adds dr Progress.succeeded w =
        Ends_mono (λ x w' adds. (adds, λ n. absurd (n refl))) (λ e w' q. absurd q)
          (take_restored-Adds api debug dr law w)
    after_job-Adds dr Progress.completed w = Ends.returns tt w refl (nothing w, λ n. refl)

    -- What is there after the claim and the job have been made.
    pub record Runs (dr : DirectoryRestore) (w w' : W) : Type 0 where
      pub gentle : Gentle w w'
      pub claim : Obj Kind.claim
      pub has_claim : api.get Kind.claim (temp_key api debug dr law) w' ≡ ok claim
      pub job : Job
      pub has_job : api.get Kind.job (key_of dr.meta) w' ≡ ok job
      pub same_restores :
          (key : Key) → api.get Kind.directory_restore key w' ≡ api.get Kind.directory_restore key w
      pub same_snapshots : (key : Key) → api.get Kind.snapshot key w' ≡ api.get Kind.snapshot key w

    pub run_restore-Runs :
        (dr : DirectoryRestore) (w : W)
        → Ends (run_restore api debug dr) w (λ _ w'. Runs dr w w') (λ _ w'. Gentle w w')
    unfolding run_restore
    run_restore-Runs dr w =
        Ends-bind
          (api.create_or_update Kind.claim (Unit {0}) (blank_claim api debug dr law)
            (mutate_restore_claim api debug dr))
          (λ (pvc, x).
            (create_ds_job api debug pvc.meta.name dr.source_pvc_name dr.pod_template
              ("restore" ∷ []) dr.meta "DirectoryRestore" dr.kind)
            >>= (λ job. pure tt))
          w
          (Ends_mono (λ r w' p. p) (λ e w' same. rw same (Gentle-refl w))
            (restore_claim-Ensures api debug dr law w))
          (λ r w' (c, stored).
            Ends-bind
              (create_ds_job api debug r.0.meta.name dr.source_pvc_name dr.pod_template
                ("restore" ∷ []) dr.meta "DirectoryRestore" dr.kind)
              (λ job. pure tt) w'
              (Ends_mono (λ j w'' p. p) (λ e w'' same. rw same (Gentle-claim c.adds))
                (create_ds_job-Ensures api debug r.0.meta.name dr.source_pvc_name dr.pod_template
                  ("restore" ∷ []) dr.meta "DirectoryRestore" dr.kind law w'))
              (λ j w'' made. Ends.returns tt w'' refl (record {
                gentle = Gentle-trans (Gentle-claim c.adds) (Gentle-job made.adds);
                claim = c.object;
                has_claim =
                    made.adds.kept.at Kind.claim (temp_key api debug dr law) c.object c.stored;
                job = made.object;
                has_job = made.stored;
                same_restores = λ key.
                    made.adds.only.at Kind.directory_restore key (λ e. cc)
                    ∙ c.adds.only.at Kind.directory_restore key (λ e. cc);
                same_snapshots = λ key.
                    made.adds.only.at Kind.snapshot key (λ e. cc)
                    ∙ c.adds.only.at Kind.snapshot key (λ e. cc);
              })))
