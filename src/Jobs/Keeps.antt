-- ===== src/Jobs/Keeps.antt =====
-- controllers/job.go: no job is changed.
use ds_operator.Prelude.{String, Bool, List, ◌≡◌, sym, ◌∙◌, inl, inr, ok-ne-err, Ends, Ends_mono}
use ds_operator.Kube.Meta.{ObjectMeta, key_of}
use ds_operator.Kube.Workloads.{Job}
use ds_operator.Kube.Objects.{Kind}
use ds_operator.Kube.Client.{Client}
use ds_operator.Kube.Client.Laws.{IsLawful}
use ds_operator.Kube.Client.Keep.{OnlyAt-Preserves, OnlyAt-OnlyKind}
use ds_operator.Kube.Client.Steps.{Ensures}
use ds_operator.Api.Types.{DirectoryPodTemplate}
use ds_operator.Jobs.{create_ds_job}
use ds_operator.Jobs.Creation.{Made, create_ds_job-Made}

module _ {W : Type 0} (api : Client W) (debug : Bool) (data_pvc backup_pvc : String)
    (t : DirectoryPodTemplate) (args : List String) (owner : ObjectMeta)
    (owner_kind kind : String) where
  pub Made-Ensures :
      (w w' : W) (job : Job)
      → Made api debug data_pvc backup_pvc t args owner owner_kind kind w job w'
      → Ensures api Kind.job (key_of owner) w w'
  Made-Ensures w w' job made = record {
    adds = record {
      kept = OnlyAt-Preserves api Kind.job (key_of owner) w w' made.elsewhere (λ o g.
          elim made.how [
            | inl same ↦ made.stored ∙ sym same ∙ g
            | inr (absent, fresh) ↦ absurd (ok-ne-err (sym absent ∙ g))
          ]);
      only = OnlyAt-OnlyKind api Kind.job (key_of owner) w w' made.elsewhere;
    };
    object = job;
    stored = made.stored;
  }

  pub create_ds_job-Ensures :
      IsLawful api
      → (w : W)
      → Ends
          (create_ds_job api debug data_pvc backup_pvc t args owner owner_kind kind)
          w
          (λ _ w'. Ensures api Kind.job (key_of owner) w w')
          (λ _ w'. w' ≡ w)
  create_ds_job-Ensures law w =
      Ends_mono (λ job w' made. Made-Ensures w w' job made) (λ e w' same. same)
        (create_ds_job-Made api debug data_pvc backup_pvc t args owner owner_kind kind law w)
