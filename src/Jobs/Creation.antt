-- ===== src/Jobs/Creation.antt =====
-- controllers/job.go: a job is made once and then left alone.
use ds_operator.Prelude.{
  String, Bool, false, Bool-cases, ◌≡◌, ◌≢◌, refl, sym, ap, ◌∙◌, ◌⊎◌, inl, inr, ℕ, Result, ok, err,
  panic, not_found, List, none, some, ltb, arith, Ends, Ends-bind, ok-injective, ok-ne-panic,
  ok-ne-err, pure,
}
use ds_operator.Kube.Meta.{ObjectMeta, OwnerReference, key_of}
use ds_operator.Kube.Workloads.{Job}
use ds_operator.Kube.Objects.{Kind}
use ds_operator.Kube.Client.{Client}
use ds_operator.Kube.Client.Laws.{IsLawful, OnlyAt}
use ds_operator.Kube.Client.Keep.{Idle, Applied-old}
use ds_operator.Kube.Client.Apply.{Applied, Sound, create_or_update-ends}
use ds_operator.Api.Types.{DirectoryPodTemplate}
use ds_operator.Labels.{create_labels}
use ds_operator.Jobs.{job_pod, mutate_job, new_job, create_ds_job, empty_job, with_owner}

with_owner-ok :
    (made n : Job) (x : Unit {0}) (r : Result ObjectMeta)
    → with_owner made r ≡ ok (n, x)
    → (m : ObjectMeta) × (r ≡ ok m) × (n ≡ record made { meta = m })
with_owner-ok made n x (ok m) h =
    (m, refl, ap (λ (t, y). t) (ok-injective {A = Job × Unit {0}} (sym h)))
with_owner-ok made n x (err e) h = absurd (ok-ne-err h)
with_owner-ok made n x panic h = absurd (ok-ne-panic (sym h))

with_owner-no_panic : (made : Job) (r : Result ObjectMeta) → r ≢ panic → with_owner made r ≢ panic
with_owner-no_panic made (ok m) n h = ok-ne-panic h
with_owner-no_panic made (err e) n h = cc
with_owner-no_panic made panic n h = n refl

module _ {W : Type 0} (api : Client W) (debug : Bool) (data_pvc backup_pvc : String)
    (t : DirectoryPodTemplate) (args : List String) (owner : ObjectMeta)
    (owner_kind kind : String) where
  abbrev blank : Job
  blank = empty_job owner.name owner.namespace

  abbrev made_of : Job → Job
  made_of = new_job api debug data_pvc backup_pvc t args owner owner_kind kind

  abbrev callback : W → Job → Result (Job × Unit {0})
  callback = mutate_job api debug data_pvc backup_pvc t args owner owner_kind kind

  -- A new job: what the operator makes, with owners and with what the server gives a new object.
  pub record NewJob (job : Job) : Type 0 where
    pub owners : List OwnerReference
    pub time : ℕ
    pub uid : String
    pub set :
        api.set_owner_reference owner_kind owner
          (record blank.meta { labels = some (create_labels owner.name kind none) })
        ≡ ok (record blank.meta {
          labels = some (create_labels owner.name kind none);
          owner_references = owners;
        })
    pub content : job ≡ record blank {
      meta = record blank.meta {
        labels = some (create_labels owner.name kind none);
        owner_references = owners;
        creation_timestamp = time;
        uid = uid;
      };
      template = record {
        labels = none;
        spec = job_pod debug owner.namespace backup_pvc data_pvc t args;
      };
    }

  -- The job is stored, as it was or new, and nothing else has changed.
  pub record Made (w : W) (job : Job) (w' : W) : Type 0 where
    pub stored : api.get Kind.job (key_of owner) w' ≡ ok job
    pub elsewhere : OnlyAt api Kind.job (key_of owner) w w'
    pub how :
        (api.get Kind.job (key_of owner) w ≡ ok job)
        ⊎ ((api.get Kind.job (key_of owner) w ≡ err not_found) × NewJob job)

  module _ (law : IsLawful api) where
    mutate-made :
        (w : W) (s n : Job) (x : Unit {0})
        → ltb 0 s.meta.creation_timestamp ≡ false
        → callback w s ≡ ok (n, x)
        → (os : List OwnerReference) × (api.set_owner_reference owner_kind owner
              (record s.meta { labels = some (create_labels s.meta.name kind none) })
            ≡ ok (record s.meta {
              labels = some (create_labels s.meta.name kind none);
              owner_references = os;
            }))
          × (n ≡ record s {
            meta = record s.meta {
              labels = some (create_labels s.meta.name kind none);
              owner_references = os;
            };
            template = record {
              labels = none;
              spec = job_pod debug owner.namespace backup_pvc data_pvc t args;
            };
          })
    unfolding mutate_job
    mutate-made w s n x e h =
        let made = made_of s in
        let (m, set, same) =
          with_owner-ok made n x (api.set_owner_reference owner_kind owner made.meta) (rw e at h) in
        let owned = law.owner_reference owner_kind owner made.meta m set in
        (
          m.owner_references,
          set ∙ ap (λ y. ok y) owned,
          same ∙ ap (λ y. record made { meta = y }) owned,
        )

    mutate-Idle : (w : W) → Idle api Kind.job (Unit {0}) blank callback w
    unfolding mutate_job
    mutate-Idle w s h = (tt, ground arith)

    mutate-no_panic : (w : W) (s : Job) → callback w s ≢ panic
    unfolding mutate_job
    mutate-no_panic w s h = elim (Bool-cases (ltb 0 s.meta.creation_timestamp)) [
      | inl e ↦ ground arith
      | inr e ↦
          with_owner-no_panic (made_of s)
            (api.set_owner_reference owner_kind owner (made_of s).meta)
            (law.reference_no_panic owner_kind owner (made_of s).meta).1 (rw e at h)
    ]

    mutate-Sound : (w : W) → Sound api Kind.job (Unit {0}) blank callback w
    mutate-Sound w = record {
      no_panic = λ s which h. mutate-no_panic w s h;
      keeps_key = λ s s' x same h. elim (Bool-cases (ltb 0 s.meta.creation_timestamp)) [
        | inl e ↦
            let (y, idle) = mutate-Idle w s (ground arith) in
            ap (λ (j, z). key_of j.meta) (ok-injective {A = Job × Unit {0}} (sym h ∙ idle)) ∙ same
        | inr e ↦ let (os, set, n) = mutate-made w s s' x e h in ap (λ j. key_of j.meta) n ∙ same
      ];
    }

    Made-Applied :
        (w w' : W) (r : Job × Unit {0})
        → Applied api Kind.job (Unit {0}) blank callback w r w'
        → Made w r.0 w'
    Made-Applied w w' r a = record {
      stored = a.stored;
      elsewhere = a.elsewhere;
      how = elim a.how [
        | inl c ↦
            let (os, set, n) = mutate-made w blank c.made r.1 refl c.mutated in
            inr (
              c.was_absent,
              record {
                owners = os;
                time = c.fresh.time;
                uid = c.fresh.uid;
                set = set;
                content =
                    c.fresh.content
                    ∙ ap
                        (λ (j : Job). record j {
                          meta = record j.meta {
                            creation_timestamp = c.fresh.time;
                            uid = c.fresh.uid;
                          };
                        })
                        n;
              },
            )
        | inr u ↦ inl (
            rw
              (Applied-old api Kind.job (Unit {0}) blank callback law (mutate-Idle w) a u.old
                u.was_present)
              u.was_present)
      ];
    }

    -- createDSJob does not panic. It fails and changes nothing, or the job with the owner's name is
    -- stored and nothing else has changed: an existing job is as it was, and a new one runs the
    -- given arguments on the two claims and is owned by the owner.
    pub create_ds_job-Made :
        (w : W)
        → Ends
            (create_ds_job api debug data_pvc backup_pvc t args owner owner_kind kind)
            w
            (Made w)
            (λ _ w'. w' ≡ w)
    unfolding create_ds_job
    create_ds_job-Made w =
        Ends-bind (api.create_or_update Kind.job (Unit {0}) blank callback) (λ (job, x). pure job) w
          (create_or_update-ends api Kind.job (Unit {0}) blank callback law w (mutate-Sound w))
          (λ r w' a. Ends.returns r.0 w' refl (Made-Applied w w' r a))
