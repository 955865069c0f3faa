-- ===== src/StatefulSets/Updates.antt =====
-- controllers/sts.go: creation and update of the stateful set.
use ds_operator.Prelude.{
  ℕ, String, Bool, true, false, inl, inr, ◌⊎◌, ◌≡◌, refl, sym, ap, ◌∙◌, List, ok, err, Result, wrap,
  not_found, arith, Ends, Ends-try, ok-injective, pure, raise,
}
use ds_operator.Kube.Meta.{Key, OwnerReference, key_of}
use ds_operator.Kube.Workloads.{StatefulSet}
use ds_operator.Kube.Objects.{Kind}
use ds_operator.Kube.Client.{Client}
use ds_operator.Kube.Client.Laws.{IsLawful, OnlyAt}
use ds_operator.Kube.Client.Branches.{Branches, Branched, create_or_update-Branched}
use ds_operator.Api.Types.{DirectoryService}
use ds_operator.Settings.Ownership.{owned-Owners}
use ds_operator.StatefulSets.Template.{create_ds_stateful_set}
use ds_operator.StatefulSets.{
  update_ds_stateful_set, mutate_stateful_set, reconcile_sts, empty_stateful_set, reporting,
  with_owner, report,
}
use ds_operator.StatefulSets.Alignment.{
  Aligned, HasContainers, update_ds_stateful_set-Aligned, update-meta, reporting-meta,
}

module _ {W : Type 0} (api : Client W) (debug : Bool) (ds : DirectoryService)
    (svc_name : String) where
  abbrev pub sts_key : Key
  sts_key = key_of ds.meta

  -- There was none, and one made from the directory service has been stored, with some owners.
  pub record NewSet (w : W) (sts : StatefulSet) : Type 0 where
    pub was_absent : api.get Kind.stateful_set sts_key w ≡ err not_found
    pub owners : List OwnerReference
    pub time : ℕ
    pub uid : String
    pub content :
        let made = create_ds_stateful_set api debug ds svc_name w in
        sts ≡ record made {
          meta = record made.meta {
            owner_references = owners;
            creation_timestamp = time;
            uid = uid;
          };
        }

  -- There was one, and it has been brought in line.
  pub record OldSet (w : W) (sts : StatefulSet) : Type 0 where
    pub old : StatefulSet
    pub was_present : api.get Kind.stateful_set sts_key w ≡ ok old
    pub aligned : Aligned ds old sts

  -- The set is stored, nothing else has changed, and `ds'` is `ds` with the current replicas of a
  -- set that was there before.
  pub record Reconciled (w : W) (ds' : DirectoryService) (w' : W) : Type 0 where
    pub sts : StatefulSet
    pub stored : api.get Kind.stateful_set sts_key w' ≡ ok sts
    pub elsewhere : OnlyAt api Kind.stateful_set sts_key w w'
    pub how : (NewSet w sts × (ds' ≡ ds)) ⊎ (OldSet w sts × (ds' ≡ report true sts ds))

  module _ (law : IsLawful api) where
    abbrev blank : StatefulSet
    blank = empty_stateful_set ds

    abbrev made_in : W → StatefulSet
    made_in w = create_ds_stateful_set api debug ds svc_name w

    abbrev align : StatefulSet → Result (StatefulSet × Bool)
    align s = reporting true (update_ds_stateful_set ds s)

    align-works :
        (s : StatefulSet)
        → HasContainers s
        → (n : StatefulSet) × (align s ≡ ok (n, true)) × Aligned ds s n
    align-works s has =
        let (n, u, al) = update_ds_stateful_set-Aligned ds s has in (n, ap (reporting true) u, al)

    mutate-Branches :
        (w : W)
        → ((s : StatefulSet) → api.get Kind.stateful_set sts_key w ≡ ok s → HasContainers s)
        → Branches api Kind.stateful_set Bool blank
            (mutate_stateful_set api debug ds svc_name)
            (made_in w)
            false
            align
            w
    unfolding mutate_stateful_set create_ds_stateful_set
    mutate-Branches w has = record {
      blank = refl;
      starts = λ s e.
          let (os, o) = owned-Owners api law ds.kind ds.meta (made_in w).meta in
          (os, rw e (ap (λ r. reporting false (with_owner (made_in w) r)) o));
      aligns = λ s h. ground arith;
      named = refl;
      keeps = λ s n x h.
          ap key_of (reporting-meta s n x (update_ds_stateful_set ds s) h (update-meta ds s));
      works = λ s g. let (n, u, al) = align-works s (has s g) in (n, true, u);
    }

    Reconciled-Branched :
        (w w' : W) (r : StatefulSet × Bool)
        → ((s : StatefulSet) → api.get Kind.stateful_set sts_key w ≡ ok s → HasContainers s)
        → Branched api Kind.stateful_set Bool blank
            (mutate_stateful_set api debug ds svc_name)
            (made_in w)
            false
            align
            w
            r
            w'
        → Reconciled w (report r.1 r.0 ds) w'
    Reconciled-Branched w w' r has b = record {
      sts = r.0;
      stored = b.stored;
      elsewhere = b.elsewhere;
      how = elim b.how [
        | inl c ↦ inl (
          record {
            was_absent = c.was_absent;
            owners = c.owners;
            time = c.time;
            uid = c.uid;
            content = c.content;
          },
          ap (λ y. report y r.0 ds) c.result,
        )
        | inr u ↦
            let (n, run, al) = align-works u.old (has u.old u.was_present) in
            let same = ok-injective {A = StatefulSet × Bool} (sym u.aligned ∙ run) in
            inr (
              record {
                old = u.old;
                was_present = u.was_present;
                aligned = record {
                  first = al.first;
                  others = al.others;
                  first_init = al.first_init;
                  other_inits = al.other_inits;
                  containers_were = al.containers_were;
                  inits_were = al.inits_were;
                  content =
                      u.content
                      ∙ ap
                          (λ ((t, y) : StatefulSet × Bool). record t {
                            current_replicas = u.old.current_replicas;
                          })
                          same
                      ∙ ap
                          (λ (t : StatefulSet). record t {
                            current_replicas = u.old.current_replicas;
                          })
                          al.content;
                };
              },
              ap (λ ((t, y) : StatefulSet × Bool). report y r.0 ds) same,
            )
      ];
    }

    -- reconcileSTS, where a stateful set that is there has a container and an init container,
    -- does not panic. It fails and changes nothing, or a stateful set is stored and nothing else
    -- changed: a new one as made from the directory service, or the old one with replicas and
    -- images brought in line and its current replicas reported in the status.
    pub reconcile_sts-Reconciled :
        (w : W)
        → ((s : StatefulSet) → api.get Kind.stateful_set sts_key w ≡ ok s → HasContainers s)
        → Ends (reconcile_sts api debug ds svc_name) w (Reconciled w) (λ _ w'. w' ≡ w)
    unfolding reconcile_sts
    reconcile_sts-Reconciled w has =
        Ends-try
          (api.create_or_update Kind.stateful_set Bool blank
            (mutate_stateful_set api debug ds svc_name))
          (λ (sts, points). pure (report points sts ds))
          (λ e. raise (wrap "unable to CreateOrUpdate StatefulSet" e)) w
          (create_or_update-Branched api Kind.stateful_set Bool blank
            (mutate_stateful_set api debug ds svc_name) (made_in w) false align law w
            (mutate-Branches w has))
          (λ r w' b. Ends.returns (report r.1 r.0 ds) w' refl (Reconciled-Branched w w' r has b))
          (λ e w' same. Ends.fails (wrap "unable to CreateOrUpdate StatefulSet" e) w' refl same)
