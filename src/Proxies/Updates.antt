-- ===== src/Proxies/Updates.antt =====
-- controllers/proxy.go: creation and removal of the deployment of the proxies.
use ds_operator.Prelude.{
  ℕ, String, true, false, Bool-cases, inl, inr, ◌⊎◌, ◌≡◌, refl, sym, ap, ◌∙◌, List, Result, ok, err,
  panic, wrap, not_found, arith, Ends, Ends-try, Finishes, Finishes-Ends, Finishes_mono,
  Finishes_at, ok-injective, pure, raise, ◌>>=◌,
}
use ds_operator.Kube.Meta.{OwnerReference, key_of}
use ds_operator.Kube.Workloads.{Deployment}
use ds_operator.Kube.Objects.{Kind}
use ds_operator.Kube.Client.{Client}
use ds_operator.Kube.Client.Laws.{IsLawful, OnlyAt}
use ds_operator.Kube.Client.Branches.{Branches, Branched, create_or_update-Branched}
use ds_operator.Api.Types.{DirectoryService, DirectoryProxyStatus}
use ds_operator.Settings.Ownership.{owned-Owners}
use ds_operator.Settings.Removal.{remove_owned, Removed, remove_owned-Removed}
use ds_operator.Services.{proxy_key}
use ds_operator.Proxies.Alignment.{Aligned, HasProxyContainers, update-Aligned, reporting-meta}
use ds_operator.Proxies.Template.{create_ds_proxy_deployment}
use ds_operator.Proxies.{
  update_ds_proxy_deployment, mutate_deployment, apply_proxy, reconcile_proxy, empty_deployment,
  reporting, report_proxy, with_owner, with_proxy_status,
}

module _ {W : Type 0} (api : Client W) (ds : DirectoryService) where
  abbrev deployment_at : W → Result Deployment
  deployment_at w = api.get Kind.deployment (proxy_key api ds) w

  -- There was none, and one made from the directory service has been stored, with some owners.
  pub record NewDeployment (w : W) (d : Deployment) : Type 0 where
    pub was_absent : deployment_at w ≡ err not_found
    pub owners : List OwnerReference
    pub time : ℕ
    pub uid : String
    pub content :
        let made = create_ds_proxy_deployment ds in
        d ≡ record made {
          meta = record made.meta {
            owner_references = owners;
            creation_timestamp = time;
            uid = uid;
          };
        }

  -- There was one, and it has been brought in line; its replicas are reported in the status.
  pub record OldDeployment (w : W) (d : Deployment) (ds' : DirectoryService) : Type 0 where
    pub old : Deployment
    pub was_present : deployment_at w ≡ ok old
    pub aligned : Aligned ds old d
    pub reported : ds' ≡ with_proxy_status ds (report_proxy old ds.status.proxy_status)

  -- The deployment is stored, and nothing else has changed.
  pub record Deployed (w : W) (ds' : DirectoryService) (w' : W) : Type 0 where
    pub deployment : Deployment
    pub stored : deployment_at w' ≡ ok deployment
    pub elsewhere : OnlyAt api Kind.deployment (proxy_key api ds) w w'
    pub how : (NewDeployment w deployment × (ds' ≡ ds)) ⊎ OldDeployment w deployment ds'

  module _ (law : IsLawful api) where
    abbrev made : Deployment
    made = create_ds_proxy_deployment ds

    abbrev align : Deployment → Result (Deployment × DirectoryProxyStatus)
    align d = reporting (report_proxy d ds.status.proxy_status) (update_ds_proxy_deployment ds d)

    align-works :
        (d : Deployment)
        → HasProxyContainers d
        → (n : Deployment) × (align d ≡ ok (n, report_proxy d ds.status.proxy_status))
          × Aligned ds d n
    align-works d has =
        let (n, u, al) = update-Aligned ds d has in
        (n, ap (reporting (report_proxy d ds.status.proxy_status)) u, al)

    module _ (w : W) (has : (d : Deployment) → deployment_at w ≡ ok d → HasProxyContainers d) where
      mutate-Branches :
          Branches api Kind.deployment DirectoryProxyStatus
            (empty_deployment ds)
            (mutate_deployment api ds)
            made
            ds.status.proxy_status
            align
            w
      unfolding mutate_deployment update_ds_proxy_deployment
      mutate-Branches = record {
        blank = refl;
        starts = λ s e.
            let (os, o) = owned-Owners api law ds.kind ds.meta made.meta in
            (os, rw e (ap (λ r. reporting ds.status.proxy_status (with_owner made r)) o));
        aligns = λ s h. ground arith;
        named = refl;
        keeps = λ s n x h. ap key_of (reporting-meta s n _ x ds.spec.proxy.replicas _ h);
        works = λ s g. let (n, u, al) = align-works s (has s g) in (n, _, u);
      }

      Deployed-Branched :
          (w' : W) (r : Deployment × DirectoryProxyStatus)
          → Branched api Kind.deployment DirectoryProxyStatus
              (empty_deployment ds)
              (mutate_deployment api ds)
              made
              ds.status.proxy_status
              align
              w
              r
              w'
          → Deployed w (with_proxy_status ds r.1) w'
      Deployed-Branched w' r b = record {
        deployment = r.0;
        stored = b.stored;
        elsewhere = b.elsewhere;
        how = elim b.how [
          | inl c ↦ inl (
            record {
              was_absent = c.was_absent;
              owners = c.owners;
              time = c.time;
              uid = c.uid;
              content = c.content;
            },
            ap (with_proxy_status ds) c.result,
          )
          | inr u ↦
              let (n, run, al) = align-works u.old (has u.old u.was_present) in
              let same =
                ok-injective {A = Deployment × DirectoryProxyStatus} (sym u.aligned ∙ run) in
              inr (record {
                old = u.old;
                was_present = u.was_present;
                aligned = record {
                  first = al.first;
                  others = al.others;
                  first_init = al.first_init;
                  other_inits = al.other_inits;
                  containers_were = al.containers_were;
                  inits_were = al.inits_were;
                  content =
                      u.content
                      ∙ ap
                          (λ ((t, y) : Deployment × DirectoryProxyStatus). record t {
                            ready_replicas = u.old.ready_replicas;
                            status_replicas = u.old.status_replicas;
                          })
                          same
                      ∙ ap
                          (λ (t : Deployment). record t {
                            ready_replicas = u.old.ready_replicas;
                            status_replicas = u.old.status_replicas;
                          })
                          al.content;
                };
                reported =
                    ap (λ ((t, y) : Deployment × DirectoryProxyStatus). with_proxy_status ds y)
                      same;
              })
        ];
      }

      apply_proxy-Deployed : Ends (apply_proxy api ds) w (Deployed w) (λ e w'. w' ≡ w)
      unfolding apply_proxy
      apply_proxy-Deployed =
          Ends-try
            (api.create_or_update Kind.deployment DirectoryProxyStatus (empty_deployment ds)
              (mutate_deployment api ds))
            (λ (d, s). pure (with_proxy_status ds s))
            (λ e. raise (wrap "unable to CreateOrUpdate deployment" e)) w
            (create_or_update-Branched api Kind.deployment DirectoryProxyStatus
              (empty_deployment ds) (mutate_deployment api ds) made ds.status.proxy_status align law
              w mutate-Branches)
            (λ r w' b. Ends.returns (with_proxy_status ds r.1) w' refl (Deployed-Branched w' r b))
            (λ e w' same. Ends.fails (wrap "unable to CreateOrUpdate deployment" e) w' refl same)

      removal_outcome :
          (r : Result (Unit {0})) (w' : W)
          → remove_owned api ds Kind.deployment (proxy_key api ds) w ≡ (r, w')
          → Removed api ds Kind.deployment (proxy_key api ds) w r w'
          → Finishes
              (remove_owned api ds Kind.deployment (proxy_key api ds) >>= (λ x. pure ds))
              w
              (λ ds' w'.
                (ds' ≡ ds) × Removed api ds Kind.deployment (proxy_key api ds) w (ok tt) w')
              (λ e w'. Removed api ds Kind.deployment (proxy_key api ds) w (err e) w')
              (λ w'. Removed api ds Kind.deployment (proxy_key api ds) w panic w')
      removal_outcome (ok x) w' run d = Finishes.returns ds w' (rw run refl) (refl, d)
      removal_outcome (err e) w' run d = Finishes.fails e w' (rw run refl) d
      removal_outcome panic w' run d = Finishes.panics w' (rw run refl) d

      -- reconcileProxy, where a deployment that is there has a container and an init container. With
      -- the proxy enabled it does not panic: it fails and changes nothing, or the deployment is
      -- stored and nothing else changed, a new one as made from the directory service, or the old
      -- one with replicas and images brought in line and its replicas reported in the status. With
      -- the proxy disabled it removes the deployment as far as the directory service controls it.
      pub reconcile_proxy-Settled :
          Finishes
            (reconcile_proxy api ds)
            w
            (λ ds' w'.
              ((ds.spec.proxy.enabled ≡ true) × Deployed w ds' w')
              ⊎ ((ds.spec.proxy.enabled ≡ false)
                  × (ds' ≡ ds)
                  × Removed api ds Kind.deployment (proxy_key api ds) w (ok tt) w'))
            (λ e w'.
              ((ds.spec.proxy.enabled ≡ true) × (w' ≡ w))
              ⊎ ((ds.spec.proxy.enabled ≡ false)
                  × Removed api ds Kind.deployment (proxy_key api ds) w (err e) w'))
            (λ w'.
              (ds.spec.proxy.enabled ≡ false)
              × Removed api ds Kind.deployment (proxy_key api ds) w panic w')
      unfolding reconcile_proxy
      reconcile_proxy-Settled = elim (Bool-cases ds.spec.proxy.enabled) [
        | inl yes_proxy ↦ Finishes_at (apply_proxy api ds) w (ground arith) (
            Finishes_mono (λ ds' w' d. inl (yes_proxy, d)) (λ e w' d. inl (yes_proxy, d))
              (λ w' b. absurd b) (Finishes-Ends {R = λ w'. ⊥} apply_proxy-Deployed))
        | inr no_proxy ↦
            Finishes_at (remove_owned api ds Kind.deployment (proxy_key api ds) >>= (λ x. pure ds))
              w (ground arith)
              (Finishes_mono (λ ds' w' (s, d). inr (no_proxy, s, d)) (λ e w' d. inr (no_proxy, d))
                (λ w' d. (no_proxy, d))
                (removal_outcome _ _ refl
                  (remove_owned-Removed api ds Kind.deployment law (proxy_key api ds) w)))
      ]
