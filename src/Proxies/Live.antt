-- ===== src/Proxies/Live.antt =====
-- controllers/proxy.go, reconcileProxy, where the server refuses nothing without a reason.
use ds_operator.Prelude.{
  ◌≡◌, refl, sym, ap, ◌∙◌, ℤ, Bool, true, false, Error, Result, ok, err, panic, ltb, arith,
  ok-ne-err, ok-injective, pure, raise, wrap, ◌>>=◌, if◌then◌else◌,
}
use ds_operator.Kube.Meta.{key_of}
use ds_operator.Kube.Pods.{PodSpec}
use ds_operator.Kube.Workloads.{Deployment}
use ds_operator.Kube.Objects.{Kind, Obj}
use ds_operator.Kube.Client.{Client}
use ds_operator.Kube.Client.Laws.{IsLawful}
use ds_operator.Kube.Client.Live.{
  Lively, Lively-bind, Lively-try, Lively-pure, Accepting, Passes, Obliging,
  create_or_update-Lively, if-fine,
}
use ds_operator.Api.Types.{DirectoryService, DirectoryProxyStatus}
use ds_operator.Settings.{owned}
use ds_operator.Settings.Ownership.{owned-Owners}
use ds_operator.Settings.Removal.{remove_owned}
use ds_operator.Settings.Live.{remove_owned-Lively}
use ds_operator.Services.{proxy_key}
use ds_operator.StatefulSets.Live.{set_images-fine}
use ds_operator.Proxies.Template.{create_ds_proxy_deployment}
use ds_operator.Proxies.Alignment.{reporting-meta}
use ds_operator.Proxies.{
  with_pod, update_ds_proxy_deployment, report_proxy, reporting, with_owner, empty_deployment,
  with_proxy_status, mutate_deployment, apply_proxy, reconcile_proxy,
}

reporting-fine :
    (s : DirectoryProxyStatus) (r : Result Deployment) (e : Error)
    → ((x : Error) → r ≡ err x → ⊥)
    → reporting s r ≡ err e
    → ⊥
reporting-fine s (ok d) e h g = ok-ne-err (sym g)
reporting-fine s (err x) e h g = h x refl
reporting-fine s panic e h g = cc

with_pod-fine :
    (d : Deployment) (replicas : ℤ) (r : Result PodSpec) (e : Error)
    → ((x : Error) → r ≡ err x → ⊥)
    → with_pod d replicas r ≡ err e
    → ⊥
unfolding with_pod
with_pod-fine d replicas (ok pod) e h g = ok-ne-err (sym g)
with_pod-fine d replicas (err x) e h g = h x refl
with_pod-fine d replicas panic e h g = cc

update-fine :
    (ds : DirectoryService) (d : Deployment) (e : Error)
    → update_ds_proxy_deployment ds d ≡ err e
    → ⊥
unfolding update_ds_proxy_deployment
update-fine ds d e h =
    with_pod-fine d ds.spec.proxy.replicas _ e (λ x g. set_images-fine _ _ _ _ x g) h

module _ {W : Type 0} (Open : W → Type 0) (Admits : (k : Kind) → W → Obj k → Type 0)
    (api : Client W) (law : IsLawful api) (accepting : Accepting Open Admits api)
    (ds : DirectoryService)
    (passes : Passes Open Admits api Kind.deployment DirectoryProxyStatus
      (empty_deployment ds)
      (mutate_deployment api ds)) where
  mutate-Obliging :
      Obliging Open Admits api Kind.deployment DirectoryProxyStatus
        (empty_deployment ds)
        (mutate_deployment api ds)
  unfolding mutate_deployment update_ds_proxy_deployment
  mutate-Obliging = record {
    passes = passes;
    fine = λ w s e h.
        let made = create_ds_proxy_deployment ds in
        let (os, o) = owned-Owners api law ds.kind ds.meta made.meta in
        let status = ds.status.proxy_status in
        if-fine (ltb 0 s.meta.creation_timestamp)
          (reporting (report_proxy s status) (update_ds_proxy_deployment ds s))
          (reporting status (
            with_owner made
              (owned (api.set_controller_reference ds.kind ds.meta made.meta) made.meta)))
          e (reporting-fine _ (update_ds_proxy_deployment ds s) e (update-fine ds s))
          (reporting-fine _ _ e (λ x g. ok-ne-err (sym g ∙ ap (with_owner made) o))) h;
    names = λ w n x h.
        let made = create_ds_proxy_deployment ds in
        let (os, o) = owned-Owners api law ds.kind ds.meta made.meta in
        ap (λ ((d, y) : Deployment × DirectoryProxyStatus). key_of d.meta)
          (ok-injective {A = Deployment × DirectoryProxyStatus}
            (sym h ∙ ap (λ r. reporting ds.status.proxy_status (with_owner made r)) o));
    keeps = λ w s n x t h.
        let align =
          reporting (report_proxy s ds.status.proxy_status) (update_ds_proxy_deployment ds s) in
        let aligned : mutate_deployment api ds w s ≡ align = ground arith in
        let same = reporting-meta s n _ x ds.spec.proxy.replicas _ (sym aligned ∙ h) in
        (ap key_of same, rw same t);
  }

  apply_proxy-Lively : Lively Open (apply_proxy api ds)
  unfolding apply_proxy
  apply_proxy-Lively =
      Lively-try Open
        (api.create_or_update Kind.deployment DirectoryProxyStatus (empty_deployment ds)
          (mutate_deployment api ds))
        (λ (d, s). pure (with_proxy_status ds s))
        (λ e. raise (wrap "unable to CreateOrUpdate deployment" e))
        (create_or_update-Lively Open Admits api Kind.deployment DirectoryProxyStatus
          (empty_deployment ds) (mutate_deployment api ds) law accepting mutate-Obliging)
        (λ r. Lively-pure Open (with_proxy_status ds r.1))

  if_enabled-Lively :
      (enabled : Bool)
      → Lively Open {A = DirectoryService} (λ w.
        if enabled
        then apply_proxy api ds w
        else (remove_owned api ds Kind.deployment (proxy_key api ds) >>= (λ x. pure ds)) w)
  if_enabled-Lively true = apply_proxy-Lively
  if_enabled-Lively false =
      Lively-bind Open (remove_owned api ds Kind.deployment (proxy_key api ds)) (λ x. pure ds)
        (remove_owned-Lively Open Admits api law accepting ds Kind.deployment (proxy_key api ds))
        (λ x. Lively-pure Open ds)

  pub reconcile_proxy-Lively : Lively Open (reconcile_proxy api ds)
  unfolding reconcile_proxy
  reconcile_proxy-Lively = if_enabled-Lively ds.spec.proxy.enabled
