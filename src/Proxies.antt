-- ===== src/Proxies.antt =====
-- controllers/proxy.go: the deployment of LDAP proxies.
pub mod Template
pub mod Consistency
pub mod Alignment
pub mod Updates
pub mod Live
use ds_operator.Prelude.{
  ℤ, Bool, some, none, Option, [], ◌∷◌, Error, Result, ok, err, panic, ltb, if◌then◌else◌, Action,
  pure, raise, ◌>>=◌, try_else, wrap,
}
use ds_operator.Kube.Meta.{ObjectMeta, named}
use ds_operator.Kube.Pods.{PodSpec}
use ds_operator.Kube.Workloads.{Deployment}
use ds_operator.Kube.Objects.{Kind}
use ds_operator.Kube.Client.{Client, Mutate}
use ds_operator.Api.Types.{DirectoryService, DirectoryProxyStatus}
use ds_operator.Settings.{owned}
use ds_operator.Settings.Removal.{remove_owned}
use ds_operator.Services.{proxy_name, proxy_key}
use ds_operator.StatefulSets.{set_images, empty_stateful_set}
use ds_operator.Proxies.Template.{create_ds_proxy_deployment}

pub with_pod : Deployment → ℤ → Result PodSpec → Result Deployment
with_pod d replicas (ok pod) = ok (record d {
  spec = record d.spec {
    replicas = some replicas;
    template = record d.spec.template { spec = pod };
  };
})
with_pod d replicas (err e) = err e
with_pod d replicas panic = panic

-- updateDSProxyDeployment, what it does to the deployment
unfoldable pub update_ds_proxy_deployment : DirectoryService → Deployment → Result Deployment
unfolding set_images with_pod
update_ds_proxy_deployment ds d =
    let pod = d.spec.template.spec in
    with_pod d ds.spec.proxy.replicas
      (set_images ds.spec.proxy.image pod.containers pod.init_containers pod)

-- What it does to the status of `ds`: the replicas of the deployment that it was given.
abbrev pub report_proxy : Deployment → DirectoryProxyStatus → DirectoryProxyStatus
report_proxy d s = record s { ready_replicas = d.ready_replicas; replicas = d.status_replicas }

abbrev pub reporting :
    DirectoryProxyStatus → Result Deployment → Result (Deployment × DirectoryProxyStatus)
reporting s (ok d) = ok (d, s)
reporting s (err e) = err e
reporting s panic = panic

abbrev pub with_owner : Deployment → Result ObjectMeta → Result Deployment
with_owner d (ok m) = ok (record d { meta = m })
with_owner d (err e) = err e
with_owner d panic = panic

abbrev pub empty_deployment : DirectoryService → Deployment
empty_deployment ds = record {
  meta = named (proxy_name ds) ds.meta.namespace;
  spec = record {
    selector = [];
    replicas = none;
    template = (empty_stateful_set ds).spec.template;
  };
  ready_replicas = ℤ.pos 0;
  status_replicas = ℤ.pos 0;
}

abbrev pub with_proxy_status : DirectoryService → DirectoryProxyStatus → DirectoryService
with_proxy_status ds s = record ds { status = record ds.status { proxy_status = s } }

module _ {W : Type 0} (api : Client W) (ds : DirectoryService) where
  -- The second result is `ds.Status.ProxyStatus` as the callback leaves it.
  unfoldable pub mutate_deployment : Mutate W DirectoryProxyStatus Kind.deployment
  mutate_deployment w d =
      if ltb 0 d.meta.creation_timestamp
      then reporting (report_proxy d ds.status.proxy_status) (update_ds_proxy_deployment ds d)
      else let made = create_ds_proxy_deployment ds in
        reporting ds.status.proxy_status (
          with_owner made
            (owned (api.set_controller_reference ds.kind ds.meta made.meta) made.meta))

  -- Where the proxy is enabled.
  unfoldable pub apply_proxy : Action W DirectoryService
  apply_proxy =
      try_else
        (api.create_or_update Kind.deployment DirectoryProxyStatus (empty_deployment ds)
          mutate_deployment)
        (λ (d, s). pure (with_proxy_status ds s))
        (λ e. raise (wrap "unable to CreateOrUpdate deployment" e))

  unfoldable pub reconcile_proxy : Action W DirectoryService
  reconcile_proxy w =
      if ds.spec.proxy.enabled
      then apply_proxy w
      else (remove_owned api ds Kind.deployment (proxy_key api ds) >>= (λ x. pure ds)) w
