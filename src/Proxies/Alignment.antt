-- ===== src/Proxies/Alignment.antt =====
-- controllers/proxy.go, updateDSProxyDeployment.
use ds_operator.Prelude.{
  ◌<◌, ℤ, ◌≡◌, refl, sym, ap, List, ◌∷◌, length, some, Result, ok, err, panic, ok-injective,
  ok-ne-err, ok-ne-panic,
}
use ds_operator.Kube.Pods.{Container, PodSpec}
use ds_operator.Kube.Workloads.{Deployment}
use ds_operator.Api.Types.{DirectoryService, DirectoryProxyStatus}
use ds_operator.StatefulSets.Alignment.{set_images-ok}
use ds_operator.Proxies.{update_ds_proxy_deployment, reporting, with_pod}

-- An update sets the replicas and the images of the first container and the first init container,
-- and leaves everything else.
pub record Aligned (ds : DirectoryService) (old new : Deployment) : Type 0 where
  pub first : Container
  pub others : List Container
  pub first_init : Container
  pub other_inits : List Container
  pub containers_were : old.spec.template.spec.containers ≡ first ∷ others
  pub inits_were : old.spec.template.spec.init_containers ≡ first_init ∷ other_inits
  pub content : new ≡ record old {
    spec = record old.spec {
      replicas = some ds.spec.proxy.replicas;
      template = record old.spec.template {
        spec = record old.spec.template.spec {
          containers = record first { image = ds.spec.proxy.image } ∷ others;
          init_containers = record first_init { image = ds.spec.proxy.image } ∷ other_inits;
        };
      };
    };
  }

-- The deployment has a container and an init container.
abbrev pub HasProxyContainers : Deployment → Type 0
HasProxyContainers d =
    (0 < length d.spec.template.spec.containers) × (0 < length d.spec.template.spec.init_containers)

pub update-Aligned :
    (ds : DirectoryService) (old : Deployment)
    → HasProxyContainers old
    → (new : Deployment) × (update_ds_proxy_deployment ds old ≡ ok new) × Aligned ds old new
unfolding update_ds_proxy_deployment with_pod
update-Aligned ds old h =
    let pod = old.spec.template.spec in
    let (c, cs, i, is, p, q, set) =
      set_images-ok ds.spec.proxy.image pod.containers pod.init_containers pod h.0 h.1 in
    (
      _,
      ap (with_pod old ds.spec.proxy.replicas) set,
      record {
        first = c;
        others = cs;
        first_init = i;
        other_inits = is;
        containers_were = p;
        inits_were = q;
        content = refl;
      },
    )

pub reporting-meta :
    (old new : Deployment) (s t : DirectoryProxyStatus) (replicas : ℤ) (r : Result PodSpec)
    → reporting s (with_pod old replicas r) ≡ ok (new, t)
    → new.meta ≡ old.meta
unfolding with_pod
reporting-meta old new s t replicas (ok pod) h =
    ap (λ ((d, y) : Deployment × DirectoryProxyStatus). d.meta)
      (ok-injective {A = Deployment × DirectoryProxyStatus} (sym h))
reporting-meta old new s t replicas (err e) h = absurd (ok-ne-err h)
reporting-meta old new s t replicas panic h = absurd (ok-ne-panic (sym h))
