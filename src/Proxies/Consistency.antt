-- ===== src/Proxies/Consistency.antt =====
-- controllers/proxy.go, proxy_service.go: how the deployment and the service of the proxies fit.
use ds_operator.Prelude.{true, ◌≡◌, refl, [], matches, eq_refl}
use ds_operator.Kube.Mounts.{IsClosed}
use ds_operator.Kube.Client.Laws.{entries}
use ds_operator.Api.Types.{DirectoryService}
use ds_operator.Labels.{create_labels}
use ds_operator.Services.{proxy_selector, create_proxy_service}
use ds_operator.Proxies.Template.{create_ds_proxy_deployment, proxy_pod}

-- Every mount of the proxy's containers is of a volume of its pod.
pub proxy_pod-IsClosed : (ds : DirectoryService) → IsClosed (proxy_pod ds) []
proxy_pod-IsClosed ds = (((refl, (refl, (refl, tt))), tt), ((refl, (refl, (refl, (refl, tt)))), tt))

-- The deployment's selector and the service's selector both match the labels of the proxy's pods.
pub proxy_selector-matches :
    (ds : DirectoryService)
    → let pods = entries (create_ds_proxy_deployment ds).spec.template.labels in
      (matches (create_ds_proxy_deployment ds).spec.selector pods ≡ true)
      × (matches (create_proxy_service ds).selector pods ≡ true)
unfolding matches proxy_selector create_labels
proxy_selector-matches ds = (simp eq_refl refl, simp eq_refl refl)
