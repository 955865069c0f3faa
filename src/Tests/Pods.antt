-- ===== src/Tests/Pods.antt =====
-- Stateful sets, services, proxies and jobs.
use mathlib.Core.Path.{subst}
use ds_operator.Prelude.{◌≡◌, refl, true, false, [], ◌∷◌, ok, arith, Ends, ok-injective, matches}
use ds_operator.Kube.Workloads.{StatefulSet, Service}
use ds_operator.Kube.Mounts.{IsClosed}
use ds_operator.Kube.Objects.{Kind}
use ds_operator.Kube.Client.Laws.{entries}
use ds_operator.Kube.Memory.{Server, memory, running}
use ds_operator.Kube.Memory.Lawful.{memory-IsLawful}
use ds_operator.Api.Types.{DirectoryService}
use ds_operator.Settings.Removal.{remove_owned, Removed, remove_owned-Removed}
use ds_operator.StatefulSets.{reconcile_sts, update_ds_stateful_set}
use ds_operator.StatefulSets.Containers.{ds_container, debug_sidecar}
use ds_operator.StatefulSets.Volumes.{volume_mounts}
use ds_operator.StatefulSets.Template.{stateful_set, with_debug}
use ds_operator.StatefulSets.Mounts.{stateful_set-IsClosed}
use ds_operator.StatefulSets.Alignment.{HasContainers, update_ds_stateful_set-image}
use ds_operator.StatefulSets.Updates.{Reconciled, sts_key, reconcile_sts-Reconciled}
use ds_operator.Services.{
  create_service, create_proxy_service, empty_service, reconcile_service, reconcile_proxy_service,
  proxy_key,
}
use ds_operator.Services.Creation.{
  Ensured, reconcile_service-Ensured, reconcile_proxy_service-Ensured,
}
use ds_operator.Proxies.Template.{create_ds_proxy_deployment, proxy_pod}
use ds_operator.Proxies.Consistency.{proxy_pod-IsClosed, proxy_selector-matches}
use ds_operator.Jobs.{job_pod, create_ds_job}
use ds_operator.Jobs.Mounts.{job_pod-IsClosed}
use ds_operator.Jobs.Creation.{Made, create_ds_job-Made}
use ds_operator.Tests.Data.{idrepo, without_proxy, pod_template, empty_server}

-- A server on which the stateful set has been made.
abbrev made_set : StatefulSet
made_set = stateful_set false idrepo "ds-idrepo" pod_template.volume_claim_spec

running_set : Server
unfolding running
running_set = (running.create Kind.stateful_set made_set empty_server).1

running_set-HasContainers :
    (s : StatefulSet)
    → memory.get Kind.stateful_set (sts_key memory true idrepo "ds-idrepo") running_set ≡ ok s
    → HasContainers s
unfolding running_set running with_debug
running_set-HasContainers s g = subst HasContainers (ok-injective g) (omega arith, omega arith)

stateful_set-IsClosed_example :
    IsClosed
      (stateful_set true idrepo "ds-idrepo" pod_template.volume_claim_spec).spec.template.spec
      (stateful_set true idrepo "ds-idrepo"
        pod_template.volume_claim_spec).spec.volume_claim_templates
stateful_set-IsClosed_example =
    stateful_set-IsClosed true idrepo "ds-idrepo" pod_template.volume_claim_spec

-- The image that replaces the old one.
abbrev upgraded : DirectoryService
upgraded = record idrepo {
  spec = record idrepo.spec { pod_template = record pod_template { image = "ds:8" } };
}

update_ds_stateful_set-image_example :
    ((new : StatefulSet) × (update_ds_stateful_set upgraded
          (stateful_set false idrepo "ds" pod_template.volume_claim_spec)
        ≡ ok new)
      × (new.spec.template.spec.containers ≡ record (ds_container idrepo) { image = "ds:8" } ∷ []))
    × ((new : StatefulSet) × (update_ds_stateful_set upgraded
            (stateful_set true idrepo "ds" pod_template.volume_claim_spec)
          ≡ ok new)
        × (new.spec.template.spec.containers
            ≡ debug_sidecar (volume_mounts idrepo) "ds:8" ∷ ds_container idrepo ∷ []))
update_ds_stateful_set-image_example =
    update_ds_stateful_set-image idrepo upgraded "ds" pod_template.volume_claim_spec

reconcile_sts-Reconciled_example :
    Ends
      (reconcile_sts memory true idrepo "ds-idrepo")
      running_set
      (Reconciled memory true idrepo "ds-idrepo" running_set)
      (λ _ w'. w' ≡ running_set)
reconcile_sts-Reconciled_example =
    reconcile_sts-Reconciled memory true idrepo "ds-idrepo" memory-IsLawful running_set
      running_set-HasContainers

reconcile_service-Ensured_example :
    Ends
      (reconcile_service memory idrepo "ds-idrepo")
      empty_server
      (λ svc w'.
        Ensured memory idrepo
          (create_service idrepo (empty_service "ds-idrepo" "prod"))
          empty_server
          svc
          w')
      (λ _ w'. w' ≡ empty_server)
reconcile_service-Ensured_example =
    reconcile_service-Ensured memory idrepo memory-IsLawful "ds-idrepo" empty_server

reconcile_proxy_service-Ensured_example :
    Ends
      (reconcile_proxy_service memory idrepo)
      empty_server
      (λ svc w'. Ensured memory idrepo (create_proxy_service idrepo) empty_server svc w')
      (λ _ w'. w' ≡ empty_server)
reconcile_proxy_service-Ensured_example =
    reconcile_proxy_service-Ensured memory idrepo memory-IsLawful empty_server refl

-- A server with a service of the proxies' name that nobody controls.
abbrev stray : Service
stray = create_proxy_service idrepo

stray_server : Server
unfolding running
stray_server = (running.create Kind.service stray empty_server).1

remove_owned-Removed_example :
    Removed memory without_proxy Kind.service
      (proxy_key memory without_proxy)
      stray_server
      (remove_owned memory without_proxy Kind.service
        (proxy_key memory without_proxy)
        stray_server).0
      (remove_owned memory without_proxy Kind.service
        (proxy_key memory without_proxy)
        stray_server).1
remove_owned-Removed_example =
    remove_owned-Removed memory without_proxy Kind.service memory-IsLawful
      (proxy_key memory without_proxy) stray_server

proxy_pod-IsClosed_example : IsClosed (proxy_pod idrepo) []
proxy_pod-IsClosed_example = proxy_pod-IsClosed idrepo

proxy_selector-matches_example :
    let pods = entries (create_ds_proxy_deployment idrepo).spec.template.labels in
    (matches (create_ds_proxy_deployment idrepo).spec.selector pods ≡ true)
    × (matches (create_proxy_service idrepo).selector pods ≡ true)
proxy_selector-matches_example = proxy_selector-matches idrepo

job_pod-IsClosed_example :
    IsClosed (job_pod false "prod" "backup" "data" pod_template ("backup" ∷ [])) []
job_pod-IsClosed_example =
    job_pod-IsClosed false "prod" "backup" "data" pod_template ("backup" ∷ [])

create_ds_job-Made_example :
    Ends
      (create_ds_job memory false "data" "backup" pod_template
        ("backup" ∷ [])
        idrepo.meta
        "DirectoryBackup"
        "DirectoryBackup")
      empty_server
      (Made memory false "data" "backup" pod_template
        ("backup" ∷ [])
        idrepo.meta
        "DirectoryBackup"
        "DirectoryBackup"
        empty_server)
      (λ _ w'. w' ≡ empty_server)
create_ds_job-Made_example =
    create_ds_job-Made memory false "data" "backup" pod_template ("backup" ∷ []) idrepo.meta
      "DirectoryBackup" "DirectoryBackup" memory-IsLawful empty_server
