-- ===== src/StatefulSets.antt =====
-- controllers/sts.go: the stateful set of the directory server's pods.
pub mod Volumes
pub mod Containers
pub mod Template
pub mod Mounts
pub mod Alignment
pub mod Updates
pub mod Live
pub mod Stable
use ds_operator.Prelude.{
  ℕ, ℤ, String, Bool, true, false, Option, some, none, List, [], ◌∷◌, Error, Result, ok, err, panic,
  ltb, if◌then◌else◌, Action, pure, ◌>>=◌, try_else, raise, wrap,
}
use ds_operator.Kube.Meta.{ObjectMeta, named}
use ds_operator.Kube.Pods.{Container, PodSpec}
use ds_operator.Kube.Workloads.{StatefulSet}
use ds_operator.Kube.Objects.{Kind}
use ds_operator.Kube.Client.{Client, Mutate}
use ds_operator.Api.Types.{DirectoryService}
use ds_operator.Settings.{owned}
use ds_operator.StatefulSets.Template.{create_ds_stateful_set}

-- `Containers[0].Image = image` and `InitContainers[0].Image = image`: an empty list is a panic.
unfoldable pub set_images : String → List Container → List Container → PodSpec → Result PodSpec
set_images image [] inits pod = panic
set_images image (c ∷ cs) [] pod = panic
set_images image (c ∷ cs) (i ∷ is) pod = ok (record pod {
  containers = record c { image = image } ∷ cs;
  init_containers = record i { image = image } ∷ is;
})

with_pod : StatefulSet → Option ℤ → Result PodSpec → Result StatefulSet
with_pod sts replicas (ok pod) = ok (record sts {
  spec = record sts.spec {
    replicas = replicas;
    template = record sts.spec.template { spec = pod };
  };
})
with_pod sts replicas (err e) = err e
with_pod sts replicas panic = panic

-- updateDSStatefulSet, what it does to the stateful set
unfoldable pub update_ds_stateful_set : DirectoryService → StatefulSet → Result StatefulSet
unfolding set_images with_pod
update_ds_stateful_set ds sts =
    let pod = sts.spec.template.spec in
    with_pod sts ds.spec.replicas
      (set_images ds.spec.pod_template.image pod.containers pod.init_containers pod)

-- Beside the stateful set: whether `ds.Status.CurrentReplicas` now points into it.
abbrev pub reporting : Bool → Result StatefulSet → Result (StatefulSet × Bool)
reporting points (ok sts) = ok (sts, points)
reporting points (err e) = err e
reporting points panic = panic

abbrev pub with_owner : StatefulSet → Result ObjectMeta → Result StatefulSet
with_owner sts (ok m) = ok (record sts { meta = m })
with_owner sts (err e) = err e
with_owner sts panic = panic

-- `ds.Status.CurrentReplicas` as it is read after the call: it shows the object that the server
-- returned.
abbrev pub report : Bool → StatefulSet → DirectoryService → DirectoryService
report points sts ds =
    if points
    then record ds { status = record ds.status { current_replicas = some sts.current_replicas } }
    else ds

abbrev pub empty_stateful_set : DirectoryService → StatefulSet
empty_stateful_set ds = record {
  meta = named ds.meta.name ds.meta.namespace;
  spec = record {
    selector = [];
    service_name = "";
    replicas = none;
    template = record {
      labels = none;
      spec = record {
        service_account_name = "";
        topology_spread_constraints = [];
        affinity = none;
        tolerations = [];
        subdomain = "";
        image_pull_secrets = [];
        init_containers = [];
        containers = [];
        restart_policy = "";
        security_context = record { fs_group = none; run_as_user = none; run_as_group = none };
        volumes = [];
      };
    };
    volume_claim_templates = [];
  };
  current_replicas = ℤ.pos 0;
}

module _ {W : Type 0} (api : Client W) (debug : Bool) (ds : DirectoryService)
    (svc_name : String) where
  unfoldable pub mutate_stateful_set : Mutate W Bool Kind.stateful_set
  mutate_stateful_set w sts =
      if ltb 0 sts.meta.creation_timestamp
      then reporting true (update_ds_stateful_set ds sts)
      else let made = create_ds_stateful_set api debug ds svc_name w in
        reporting false (
          with_owner made
            (owned (api.set_controller_reference ds.kind ds.meta made.meta) made.meta))

  -- The result is `ds` as the caller sees it afterwards.
  unfoldable pub reconcile_sts : Action W DirectoryService
  reconcile_sts =
      try_else
        (api.create_or_update Kind.stateful_set Bool (empty_stateful_set ds) mutate_stateful_set)
        (λ (sts, points). pure (report points sts ds))
        (λ e. raise (wrap "unable to CreateOrUpdate StatefulSet" e))
