-- ===== src/StatefulSets/Alignment.antt =====
-- controllers/sts.go, updateDSStatefulSet.
use ds_operator.Prelude.{
  ◌<◌, ℤ, String, Bool, true, false, ◌≡◌, refl, sym, ap, ◌∙◌, [], ◌∷◌, List, length, Option, Result,
  ok, err, panic, arith, ok-injective, ok-ne-err, ok-ne-panic,
}
use ds_operator.Kube.Pods.{Container, PodSpec}
use ds_operator.Kube.Volumes.{ClaimSpec}
use ds_operator.Kube.Workloads.{StatefulSet}
use ds_operator.Api.Types.{DirectoryService}
use ds_operator.StatefulSets.Containers.{inject_debug_containers, ds_container, debug_sidecar}
use ds_operator.StatefulSets.Volumes.{volume_mounts}
use ds_operator.StatefulSets.Template.{stateful_set, with_debug}
use ds_operator.StatefulSets.{update_ds_stateful_set, set_images, reporting, with_pod}

-- Updating the stateful set that was made from a directory service by the same directory service
-- leaves it as it is.
pub update_ds_stateful_set-made :
    (debug : Bool) (ds : DirectoryService) (svc_name : String) (claim : ClaimSpec)
    → update_ds_stateful_set ds (stateful_set debug ds svc_name claim)
      ≡ ok (stateful_set debug ds svc_name claim)
unfolding update_ds_stateful_set with_debug inject_debug_containers
update_ds_stateful_set-made false ds svc_name claim = refl
update_ds_stateful_set-made true ds svc_name claim = refl

-- An update sets the replicas and the images of the first container and the first init container,
-- and leaves everything else.
pub record Aligned (ds : DirectoryService) (old new : StatefulSet) : Type 0 where
  pub first : Container
  pub others : List Container
  pub first_init : Container
  pub other_inits : List Container
  pub containers_were : old.spec.template.spec.containers ≡ first ∷ others
  pub inits_were : old.spec.template.spec.init_containers ≡ first_init ∷ other_inits
  pub content : new ≡ record old {
    spec = record old.spec {
      replicas = ds.spec.replicas;
      template = record old.spec.template {
        spec = record old.spec.template.spec {
          containers = record first { image = ds.spec.pod_template.image } ∷ others;
          init_containers = record first_init { image = ds.spec.pod_template.image } ∷ other_inits;
        };
      };
    };
  }

-- The stateful set has a container and an init container.
abbrev pub HasContainers : StatefulSet → Type 0
HasContainers sts =
    (0 < length sts.spec.template.spec.containers)
    × (0 < length sts.spec.template.spec.init_containers)

-- Where both lists have a first container, its image is set.
pub set_images-ok :
    (image : String) (cs is : List Container) (pod : PodSpec)
    → 0 < length cs
    → 0 < length is
    → (c : Container) × (cs' : List Container) × (i : Container) × (is' : List Container) × (cs
        ≡ c ∷ cs')
      × (is ≡ i ∷ is')
      × (set_images image cs is pod
          ≡ ok (record pod {
            containers = record c { image = image } ∷ cs';
            init_containers = record i { image = image } ∷ is';
          }))
unfolding set_images
set_images-ok image [] is pod h h' = absurd (omega arith)
set_images-ok image (c ∷ cs) [] pod h h' = absurd (omega arith)
set_images-ok image (c ∷ cs) (i ∷ is) pod h h' = (c, cs, i, is, refl, refl, refl)

pub update_ds_stateful_set-Aligned :
    (ds : DirectoryService) (old : StatefulSet)
    → HasContainers old
    → (new : StatefulSet) × (update_ds_stateful_set ds old ≡ ok new) × Aligned ds old new
unfolding update_ds_stateful_set
update_ds_stateful_set-Aligned ds old h =
    let pod = old.spec.template.spec in
    let (c, cs, i, is, p, q, set) =
      set_images-ok ds.spec.pod_template.image pod.containers pod.init_containers pod h.0 h.1 in
    (
      _,
      ap (with_pod old ds.spec.replicas) set,
      record {
        first = c;
        others = cs;
        first_init = i;
        other_inits = is;
        containers_were = p;
        inits_were = q;
        content = refl;
      },
    )

with_pod-meta :
    (s n : StatefulSet) (replicas : Option ℤ) (r : Result PodSpec)
    → with_pod s replicas r ≡ ok n
    → n.meta ≡ s.meta
unfolding with_pod
with_pod-meta s n replicas (ok pod) h = ap (λ t. t.meta) (ok-injective (sym h))
with_pod-meta s n replicas (err e) h = absurd (ok-ne-err h)
with_pod-meta s n replicas panic h = absurd (ok-ne-panic (sym h))

pub update-meta :
    (ds : DirectoryService) (s n : StatefulSet)
    → update_ds_stateful_set ds s ≡ ok n
    → n.meta ≡ s.meta
unfolding update_ds_stateful_set
update-meta ds s n h = with_pod-meta s n ds.spec.replicas _ h

pub reporting-meta :
    (s s' : StatefulSet) (x : Bool) (r : Result StatefulSet)
    → reporting true r ≡ ok (s', x)
    → ((n : StatefulSet) → r ≡ ok n → n.meta ≡ s.meta)
    → s'.meta ≡ s.meta
reporting-meta s s' x (ok n) h keeps =
    ap (λ (t, y). t.meta) (ok-injective {A = StatefulSet × Bool} (sym h)) ∙ keeps n refl
reporting-meta s s' x (err e) h keeps = absurd (ok-ne-err h)
reporting-meta s s' x panic h keeps = absurd (ok-ne-panic (sym h))

-- An update to the image of `ds'` of a set that was made from `ds`: without debug containers the
-- directory server's container gets the new image; with them it keeps the old one, since the
-- debug container stands first.
pub update_ds_stateful_set-image :
    (ds ds' : DirectoryService) (svc_name : String) (claim : ClaimSpec)
    → let image = ds'.spec.pod_template.image in
      ((new : StatefulSet) × (update_ds_stateful_set ds' (stateful_set false ds svc_name claim)
          ≡ ok new)
        × (new.spec.template.spec.containers ≡ record (ds_container ds) { image = image } ∷ []))
      × ((new : StatefulSet) × (update_ds_stateful_set ds' (stateful_set true ds svc_name claim)
            ≡ ok new)
          × (new.spec.template.spec.containers
              ≡ debug_sidecar (volume_mounts ds) image ∷ ds_container ds ∷ []))
unfolding update_ds_stateful_set with_debug inject_debug_containers
update_ds_stateful_set-image ds ds' svc_name claim = ((_, refl, refl), (_, refl, refl))
