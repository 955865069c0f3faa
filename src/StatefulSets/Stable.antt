-- ===== src/StatefulSets/Stable.antt =====
-- controllers/sts.go, reconcileSTS, where the stateful set is as it should be.
use mathlib.Core.Path.{subst}
use ds_operator.Prelude.{
  err, panic, Result, Option, ℤ, List, [], ◌∷◌, length, ok-ne-err, ok-ne-panic, ◌≡◌, refl, sym, ap,
  ◌∙◌, String, Bool, true, false, inl, inr, ok, Ends, Ends-try, arith, pure, raise, wrap, ◌<◌,
}
use ds_operator.Kube.Meta.{ObjectMeta}
use ds_operator.Kube.Pods.{Container, PodSpec}
use ds_operator.Kube.Volumes.{ClaimSpec}
use ds_operator.Kube.Workloads.{StatefulSet}
use ds_operator.Kube.Objects.{Kind}
use ds_operator.Kube.Client.{Client}
use ds_operator.Kube.Client.Laws.{IsLawful}
use ds_operator.Kube.Client.Stable.{Unchanged, Apart, create_or_update-Unchanged}
use ds_operator.Api.Types.{DirectoryService}
use ds_operator.StatefulSets.Template.{create_ds_stateful_set, stateful_set, with_debug}
use ds_operator.StatefulSets.Containers.{inject_debug_containers}
use ds_operator.StatefulSets.{
  update_ds_stateful_set, mutate_stateful_set, reconcile_sts, empty_stateful_set, reporting, report,
  set_images, with_pod,
}
use ds_operator.StatefulSets.Alignment.{Aligned, HasContainers}
use ds_operator.StatefulSets.Updates.{Reconciled, sts_key}

-- Updating the set would leave it as it is.
abbrev pub IsInLine : DirectoryService → StatefulSet → Type 0
IsInLine ds s = update_ds_stateful_set ds s ≡ ok s

Aligned-IsInLine :
    (ds : DirectoryService) (old new : StatefulSet) → Aligned ds old new → IsInLine ds new
unfolding update_ds_stateful_set
Aligned-IsInLine ds old new al = subst (IsInLine ds) (sym al.content) refl

made-IsInLine :
    (debug : Bool) (ds : DirectoryService) (svc_name : String) (claim : ClaimSpec) (m : ObjectMeta)
    → IsInLine ds (record (stateful_set debug ds svc_name claim) { meta = m })
unfolding update_ds_stateful_set with_debug inject_debug_containers
made-IsInLine false ds svc_name claim m = refl
made-IsInLine true ds svc_name claim m = refl

images-HasContainers :
    (image : String) (cs is : List Container) (pod pod' : PodSpec)
    → set_images image cs is pod ≡ ok pod'
    → (0 < length cs) × (0 < length is)
unfolding set_images
images-HasContainers image [] is pod pod' h = absurd (ok-ne-panic (sym h))
images-HasContainers image (c ∷ cs) [] pod pod' h = absurd (ok-ne-panic (sym h))
images-HasContainers image (c ∷ cs) (i ∷ is) pod pod' h = (omega arith, omega arith)

pod_set :
    (sts new : StatefulSet) (replicas : Option ℤ) (r : Result PodSpec)
    → with_pod sts replicas r ≡ ok new
    → (pod : PodSpec) × (r ≡ ok pod)
unfolding with_pod
pod_set sts new replicas (ok pod) h = (pod, refl)
pod_set sts new replicas (err e) h = absurd (ok-ne-err h)
pod_set sts new replicas panic h = absurd (ok-ne-panic (sym h))

pub IsInLine-HasContainers :
    (ds : DirectoryService) (s : StatefulSet) → IsInLine ds s → HasContainers s
unfolding update_ds_stateful_set
IsInLine-HasContainers ds s line =
    let (pod, h) = pod_set s s ds.spec.replicas _ line in
    images-HasContainers ds.spec.pod_template.image s.spec.template.spec.containers
      s.spec.template.spec.init_containers s.spec.template.spec pod h

module _ {W : Type 0} (api : Client W) (debug : Bool) (ds : DirectoryService)
    (svc_name : String) where
  pub Reconciled-IsInLine :
      (w w' : W) (ds' : DirectoryService) (r : Reconciled api debug ds svc_name w ds' w')
      → IsInLine ds r.sts
  unfolding create_ds_stateful_set
  Reconciled-IsInLine w w' ds' r = elim r.how [
    | inl (n, same) ↦ subst (IsInLine ds) (sym n.content) (made-IsInLine debug ds svc_name _ _)
    | inr (o, same) ↦ Aligned-IsInLine ds o.old r.sts o.aligned
  ]

  sts-Apart : Apart api Kind.stateful_set
  sts-Apart Kind.stateful_set = inl refl
  sts-Apart _ = inr (λ e. cc)

  mutate_stateful_set-same :
      (s : StatefulSet) (w : W)
      → 0 < s.meta.creation_timestamp
      → IsInLine ds s
      → mutate_stateful_set api debug ds svc_name w s ≡ ok (s, true)
  unfolding mutate_stateful_set
  mutate_stateful_set-same s w time line =
      let align = reporting true (update_ds_stateful_set ds s) in
      let aligned : mutate_stateful_set api debug ds svc_name w s ≡ align = ground arith in
      aligned ∙ ap (reporting true) line

  pub reconcile_sts-Unchanged :
      (law : IsLawful api) (s : StatefulSet) (w : W)
      → api.get Kind.stateful_set (sts_key api debug ds svc_name) w ≡ ok s
      → IsInLine ds s
      → Ends
          (reconcile_sts api debug ds svc_name)
          w
          (λ ds' w'. (ds' ≡ report true s ds) × Unchanged api w w')
          (λ _ w'. Unchanged api w w')
  unfolding reconcile_sts
  reconcile_sts-Unchanged law s w g line =
      let time = law.get_created Kind.stateful_set _ w s g in
      Ends-try
        (api.create_or_update Kind.stateful_set Bool (empty_stateful_set ds)
          (mutate_stateful_set api debug ds svc_name))
        (λ (sts, points). pure (report points sts ds))
        (λ e. raise (wrap "unable to CreateOrUpdate StatefulSet" e)) w
        (create_or_update-Unchanged api law Kind.stateful_set sts-Apart Bool (empty_stateful_set ds)
          s true (mutate_stateful_set api debug ds svc_name) w g
          (mutate_stateful_set-same s w time line))
        (λ r w' (e, same).
          Ends.returns (report r.1 r.0 ds) w' refl
            (ap (λ ((t, p) : StatefulSet × Bool). report p t ds) e, same))
        (λ e w' same. Ends.fails (wrap "unable to CreateOrUpdate StatefulSet" e) w' refl same)
