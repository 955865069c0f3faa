-- ===== src/StatefulSets/Live.antt =====
-- controllers/sts.go, reconcileSTS, where the server refuses nothing without a reason.
use ds_operator.Prelude.{
  ◌≡◌, ap, ◌∙◌, sym, refl, String, Bool, true, false, [], ◌∷◌, Option, ℤ, List, Error, Result, ok,
  err, panic, ltb, arith, pure, raise, wrap, ok-ne-err, ok-injective,
}
use ds_operator.Kube.Meta.{key_of}
use ds_operator.Kube.Pods.{Container, PodSpec}
use ds_operator.Kube.Workloads.{StatefulSet}
use ds_operator.Kube.Objects.{Kind, Obj}
use ds_operator.Kube.Client.{Client}
use ds_operator.Kube.Client.Laws.{IsLawful}
use ds_operator.Kube.Client.Live.{
  Lively, Lively-try, Lively-pure, Accepting, Passes, Obliging, create_or_update-Lively, if-fine,
}
use ds_operator.Api.Types.{DirectoryService}
use ds_operator.Settings.Ownership.{owned-Owners}
use ds_operator.Settings.{owned}
use ds_operator.StatefulSets.Template.{create_ds_stateful_set}
use ds_operator.StatefulSets.{
  update_ds_stateful_set, mutate_stateful_set, reconcile_sts, empty_stateful_set, reporting,
  with_owner, report, set_images, with_pod,
}
use ds_operator.StatefulSets.Alignment.{reporting-meta, update-meta}

reporting-fine :
    (b : Bool) (r : Result StatefulSet) (e : Error)
    → ((x : Error) → r ≡ err x → ⊥)
    → reporting b r ≡ err e
    → ⊥
reporting-fine b (ok s) e h g = ok-ne-err (sym g)
reporting-fine b (err x) e h g = h x refl
reporting-fine b panic e h g = cc

pub set_images-fine :
    (image : String) (cs is : List Container) (pod : PodSpec) (e : Error)
    → set_images image cs is pod ≡ err e
    → ⊥
unfolding set_images
set_images-fine image [] is pod e h = cc
set_images-fine image (c ∷ cs) [] pod e h = cc
set_images-fine image (c ∷ cs) (i ∷ is) pod e h = ok-ne-err (sym h)

with_pod-fine :
    (sts : StatefulSet) (replicas : Option ℤ) (r : Result PodSpec) (e : Error)
    → ((x : Error) → r ≡ err x → ⊥)
    → with_pod sts replicas r ≡ err e
    → ⊥
unfolding with_pod
with_pod-fine sts replicas (ok pod) e h g = ok-ne-err (sym g)
with_pod-fine sts replicas (err x) e h g = h x refl
with_pod-fine sts replicas panic e h g = cc

update-fine :
    (ds : DirectoryService) (s : StatefulSet) (e : Error) → update_ds_stateful_set ds s ≡ err e → ⊥
unfolding update_ds_stateful_set
update-fine ds s e h = with_pod-fine s ds.spec.replicas _ e (λ x g. set_images-fine _ _ _ _ x g) h

module _ {W : Type 0} (Open : W → Type 0) (Admits : (k : Kind) → W → Obj k → Type 0)
    (api : Client W) (law : IsLawful api) (accepting : Accepting Open Admits api) (debug : Bool)
    (ds : DirectoryService) (svc_name : String)
    (passes : Passes Open Admits api Kind.stateful_set Bool
      (empty_stateful_set ds)
      (mutate_stateful_set api debug ds svc_name)) where
  mutate-Obliging :
      Obliging Open Admits api Kind.stateful_set Bool
        (empty_stateful_set ds)
        (mutate_stateful_set api debug ds svc_name)
  unfolding mutate_stateful_set create_ds_stateful_set
  mutate-Obliging = record {
    passes = passes;
    fine = λ w s e h.
        let made = create_ds_stateful_set api debug ds svc_name w in
        let (os, o) = owned-Owners api law ds.kind ds.meta made.meta in
        if-fine (ltb 0 s.meta.creation_timestamp) (reporting true (update_ds_stateful_set ds s))
          (reporting false (
            with_owner made
              (owned (api.set_controller_reference ds.kind ds.meta made.meta) made.meta)))
          e (reporting-fine true (update_ds_stateful_set ds s) e (update-fine ds s))
          (reporting-fine false _ e (λ x g. ok-ne-err (sym g ∙ ap (with_owner made) o))) h;
    names = λ w n x h.
        let made = create_ds_stateful_set api debug ds svc_name w in
        let (os, o) = owned-Owners api law ds.kind ds.meta made.meta in
        ap (λ ((s, y) : StatefulSet × Bool). key_of s.meta)
          (ok-injective {A = StatefulSet × Bool}
            (sym h ∙ ap (λ r. reporting false (with_owner made r)) o));
    keeps = λ w s n x t h.
        let align = reporting true (update_ds_stateful_set ds s) in
        let aligned : mutate_stateful_set api debug ds svc_name w s ≡ align = ground arith in
        let same =
          reporting-meta s n x (update_ds_stateful_set ds s) (sym aligned ∙ h) (update-meta ds s) in
        (ap key_of same, rw same t);
  }

  pub reconcile_sts-Lively : Lively Open (reconcile_sts api debug ds svc_name)
  unfolding reconcile_sts
  reconcile_sts-Lively =
      Lively-try Open
        (api.create_or_update Kind.stateful_set Bool (empty_stateful_set ds)
          (mutate_stateful_set api debug ds svc_name))
        (λ (sts, points). pure (report points sts ds))
        (λ e. raise (wrap "unable to CreateOrUpdate StatefulSet" e))
        (create_or_update-Lively Open Admits api Kind.stateful_set Bool (empty_stateful_set ds)
          (mutate_stateful_set api debug ds svc_name) law accepting mutate-Obliging)
        (λ r. Lively-pure Open (report r.1 r.0 ds))
