-- ===== src/Services/Live.antt =====
-- controllers/service.go, reconcileService, where the server refuses nothing without a reason.
use ds_operator.Prelude.{◌≡◌, sym, ap, ◌∙◌, String, ok, ltb, arith, ok-ne-err, ok-injective, pure}
use ds_operator.Kube.Meta.{key_of}
use ds_operator.Kube.Workloads.{Service}
use ds_operator.Kube.Objects.{Kind, Obj}
use ds_operator.Kube.Client.{Client}
use ds_operator.Kube.Client.Laws.{IsLawful}
use ds_operator.Kube.Client.Live.{
  Lively, Lively-bind, Lively-pure, Accepting, Passes, Obliging, create_or_update-Lively, if-fine,
}
use ds_operator.Api.Types.{DirectoryService}
use ds_operator.Settings.{owned}
use ds_operator.Settings.Ownership.{owned-Owners}
use ds_operator.Services.{
  create_service, empty_service, with_owner, mutate_service, reconcile_service,
}

module _ {W : Type 0} (Open : W → Type 0) (Admits : (k : Kind) → W → Obj k → Type 0)
    (api : Client W) (law : IsLawful api) (accepting : Accepting Open Admits api)
    (ds : DirectoryService) (svc_name : String)
    (passes : Passes Open Admits api Kind.service
      (Unit {0})
      (empty_service svc_name ds.meta.namespace)
      (mutate_service api ds)) where
  mutate-Obliging :
      Obliging Open Admits api Kind.service
        (Unit {0})
        (empty_service svc_name ds.meta.namespace)
        (mutate_service api ds)
  unfolding mutate_service
  mutate-Obliging = record {
    passes = passes;
    fine = λ w s e h.
        let made = create_service ds s in
        let (os, o) = owned-Owners api law ds.kind ds.meta made.meta in
        if-fine (ltb 0 s.meta.creation_timestamp) (ok (s, tt))
          (with_owner made
            (owned (api.set_controller_reference ds.kind ds.meta made.meta) made.meta))
          e (λ g. ok-ne-err (sym g)) (λ g. ok-ne-err (sym g ∙ ap (with_owner made) o)) h;
    names = λ w n x h.
        let made = create_service ds (empty_service svc_name ds.meta.namespace) in
        let (os, o) = owned-Owners api law ds.kind ds.meta made.meta in
        ap (λ ((s, y) : Service × Unit {0}). key_of s.meta)
          (ok-injective {A = Service × Unit {0}} (sym h ∙ ap (with_owner made) o));
    keeps = λ w s n x t h.
        let kept : mutate_service api ds w s ≡ ok (s, tt) = ground arith in
        let same =
          ap (λ ((m, y) : Service × Unit {0}). m.meta)
            (ok-injective {A = Service × Unit {0}} (sym h ∙ kept)) in
        (ap key_of same, rw same t);
  }

  pub reconcile_service-Lively : Lively Open (reconcile_service api ds svc_name)
  unfolding reconcile_service
  reconcile_service-Lively =
      Lively-bind Open
        (api.create_or_update Kind.service (Unit {0}) (empty_service svc_name ds.meta.namespace)
          (mutate_service api ds))
        (λ ((svc, x) : Service × Unit {0}). pure svc)
        (create_or_update-Lively Open Admits api Kind.service (Unit {0})
          (empty_service svc_name ds.meta.namespace) (mutate_service api ds) law accepting
          mutate-Obliging)
        (λ r. Lively-pure Open r.0)
