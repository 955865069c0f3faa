-- ===== src/Services/Creation.antt =====
-- controllers/service.go, proxy_service.go: a service is made once and then left alone.
use mathlib.Core.Path.{subst}
use ds_operator.Prelude.{
  ℕ, String, ◌≡◌, refl, sym, ap, ◌∙◌, ◌⊎◌, inl, inr, true, false, Bool-cases, ok, err, not_found,
  List, ltb, arith, Ends, Ends-bind, Ends_mono, Ends_at, ok-injective, ok-ne-panic, pure,
}
use ds_operator.Kube.Meta.{key_of, OwnerReference}
use ds_operator.Kube.Workloads.{Service}
use ds_operator.Kube.Objects.{Kind}
use ds_operator.Kube.Client.{Client}
use ds_operator.Kube.Client.Laws.{IsLawful, OnlyAt}
use ds_operator.Kube.Client.Keep.{Idle, Applied-old}
use ds_operator.Kube.Client.Apply.{Applied, Sound, create_or_update-ends}
use ds_operator.Api.Types.{DirectoryService}
use ds_operator.Settings.Ownership.{owned-Owners}
use ds_operator.Services.{
  create_service, create_proxy_service, empty_service, mutate_with, mutate_service,
  mutate_proxy_service, reconcile_service, reconcile_proxy_service, apply_proxy_service, proxy_name,
  with_owner,
}

module _ {W : Type 0} (api : Client W) (ds : DirectoryService) where
  -- The service is one that was there, or there was none and it is `made` with some owners and
  -- what the server gives a new object. Nothing else has changed.
  pub record Ensured (made : Service) (w : W) (svc : Service) (w' : W) : Type 0 where
    pub stored : api.get Kind.service (key_of made.meta) w' ≡ ok svc
    pub elsewhere : OnlyAt api Kind.service (key_of made.meta) w w'
    pub how :
        (api.get Kind.service (key_of made.meta) w ≡ ok svc)
        ⊎ ((owners : List OwnerReference) × (time : ℕ) × (uid : String) × (api.get Kind.service
                (key_of made.meta)
                w
              ≡ err not_found)
            × (svc ≡ record made {
              meta = record made.meta {
                owner_references = owners;
                creation_timestamp = time;
                uid = uid;
              };
            }))

  module _ (law : IsLawful api) (make : Service → Service) (name namespace : String) where
    abbrev blank : Service
    blank = empty_service name namespace

    -- The service keeps its name and namespace.
    abbrev Named : Type 0
    Named =
        (s : Service) → key_of s.meta ≡ key_of blank.meta → key_of (make s).meta ≡ key_of blank.meta

    mutate_new :
        (w : W) (s : Service)
        → ltb 0 s.meta.creation_timestamp ≡ false
        → (os : List OwnerReference) × (mutate_with api ds make w s
            ≡ ok (record (make s) { meta = record (make s).meta { owner_references = os } }, tt))
    mutate_new w s h =
        let made = make s in
        let (os, e) = owned-Owners api law ds.kind ds.meta made.meta in
        (os, rw h (ap (with_owner made) e))

    mutate-Sound :
        (w : W) → Named → Sound api Kind.service (Unit {0}) blank (mutate_with api ds make) w
    mutate-Sound w named = record {
      no_panic = λ s which h. elim (Bool-cases (ltb 0 s.meta.creation_timestamp)) [
        | inl e ↦ ground arith
        | inr e ↦ ok-ne-panic (sym (mutate_new w s e).1 ∙ h)
      ];
      keeps_key = λ s s' x same h. elim (Bool-cases (ltb 0 s.meta.creation_timestamp)) [
        | inl e ↦ ground arith
        | inr e ↦
            ap (λ (t, y). key_of t.meta)
              (ok-injective {A = Service × Unit {0}} (sym h ∙ (mutate_new w s e).1))
            ∙ named s same
      ];
    }

    mutate-Idle : (w : W) → Idle api Kind.service (Unit {0}) blank (mutate_with api ds make) w
    mutate-Idle w s h = (tt, ground arith)

    Ensured-Applied :
        (w w' : W) (r : Service × Unit {0})
        → key_of (make blank).meta ≡ key_of blank.meta
        → Applied api Kind.service (Unit {0}) blank (mutate_with api ds make) w r w'
        → Ensured (make blank) w r.0 w'
    Ensured-Applied w w' r same a = record {
      stored = ap (λ x. api.get Kind.service x w') same ∙ a.stored;
      elsewhere = subst (λ x. OnlyAt api Kind.service x w w') (sym same) a.elsewhere;
      how = elim a.how [
        | inl c ↦
            let (os, m) = mutate_new w blank refl in
            inr (
              os,
              c.fresh.time,
              c.fresh.uid,
              ap (λ x. api.get Kind.service x w) same ∙ c.was_absent,
              c.fresh.content
                  ∙ ap
                      (λ ((t, y) : Service × Unit {0}). record t {
                        meta = record t.meta {
                          creation_timestamp = c.fresh.time;
                          uid = c.fresh.uid;
                        };
                      })
                      (ok-injective {A = Service × Unit {0}} (sym c.mutated ∙ m)),
            )
        | inr u ↦ inl (
            ap (λ x. api.get Kind.service x w) same
            ∙ rw
                (Applied-old api Kind.service (Unit {0}) blank (mutate_with api ds make) law
                  (mutate-Idle w) a u.old u.was_present)
                u.was_present)
      ];
    }

    ensure-ends :
        (w : W)
        → Named
        → Ends
            (api.create_or_update Kind.service (Unit {0}) blank (mutate_with api ds make))
            w
            (λ r w'. Ensured (make blank) w r.0 w')
            (λ _ w'. w' ≡ w)
    ensure-ends w named =
        Ends_mono (λ r w' a. Ensured-Applied w w' r (named blank refl) a) (λ e w' same. same)
          (create_or_update-ends api Kind.service (Unit {0}) blank (mutate_with api ds make) law w
            (mutate-Sound w named))

  -- reconcileService does not panic. It fails and changes nothing, or the named service is stored:
  -- an existing one as it was, or a new one as createService makes it, with some owners.
  pub reconcile_service-Ensured :
      IsLawful api
      → (svc_name : String) (w : W)
      → Ends
          (reconcile_service api ds svc_name)
          w
          (λ svc w'.
            Ensured (create_service ds (empty_service svc_name ds.meta.namespace)) w svc w')
          (λ _ w'. w' ≡ w)
  unfolding reconcile_service mutate_service
  reconcile_service-Ensured law svc_name w =
      Ends-bind
        (api.create_or_update Kind.service (Unit {0}) (empty_service svc_name ds.meta.namespace)
          (mutate_service api ds))
        (λ (svc, x). pure svc) w
        (ensure-ends law (create_service ds) svc_name ds.meta.namespace w
          (λ s e. ap (λ k. record { namespace = ds.meta.namespace; name = k.name }) e))
        (λ r w' made. Ends.returns r.0 w' refl made)

  -- reconcileProxyService, with the proxy enabled, does the same for the service of the proxies.
  pub reconcile_proxy_service-Ensured :
      IsLawful api
      → (w : W) → ds.spec.proxy.enabled ≡ true
      → Ends
          (reconcile_proxy_service api ds)
          w
          (λ svc w'. Ensured (create_proxy_service ds) w svc w')
          (λ _ w'. w' ≡ w)
  unfolding reconcile_proxy_service apply_proxy_service mutate_proxy_service
  reconcile_proxy_service-Ensured law w on = Ends_at (rw on refl) (
      Ends-bind
        (api.create_or_update Kind.service (Unit {0})
          (empty_service (proxy_name ds) ds.meta.namespace) (mutate_proxy_service api ds))
        (λ (svc, x). pure svc) w
        (ensure-ends law (λ s. create_proxy_service ds) (proxy_name ds) ds.meta.namespace w
          (λ s e. refl))
        (λ r w' made. Ends.returns r.0 w' refl made))
