-- ===== src/Reconcile/Preparing.antt =====
-- controllers/directoryservice_controller.go: the steps up to the stateful set, and what later steps
-- keep of them.
use mathlib.Core.Path.{subst}
use ds_operator.Prelude.{
  ℕ, ◌<◌, pos, Bool, ◌≡◌, ◌≢◌, refl, sym, ◌∙◌, inl, inr, some, ok, Ends, Ends-bind, Ends_mono,
  ◌>>=◌,
}
use ds_operator.Kube.Meta.{Key, key_of}
use ds_operator.Kube.Workloads.{StatefulSet, Deployment}
use ds_operator.Kube.Objects.{Kind}
use ds_operator.Kube.Client.{Client}
use ds_operator.Kube.Client.Laws
use ds_operator.Kube.Client.Frames.{
  Frame, Frame-same, Frame-trans, Frame-OnlyKind, Frame-OnlyAt, Frame-subset,
}
use ds_operator.Api.Types.{DirectoryService}
use ds_operator.Claims.{reconcile_pvc}
use ds_operator.Claims.Loop.{reconcile_pvc-ends}
use ds_operator.Secrets.{reconcile_secrets}
use ds_operator.Secrets.Outcome.{Ready, reconcile_secrets-Keeps}
use ds_operator.StatefulSets.{reconcile_sts}
use ds_operator.StatefulSets.Alignment.{HasContainers}
use ds_operator.StatefulSets.Updates.{reconcile_sts-Reconciled}
use ds_operator.Services.{proxy_key}
use ds_operator.Proxies.Alignment.{HasProxyContainers}
use ds_operator.Ldap.{Directory}
use ds_operator.Reconcile.{prepare_pods}
use ds_operator.Reconcile.Pods.{AllClaims, Ready-Careful}
use ds_operator.Reconcile.Reach.{Reach, ReachOf, IsPods, IsSnapshots, Like}

module _ {W : Type 0} (api : Client W) (dir : Directory W) (dev_mode debug : Bool)
    (draw : W → ℕ → ℕ → ℕ) (law : Laws.IsLawful api)
    (below : (w : W) (m j : ℕ) → 0 < m → draw w m j < m) (ds : DirectoryService) (n : ℕ) where
  -- What the reconciler needs of the objects that are there already.
  pub record Fit (w : W) : Type 0 where
    pub replicas : ds.spec.replicas ≡ some (pos n)
    pub secrets : Ready api draw ds law below ds.spec.passwords w
    pub set :
        (s : StatefulSet) → api.get Kind.stateful_set (key_of ds.meta) w ≡ ok s → HasContainers s
    pub deployment :
        (d : Deployment)
        → api.get Kind.deployment (proxy_key api ds) w ≡ ok d
        → HasProxyContainers d

  abbrev pub PodsReady : W → Type 0
  PodsReady w =
      AllClaims api dir dev_mode debug draw law below ds n w
      × ((sts : StatefulSet) × (api.get Kind.stateful_set (key_of ds.meta) w ≡ ok sts))

  pub prepare_pods-Frame :
      (w : W)
      → Fit w
      → Ends
          (prepare_pods api dir dev_mode debug draw ds)
          w
          (λ ds' w'. Frame api (ReachOf IsPods ds) w w' × Like ds ds')
          (λ e w'. Frame api (ReachOf IsPods ds) w w')
  unfolding prepare_pods
  prepare_pods-Frame w fit =
      Ends-bind (reconcile_pvc api ds)
        (λ x. reconcile_secrets api draw ds >>= (λ y. reconcile_sts api debug ds ds.meta.name)) w
        (Ends_mono (λ x w1 p. p)
          (λ e w1 c. Frame-OnlyKind api Kind.claim (λ key. (inl refl, tt)) c.only)
          (reconcile_pvc-ends api ds law n w fit.replicas))
        (λ x w1 (c, all).
          let f1 = Frame-OnlyKind api Kind.claim (λ key. (inl refl, tt)) c.only in
          Ends-bind (reconcile_secrets api draw ds) (λ y. reconcile_sts api debug ds ds.meta.name)
            w1
            (Ends_mono (λ y w2 p. p)
              (λ e w2 k.
                Frame-trans api f1
                  (Frame-OnlyKind api Kind.secret (λ key. (inr (inl refl), tt)) k.only))
              (reconcile_secrets-Keeps api draw ds law below w1
                (Ready-Careful api dir dev_mode debug draw law below ds n w w1 c fit.secrets)))
            (λ y w2 (k, done).
              let f2 =
                Frame-trans api f1
                  (Frame-OnlyKind api Kind.secret (λ key. (inr (inl refl), tt)) k.only) in
              Ends_mono
                (λ ds' w3 made. (
                  Frame-trans api f2 (
                      Frame-OnlyAt api Kind.stateful_set (key_of ds.meta) (inr (inr refl), refl)
                        made.elsewhere),
                  elim made.how [
                    | inl (new, same) ↦ subst (Like ds) (sym same) refl
                    | inr (old, same) ↦ subst (Like ds) (sym same) refl
                  ],
                ))
                (λ e w3 same. Frame-trans api f2 (Frame-same api w2 w3 same))
                (reconcile_sts-Reconciled api debug ds ds.meta.name law w2 (λ s g. fit.set s (
                  sym (c.only.at Kind.stateful_set (key_of ds.meta) (λ e. cc))
                  ∙ sym (k.only.at Kind.stateful_set (key_of ds.meta) (λ e. cc))
                  ∙ g)))))

  -- What an object of a kind that a step does not touch is afterwards.
  pub kept_by :
      {K : Kind → Type 0} {w w' : W} (k : Kind) (key : Key)
      → (K k → ⊥)
      → Frame api (ReachOf K ds) w w'
      → api.get k key w' ≡ api.get k key w
  kept_by k key n f = f.at k key (λ t. n t.0)

  pub pods-kept :
      {K : Kind → Type 0} {w w' : W}
      → (K Kind.claim → ⊥)
      → (K Kind.stateful_set → ⊥)
      → Frame api (ReachOf K ds) w w'
      → PodsReady w
      → PodsReady w'
  pods-kept no_claim no_set f (claims, (sts, g)) = (
    (λ j h. let (o, g) = claims j h in (o, kept_by Kind.claim _ no_claim f ∙ g)),
    (sts, kept_by Kind.stateful_set (key_of ds.meta) no_set f ∙ g),
  )

  pub to_reach :
      {K : Kind → Type 0} {w w' : W} → Frame api (ReachOf K ds) w w' → Frame api (Reach ds) w w'
  to_reach f = Frame-subset api (λ k key t. t.1) f

  pub snapshots-not :
      (k : Kind) → (k ≢ Kind.snapshot) → (k ≢ Kind.directory_service) → IsSnapshots k → ⊥
  snapshots-not k n n' (inl e) = n e
  snapshots-not k n n' (inr e) = n' e

  pub pods-not :
      (k : Kind) → (k ≢ Kind.claim) → (k ≢ Kind.secret) → (k ≢ Kind.stateful_set) → IsPods k → ⊥
  pods-not k n n' n'' (inl e) = n e
  pods-not k n n' n'' (inr (inl e)) = n' e
  pods-not k n n' n'' (inr (inr e)) = n'' e
