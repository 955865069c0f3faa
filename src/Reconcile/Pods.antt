-- ===== src/Reconcile/Pods.antt =====
-- controllers/directoryservice_controller.go: claims, secrets and stateful set, in that order.
use ds_operator.Prelude.{
  ℕ, ◌<◌, pos, Bool, ◌≡◌, ◌≢◌, sym, ◌∙◌, some, Result, ok, Action, Ends, Ends-bind, Ends_mono,
  ◌>>=◌,
}
use ds_operator.Kube.Meta.{Key, key_of}
use ds_operator.Kube.Workloads.{StatefulSet}
use ds_operator.Kube.Objects.{Kind}
use ds_operator.Kube.Client.{Client}
use ds_operator.Kube.Client.Laws.{IsLawful}
use ds_operator.Ldap.{Directory}
use ds_operator.Api.Types.{DirectoryService}
use ds_operator.Claims.{reconcile_pvc}
use ds_operator.Claims.Loop.{Careful, HasClaim, claim_key, reconcile_pvc-ends}
use ds_operator.Secrets.{reconcile_secrets}
use ds_operator.Secrets.Keep.{Writable, secret_key}
use ds_operator.Secrets.Outcome.{Ready, Each-map, reconcile_secrets-Keeps}
use ds_operator.StatefulSets.{reconcile_sts}
use ds_operator.StatefulSets.Alignment.{HasContainers}
use ds_operator.StatefulSets.Updates.{Reconciled, reconcile_sts-Reconciled}
use ds_operator.Reconcile.{prepare_pods}

module _ {W : Type 0} (api : Client W) (dir : Directory W) (dev_mode debug : Bool)
    (draw : W → ℕ → ℕ → ℕ) (law : IsLawful api) (below : (w : W) (m j : ℕ) → 0 < m → draw w m j < m)
    (ds : DirectoryService) (n : ℕ) where
  abbrev pub AllClaims : W → Type 0
  AllClaims w = (j : ℕ) → j < n → HasClaim api ds j w

  abbrev pub set_at : W → Result StatefulSet
  set_at w = api.get Kind.stateful_set (key_of ds.meta) w

  -- Either the stateful set is as it was, or the claims of all replicas are there.
  abbrev pub InOrder : W → W → Type 0
  InOrder w w' = (set_at w' ≢ set_at w) → AllClaims w'

  same_claims :
      (w w' : W)
      → ((key : Key) → api.get Kind.claim key w' ≡ api.get Kind.claim key w)
      → AllClaims w
      → AllClaims w'
  same_claims w w' same all j h = let (o, g) = all j h in (o, same (claim_key api ds j) ∙ g)

  -- The claims' loop leaves the secrets as they are.
  pub Ready-Careful :
      (w w1 : W)
      → Careful api ds w w1
      → Ready api draw ds law below ds.spec.passwords w
      → Ready api draw ds law below ds.spec.passwords w1
  Ready-Careful w w1 careful ready =
      Each-map api draw ds law below (λ dn account. Writable api (secret_key api ds dn) w)
        (λ dn account. Writable api (secret_key api ds dn) w1) ds.spec.passwords
        (λ dn account h. record {
          secret = h.secret;
          there = careful.kept.at Kind.secret (secret_key api ds dn) h.secret h.there;
          entries = h.entries;
          payload = h.payload;
        })
        ready

  -- With `n` replicas, where the accounts' secrets and an existing stateful set are as the operator
  -- makes them, the three steps do not panic; if they return, the claims of all replicas are there
  -- and the stateful set has been reconciled; and even on an error the stateful set has changed
  -- only if the claims of all replicas are there.
  pub prepare_pods-InOrder :
      (w : W)
      → ds.spec.replicas ≡ some (pos n)
      → Ready api draw ds law below ds.spec.passwords w
      → ((s : StatefulSet) → set_at w ≡ ok s → HasContainers s)
      → Ends
          (prepare_pods api dir dev_mode debug draw ds)
          w
          (λ ds' w'. AllClaims w' × ((at : W) × Reconciled api debug ds ds.meta.name at ds' w'))
          (λ _ w'. InOrder w w')
  unfolding prepare_pods
  prepare_pods-InOrder w replicas ready has =
      Ends-bind (reconcile_pvc api ds) (λ x. from_secrets) w
        (Ends_mono (λ x w1 p. p)
          (λ e w1 c n. absurd (n (c.only.at Kind.stateful_set (key_of ds.meta) (λ e. cc))))
          (reconcile_pvc-ends api ds law n w replicas))
        (λ x w1 (careful, all1).
          let same1 = careful.only.at Kind.stateful_set (key_of ds.meta) (λ e. cc) in
          Ends-bind (reconcile_secrets api draw ds) (λ y. reconcile_sts api debug ds ds.meta.name)
            w1
            (Ends_mono (λ y w2 p. p)
              (λ e w2 k n.
                absurd (n (k.only.at Kind.stateful_set (key_of ds.meta) (λ e. cc) ∙ same1)))
              (reconcile_secrets-Keeps api draw ds law below w1 (Ready-Careful w w1 careful ready)))
            (λ y w2 (k, done).
              let same2 = k.only.at Kind.stateful_set (key_of ds.meta) (λ e. cc) ∙ same1 in
              let all2 = same_claims w1 w2 (λ key. k.only.at Kind.claim key (λ e. cc)) all1 in
              Ends_mono
                (λ ds' w3 made. (
                  same_claims w2 w3 (λ key. made.elsewhere Kind.claim key (λ p e. absurd cc)) all2,
                  (w2, made),
                ))
                (λ e w3 same n. absurd (n (rw same same2)))
                (reconcile_sts-Reconciled api debug ds ds.meta.name law w2
                  (λ s g. has s (sym same2 ∙ g)))))
    where
      from_secrets : Action W DirectoryService
      from_secrets =
          reconcile_secrets api draw ds >>= (λ y. reconcile_sts api debug ds ds.meta.name)
