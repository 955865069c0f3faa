-- ===== src/Reconcile/Stable.antt =====
-- controllers/directoryservice_controller.go: the pods are prepared a second time.
use mathlib.Core.Path.{subst}
use ds_operator.Prelude.{
  ℕ, ◌<◌, pos, Bool, ◌≡◌, sym, ◌∙◌, some, ok, Action, Ends, Ends-bind, Ends_mono, ◌>>=◌,
}
use ds_operator.Kube.Meta.{key_of}
use ds_operator.Kube.Workloads.{StatefulSet}
use ds_operator.Kube.Objects.{Kind}
use ds_operator.Kube.Client.{Client}
use ds_operator.Kube.Client.Laws.{IsLawful}
use ds_operator.Kube.Client.Stable.{Unchanged, Unchanged-trans}
use ds_operator.Ldap.{Directory}
use ds_operator.Api.Types.{DirectoryService}
use ds_operator.Claims.{reconcile_pvc}
use ds_operator.Claims.Loop.{claim_key, reconcile_pvc-ends}
use ds_operator.Claims.Stable.{reconcile_pvc-Unchanged}
use ds_operator.Secrets.{reconcile_secrets}
use ds_operator.Secrets.Keep.{Keeps, Writable, Writable-Keeps, HasPassword, secret_key}
use ds_operator.Secrets.Outcome.{Ready, Done, Each-map, reconcile_secrets-Keeps}
use ds_operator.Secrets.Stable.{Done-Unchanged, reconcile_secrets-Unchanged}
use ds_operator.StatefulSets.{reconcile_sts}
use ds_operator.StatefulSets.Alignment.{HasContainers}
use ds_operator.StatefulSets.Stable.{IsInLine, Reconciled-IsInLine, reconcile_sts-Unchanged}
use ds_operator.StatefulSets.Updates.{Reconciled, reconcile_sts-Reconciled}
use ds_operator.Reconcile.{prepare_pods}
use ds_operator.Reconcile.Pods.{AllClaims, set_at, Ready-Careful}

module _ {W : Type 0} (api : Client W) (dir : Directory W) (dev_mode debug : Bool)
    (draw : W → ℕ → ℕ → ℕ) (law : IsLawful api) (below : (w : W) (m j : ℕ) → 0 < m → draw w m j < m)
    (ds : DirectoryService) (n : ℕ) where
  -- The claims, the passwords and the stateful set are as the operator wants them.
  pub record Prepared (w : W) : Type 0 where
    pub claims : AllClaims api dir dev_mode debug draw law below ds n w
    pub passwords : Done api draw ds law below ds.spec.passwords w
    pub sts : StatefulSet
    pub stored : api.get Kind.stateful_set (key_of ds.meta) w ≡ ok sts
    pub in_line : IsInLine ds sts

  -- A call that fails has left the stateful set as it was, and no claim and no secret is gone.
  pub record Stalled (w w' : W) : Type 0 where
    pub set :
        set_at api dir dev_mode debug draw law below ds n w'
        ≡ set_at api dir dev_mode debug draw law below ds n w
    pub secrets : Ready api draw ds law below ds.spec.passwords w'
    pub claims :
        AllClaims api dir dev_mode debug draw law below ds n w
        → AllClaims api dir dev_mode debug draw law below ds n w'

  Stalled-Keeps :
      (w w1 w2 : W)
      → set_at api dir dev_mode debug draw law below ds n w1
        ≡ set_at api dir dev_mode debug draw law below ds n w
      → AllClaims api dir dev_mode debug draw law below ds n w1
      → Ready api draw ds law below ds.spec.passwords w1
      → Keeps api w1 w2
      → Stalled w w2
  Stalled-Keeps w w1 w2 same all ready k = record {
    set = k.only.at Kind.stateful_set (key_of ds.meta) (λ e. cc) ∙ same;
    secrets =
        Each-map api draw ds law below (λ dn account. Writable api (secret_key api ds dn) w1)
          (λ dn account. Writable api (secret_key api ds dn) w2) ds.spec.passwords
          (λ dn account h. Writable-Keeps api (secret_key api ds dn) w1 w2 h k) ready;
    claims = λ _ j h.
        let (o, g) = all j h in (o, k.only.at Kind.claim (claim_key api ds j) (λ e. cc) ∙ g);
  }

  Prepared-Reconciled :
      (w w' : W) (ds' : DirectoryService)
      → AllClaims api dir dev_mode debug draw law below ds n w
      → Done api draw ds law below ds.spec.passwords w
      → Reconciled api debug ds ds.meta.name w ds' w'
      → Prepared w'
  Prepared-Reconciled w w' ds' claims done made = record {
    claims = λ j h.
        let (o, g) = claims j h in
        (o, made.elsewhere Kind.claim (claim_key api ds j) (λ p e. absurd cc) ∙ g);
    passwords =
        Each-map api draw ds law below
          (λ dn account. HasPassword api (secret_key api ds dn) account.key w)
          (λ dn account. HasPassword api (secret_key api ds dn) account.key w') ds.spec.passwords
          (λ dn account h. record {
            secret = h.secret;
            there = made.elsewhere Kind.secret (secret_key api ds dn) (λ p e. absurd cc) ∙ h.there;
            entries = h.entries;
            payload = h.payload;
            password = h.password;
            found = h.found;
          })
          done;
    sts = made.sts;
    stored = made.stored;
    in_line = Reconciled-IsInLine api debug ds ds.meta.name w w' ds' made;
  }

  abbrev from_secrets : Action W DirectoryService
  from_secrets = reconcile_secrets api draw ds >>= (λ y. reconcile_sts api debug ds ds.meta.name)

  pub prepare_pods-Prepared :
      (w : W)
      → ds.spec.replicas ≡ some (pos n)
      → Ready api draw ds law below ds.spec.passwords w
      → ((s : StatefulSet)
          → set_at api dir dev_mode debug draw law below ds n w ≡ ok s
          → HasContainers s)
      → Ends
          (prepare_pods api dir dev_mode debug draw ds)
          w
          (λ ds' w'. Prepared w')
          (λ e w'. Stalled w w')
  unfolding prepare_pods
  prepare_pods-Prepared w replicas ready has =
      Ends-bind (reconcile_pvc api ds) (λ x. from_secrets) w
        (Ends_mono (λ x w1 p. p)
          (λ e w1 c. record {
            set = c.only.at Kind.stateful_set (key_of ds.meta) (λ e. cc);
            secrets = Ready-Careful api dir dev_mode debug draw law below ds n w w1 c ready;
            claims = λ all j h.
                let (o, g) = all j h in (o, c.kept.at Kind.claim (claim_key api ds j) o g);
          })
          (reconcile_pvc-ends api ds law n w replicas))
        (λ x w1 (careful, all1).
          let same1 = careful.only.at Kind.stateful_set (key_of ds.meta) (λ e. cc) in
          let ready1 =
            Ready-Careful api dir dev_mode debug draw law below ds n w w1 careful ready in
          Ends-bind (reconcile_secrets api draw ds) (λ y. reconcile_sts api debug ds ds.meta.name)
            w1
            (Ends_mono (λ y w2 p. p) (λ e w2 k. Stalled-Keeps w w1 w2 same1 all1 ready1 k)
              (reconcile_secrets-Keeps api draw ds law below w1 ready1))
            (λ y w2 (k, done).
              let same2 = k.only.at Kind.stateful_set (key_of ds.meta) (λ e. cc) ∙ same1 in
              Ends_mono
                (λ ds' w3 made.
                  Prepared-Reconciled w2 w3 ds'
                    (λ j h.
                      let (o, g) = all1 j h in
                      (o, k.only.at Kind.claim (claim_key api ds j) (λ e. cc) ∙ g))
                    done made)
                (λ e w3 same.
                  subst (Stalled w) (sym same) (Stalled-Keeps w w1 w2 same1 all1 ready1 k))
                (reconcile_sts-Reconciled api debug ds ds.meta.name law w2
                  (λ s g. has s (sym same2 ∙ g)))))

  abbrev pub Again : W → Type 0
  Again w =
      Ends (prepare_pods api dir dev_mode debug draw ds) w (λ ds' w'. Unchanged api w w')
        (λ e w'. Unchanged api w w')

  Prepared-Again : (w : W) → ds.spec.replicas ≡ some (pos n) → Prepared w → Again w
  unfolding prepare_pods
  Prepared-Again w replicas p =
      Ends-bind (reconcile_pvc api ds) (λ x. from_secrets) w
        (reconcile_pvc-Unchanged api law ds n w replicas p.claims)
        (λ x w1 same1.
          Ends-bind (reconcile_secrets api draw ds) (λ y. reconcile_sts api debug ds ds.meta.name)
            w1
            (Ends_mono (λ y w2 same. Unchanged-trans api same1 same)
              (λ e w2 same. Unchanged-trans api same1 same)
              (reconcile_secrets-Unchanged api draw ds law below w1
                (Done-Unchanged api draw ds law below ds.spec.passwords w w1 same1 p.passwords)))
            (λ y w2 same2.
              Ends_mono (λ ds' w3 q. Unchanged-trans api same2 q.1)
                (λ e w3 same. Unchanged-trans api same2 same)
                (reconcile_sts-Unchanged api debug ds ds.meta.name law p.sts w2
                  (same2.at Kind.stateful_set (key_of ds.meta) ∙ p.stored) p.in_line)))

  -- With `n` replicas, where the accounts' secrets and an existing stateful set are as the operator
  -- makes them: once the claims, the secrets and the stateful set have been reconciled, a second
  -- reconcile of them for the same directory service does not panic and changes no object of any
  -- kind, whether it returns or fails.
  pub prepare_pods-Again :
      (w : W)
      → ds.spec.replicas ≡ some (pos n)
      → Ready api draw ds law below ds.spec.passwords w
      → ((s : StatefulSet)
          → set_at api dir dev_mode debug draw law below ds n w ≡ ok s
          → HasContainers s)
      → Ends (prepare_pods api dir dev_mode debug draw ds) w (λ ds' w'. Again w') (λ e w'. Unit)
  prepare_pods-Again w replicas ready has =
      Ends_mono (λ ds' w' p. Prepared-Again w' replicas p) (λ e w' t. tt)
        (prepare_pods-Prepared w replicas ready has)
