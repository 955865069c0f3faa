-- ===== src/Reconcile/Histories.antt =====
-- controllers/directoryservice_controller.go: the pods are prepared any number of times.
use mathlib.Core.Path.{subst}
use ds_operator.Prelude.{
  ok-injective, ℕ, ◌<◌, pos, Bool, ◌≡◌, ◌≢◌, refl, sym, ◌∙◌, some, inl, inr, Result, ok, panic,
  Action, Ends, Ends_mono, ok-ne-panic,
}
use ds_operator.Kube.Meta.{Key, key_of}
use ds_operator.Kube.Workloads.{StatefulSet}
use ds_operator.Kube.Objects.{Kind}
use ds_operator.Kube.Client.{Client}
use ds_operator.Kube.Client.Laws.{IsLawful}
use ds_operator.Ldap.{Directory}
use ds_operator.Api.Types.{DirectoryService}
use ds_operator.Claims.Loop.{claim_key}
use ds_operator.Secrets.Keep.{Writable, HasPassword, secret_key}
use ds_operator.Secrets.Outcome.{Ready, Each-map}
use ds_operator.StatefulSets.Alignment.{HasContainers}
use ds_operator.StatefulSets.Stable.{IsInLine-HasContainers}
use ds_operator.Reconcile.{prepare_pods}
use ds_operator.Reconcile.Pods.{AllClaims, set_at}
use ds_operator.Reconcile.Reach.{IsPods}
use ds_operator.Reconcile.Stable.{Prepared, Stalled, prepare_pods-Prepared}

module _ {W : Type 0} (api : Client W) (dir : Directory W) (dev_mode debug : Bool)
    (draw : W → ℕ → ℕ → ℕ) (law : IsLawful api) (below : (w : W) (m j : ℕ) → 0 < m → draw w m j < m)
    (ds : DirectoryService) (n : ℕ) where
  abbrev Claims : W → Type 0
  Claims w = AllClaims api dir dev_mode debug draw law below ds n w

  abbrev sts_at : W → Result StatefulSet
  sts_at w = set_at api dir dev_mode debug draw law below ds n w

  -- The accounts' secrets and the stateful set are as the operator makes them, and where there is a
  -- stateful set the claims of all replicas are there.
  pub record Consistent (w : W) : Type 0 where
    pub secrets : Ready api draw ds law below ds.spec.passwords w
    pub containers : (s : StatefulSet) → sts_at w ≡ ok s → HasContainers s
    pub claims : (s : StatefulSet) → sts_at w ≡ ok s → Claims w

  -- What other controllers may do in between: they leave claims, secrets and stateful sets alone.
  pub record Quiet (w w' : W) : Type 0 where
    pub at : (k : Kind) (key : Key) → IsPods k → api.get k key w' ≡ api.get k key w

  -- Calls one after another, each in the world that the one before has left, however it ended.
  pub data History (w : W) : W → Type 0 where
    begin : History w w
    call : (v : W) → History w v → History w (prepare_pods api dir dev_mode debug draw ds v).1
    others : (v v' : W) → History w v → Quiet v v' → History w v'

  Consistent-Prepared :
      (w : W) → Prepared api dir dev_mode debug draw law below ds n w → Consistent w
  Consistent-Prepared w p = record {
    secrets =
        Each-map api draw ds law below
          (λ dn account. HasPassword api (secret_key api ds dn) account.key w)
          (λ dn account. Writable api (secret_key api ds dn) w) ds.spec.passwords
          (λ dn account h. record {
            secret = h.secret;
            there = h.there;
            entries = h.entries;
            payload = h.payload;
          })
          p.passwords;
    containers = λ s g.
        subst HasContainers (ok-injective (sym p.stored ∙ g))
          (IsInLine-HasContainers ds p.sts p.in_line);
    claims = λ s g. p.claims;
  }

  Consistent-Stalled :
      (w w' : W)
      → Consistent w
      → Stalled api dir dev_mode debug draw law below ds n w w'
      → Consistent w'
  Consistent-Stalled w w' c k = record {
    secrets = k.secrets;
    containers = λ s g. c.containers s (sym k.set ∙ g);
    claims = λ s g. k.claims (c.claims s (sym k.set ∙ g));
  }

  Consistent-Quiet : (w w' : W) → Consistent w → Quiet w w' → Consistent w'
  Consistent-Quiet w w' c q =
      let same = q.at Kind.stateful_set (key_of ds.meta) (inr (inr refl)) in
      record {
        secrets =
            Each-map api draw ds law below (λ dn account. Writable api (secret_key api ds dn) w)
              (λ dn account. Writable api (secret_key api ds dn) w') ds.spec.passwords
              (λ dn account h. record {
                secret = h.secret;
                there = q.at Kind.secret (secret_key api ds dn) (inr (inl refl)) ∙ h.there;
                entries = h.entries;
                payload = h.payload;
              })
              c.secrets;
        containers = λ s g. c.containers s (sym same ∙ g);
        claims = λ s g j h.
            let (o, there) = c.claims s (sym same ∙ g) j h in
            (o, q.at Kind.claim (claim_key api ds j) (inl refl) ∙ there);
      }

  call-Consistent :
      (w : W)
      → ds.spec.replicas ≡ some (pos n)
      → Consistent w
      → Ends
          (prepare_pods api dir dev_mode debug draw ds)
          w
          (λ _ w'. Consistent w')
          (λ _ w'. Consistent w')
  call-Consistent w replicas c =
      Ends_mono (λ ds' w' p. Consistent-Prepared w' p) (λ e w' k. Consistent-Stalled w w' c k)
        (prepare_pods-Prepared api dir dev_mode debug draw law below ds n w replicas c.secrets
          c.containers)

  left_by :
      {A : Type 0} (m : Action W A) (w : W)
      → Ends m w (λ _ w'. Consistent w') (λ _ w'. Consistent w')
      → (m w).0 ≢ panic × Consistent (m w).1
  left_by m w (Ends.returns a w' run c) = rw run ((λ h. ok-ne-panic h), c)
  left_by m w (Ends.fails e w' run c) = rw run ((λ h. cc), c)

  -- With `n` replicas, from a world on where the secrets of the accounts to make are there with a
  -- map, a stateful set that is there has a container and an init container, and the claims of all
  -- replicas are there if it is: after any number of calls, of which any may have failed half-way,
  -- and with anything between them that leaves claims, secrets and stateful sets alone, all this
  -- holds again. So the stateful set is never there without its claims, and no call panics.
  pub History-Consistent :
      (w w' : W)
      → ds.spec.replicas ≡ some (pos n)
      → Consistent w
      → History w w'
      → Consistent w' × ((prepare_pods api dir dev_mode debug draw ds w').0 ≢ panic)
  History-Consistent w w' replicas c history =
      let c' = after history in
      (
        c',
        (left_by (prepare_pods api dir dev_mode debug draw ds) w'
            (call-Consistent w' replicas c')).0,
      )
    where
      after : {v : W} → History w v → Consistent v
      after History.begin = c
      after (History.call v h) =
          (left_by (prepare_pods api dir dev_mode debug draw ds) v
            (call-Consistent v replicas (after h))).1
      after (History.others v v' h q) = Consistent-Quiet v v' (after h) q
