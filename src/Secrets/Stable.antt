-- ===== src/Secrets/Stable.antt =====
-- controllers/secrets.go, reconcileSecrets, where the passwords are there.
use ds_operator.Prelude.{
  ℕ, ◌≡◌, refl, ◌∙◌, String, Bool, true, false, inl, inr, [], ◌∷◌, Dict, ok, Ends, Ends-bind,
  Ends-try, Ends_mono, pure, raise, wrap, if◌then◌else◌, arith, ◌<◌,
}
use ds_operator.Kube.Objects.{Kind}
use ds_operator.Kube.Client.{Client}
use ds_operator.Kube.Client.Laws.{IsLawful}
use ds_operator.Kube.Client.Stable.{
  Unchanged, Unchanged-refl, Unchanged-trans, Apart, create_or_update-Unchanged,
}
use ds_operator.Api.Types.{DirectoryService, DirectoryPasswords, secret_name_for_dn}
use ds_operator.Secrets.{
  empty_secret, labelled, mutate_secret, reconcile_secret, reconcile_accounts, reconcile_secrets,
}
use ds_operator.Secrets.Keep.{HasPassword, secret_key}
use ds_operator.Secrets.Outcome.{Each-map, Done}

module _ {W : Type 0} (api : Client W) (draw : W → ℕ → ℕ → ℕ) (ds : DirectoryService)
    (law : IsLawful api) (below : (w : W) (m j : ℕ) → 0 < m → draw w m j < m) where
  secret-Apart : Apart api Kind.secret
  secret-Apart Kind.secret = inl refl
  secret-Apart _ = inr (λ e. cc)

  pub Done-Unchanged :
      (accounts : Dict DirectoryPasswords) (w w' : W)
      → Unchanged api w w'
      → Done api draw ds law below accounts w
      → Done api draw ds law below accounts w'
  Done-Unchanged accounts w w' same done =
      Each-map api draw ds law below
        (λ dn account. HasPassword api (secret_key api ds dn) account.key w)
        (λ dn account. HasPassword api (secret_key api ds dn) account.key w') accounts
        (λ dn account h. record {
          secret = h.secret;
          there = same.at Kind.secret (secret_key api ds dn) ∙ h.there;
          entries = h.entries;
          payload = h.payload;
          password = h.password;
          found = h.found;
        })
        done

  mutate_secret-same :
      (dn : String) (account : DirectoryPasswords) (w : W)
      → (h : HasPassword api (secret_key api ds dn) account.key w)
      → mutate_secret api draw ds account w h.secret ≡ ok (h.secret, tt)
  unfolding mutate_secret
  mutate_secret-same dn account w h =
      let time = law.get_created Kind.secret (secret_key api ds dn) w h.secret h.there in
      let kept : labelled api draw ds h.secret ≡ h.secret = ground arith in
      rw (kept, h.payload, h.found) refl

  if_asked-Unchanged :
      (asked : Bool) (dn : String) (account : DirectoryPasswords) (w : W)
      → (asked ≡ true → HasPassword api (secret_key api ds dn) account.key w)
      → Ends
          (if asked then reconcile_secret api draw ds dn account else pure tt)
          w
          (λ _ w'. Unchanged api w w')
          (λ _ w'. Unchanged api w w')
  unfolding reconcile_secret
  if_asked-Unchanged false dn account w has = Ends.returns tt w refl (Unchanged-refl api w)
  if_asked-Unchanged true dn account w has =
      let h = has refl in
      let blank = empty_secret (secret_name_for_dn ds dn) ds.meta.namespace in
      Ends-try
        (api.create_or_update Kind.secret (Unit {0}) blank (mutate_secret api draw ds account))
        (λ r. pure tt) (λ e. raise (wrap "unable to CreateOrUpdate Secret" e)) w
        (create_or_update-Unchanged api law Kind.secret secret-Apart (Unit {0}) blank h.secret tt
          (mutate_secret api draw ds account) w h.there (mutate_secret-same dn account w h))
        (λ r w' (e, same). Ends.returns tt w' refl same)
        (λ e w' same. Ends.fails (wrap "unable to CreateOrUpdate Secret" e) w' refl same)

  reconcile_accounts-Unchanged :
      (accounts : Dict DirectoryPasswords) (w : W)
      → Done api draw ds law below accounts w
      → Ends
          (reconcile_accounts api draw ds accounts)
          w
          (λ _ w'. Unchanged api w w')
          (λ _ w'. Unchanged api w w')
  unfolding reconcile_accounts
  reconcile_accounts-Unchanged [] w done = Ends.returns tt w refl (Unchanged-refl api w)
  reconcile_accounts-Unchanged ((dn, account) ∷ accounts) w (now, later) =
      Ends-bind (if account.create then reconcile_secret api draw ds dn account else pure tt)
        (λ x. reconcile_accounts api draw ds accounts) w
        (if_asked-Unchanged account.create dn account w now)
        (λ x w' p.
          Ends_mono (λ y w'' q. Unchanged-trans api p q) (λ e w'' q. Unchanged-trans api p q)
            (reconcile_accounts-Unchanged accounts w' (Done-Unchanged accounts w w' p later)))

  pub reconcile_secrets-Unchanged :
      (w : W)
      → Done api draw ds law below ds.spec.passwords w
      → Ends
          (reconcile_secrets api draw ds)
          w
          (λ _ w'. Unchanged api w w')
          (λ _ w'. Unchanged api w w')
  unfolding reconcile_secrets
  reconcile_secrets-Unchanged w done = reconcile_accounts-Unchanged ds.spec.passwords w done
