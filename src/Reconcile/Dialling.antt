-- ===== src/Reconcile/Dialling.antt =====
-- controllers/directoryservice_controller.go, getAdminLDAPConnection: it keeps a world open, and does
-- not return where the directory server cannot be dialled.
use ds_operator.Prelude.{
  ℕ, ◌≢◌, err, panic, ok-ne-err, ok-ne-panic, Bool, ◌≡◌, refl, sym, Result, ok, lift, raise,
  message, ◌>>=◌,
}
use ds_operator.Kube.Workloads.{Service, Secret}
use ds_operator.Kube.Objects.{Kind}
use ds_operator.Kube.Client.{Client}
use ds_operator.Api.Types.{DirectoryService, account_of}
use ds_operator.Ldap.{Directory, DsConnection, connect}
use ds_operator.Ldap.Live.{
  Steady, Steady-try, Steady-bind, IsApart, Unreached, connect-Steady, connect-Unreached,
}
use ds_operator.Passwords.{read_key}
use ds_operator.Services.{or_empty}
use ds_operator.Secrets.{look_in}
use ds_operator.Reconcile.{get_admin_ldap_connection, ldap_url}

module _ {W : Type 0} (Open : W → Type 0) (api : Client W) (dir : Directory W)
    (dev_mode debug : Bool) (draw : W → ℕ → ℕ → ℕ) (apart : IsApart Open dir) where
  pub get_admin_ldap_connection-Steady :
      (ds : DirectoryService) (svc : Service)
      → Steady Open (get_admin_ldap_connection api dir dev_mode debug draw ds svc)
  unfolding get_admin_ldap_connection
  get_admin_ldap_connection-Steady ds svc =
      let account = account_of ds "uid=admin" in
      let reading : W → Result Secret × W = λ w. (
        api.get Kind.secret (record { namespace = ds.meta.namespace; name = account.secret_name })
            w,
        w,
      ) in
      Steady-try Open reading
        (λ secret.
          lift (read_key account.key (ok secret))
          >>= connect dir (ldap_url dev_mode svc) "uid=admin")
        (λ e. raise (message "Can't find the admin ldap secret")) (λ w o. o)
        (λ secret.
          Steady-bind Open (lift (read_key account.key (ok secret)))
            (connect dir (ldap_url dev_mode svc) "uid=admin") (λ w o. o)
            (λ pw. connect-Steady Open dir apart (ldap_url dev_mode svc) "uid=admin" pw))
        (λ e w o. o)

  -- Without a directory server there is no connection.
  pub get_admin_ldap_connection-Unreached :
      Unreached Open dir
      → (ds : DirectoryService) (svc : Service) (w : W) (c : DsConnection dir) → Open w
      → (get_admin_ldap_connection api dir dev_mode debug draw ds svc w).0 ≢ ok c
  unfolding get_admin_ldap_connection read_key
  get_admin_ldap_connection-Unreached unreached ds svc w c open' =
      by_secret
        (api.get Kind.secret
          (record { namespace = ds.meta.namespace; name = (account_of ds "uid=admin").secret_name })
          w)
        refl
    where
      by_secret :
          (r : Result Secret)
          → api.get Kind.secret
              (record {
                namespace = ds.meta.namespace;
                name = (account_of ds "uid=admin").secret_name;
              })
              w
            ≡ r
          → (get_admin_ldap_connection api dir dev_mode debug draw ds svc w).0 ≢ ok c
      by_secret (ok secret) h = rw h (
          connect-Unreached Open dir apart unreached (ldap_url dev_mode svc) "uid=admin"
            (or_empty (look_in secret.payload (account_of ds "uid=admin").key)) w c open')
      by_secret (err e) h = rw h (λ g. ok-ne-err g)
      by_secret panic h = rw h (λ g. ok-ne-panic (sym g))
