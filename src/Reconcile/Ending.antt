-- ===== src/Reconcile/Ending.antt =====
-- controllers/directoryservice_controller.go: the connection to the directory server and what
-- follows, as far as it touches objects.
use mathlib.Core.Path.{subst}
use ds_operator.Prelude.{
  ℕ, suc, ℤ, Bool, ◌≡◌, refl, sym, ap, ◌∙◌, ◌⊎◌, inl, inr, none, NodupKeys, Result, ok, err, panic,
  Ends, Ends_at, Ends_mono, Finishes, Finishes-Ends, Finishes-try, Finishes_mono, pure, String,
  message, try_else,
}
use ds_operator.Kube.Meta.{key_of}
use ds_operator.Kube.Workloads.{Secret, Service}
use ds_operator.Kube.Objects.{Kind}
use ds_operator.Kube.Client.{Client}
use ds_operator.Kube.Client.Laws
use ds_operator.Kube.Client.Frames.{Frame, Frame-same, Frame-trans, Frame-OnlyAt}
use ds_operator.Api.Types.{DirectoryService, account_of}
use ds_operator.Ldap.{Directory, DsConnection}
use ds_operator.Ldap.Laws.{View, Moved, Nobody, Still, NilClose, IsLawful, IsAside, Moved-refl}
use ds_operator.Ldap.Closing.{connect-ends}
use ds_operator.Passwords.{read_key}
use ds_operator.Services.{or_empty}
use ds_operator.Secrets.{look_in}
use ds_operator.Passwords.Outcome.{Checked}
use ds_operator.Reconcile.{get_admin_ldap_connection, with_directory, ldap_url}
use ds_operator.Reconcile.Serving.{Served, Updated, with_directory-Served}
use ds_operator.Reconcile.Reach.{ReachOf, IsSnapshots, Like}
use ds_operator.Reconcile.Frames.{StoredLike}

module _ {W : Type 0} (api : Client W) (dir : Directory W) (dev_mode debug : Bool)
    (draw : W → ℕ → ℕ → ℕ) (view : View W) (law : Laws.IsLawful api)
    (lawful : IsLawful api dir view) where
  -- The administrator's connection is open, or nothing is.
  pub get_admin_ldap_connection-ends :
      (ds : DirectoryService) (svc : Service) (w : W)
      → Ends
          (get_admin_ldap_connection api dir dev_mode debug draw ds svc)
          w
          (λ c w'. Still api dir view w w' × (view.opened w' ≡ suc (view.opened w)))
          (λ e w'. Moved api dir view Nobody w w')
  unfolding get_admin_ldap_connection read_key
  get_admin_ldap_connection-ends ds svc w = by_secret _ refl
    where
      by_secret :
          (r : Result Secret)
          → api.get Kind.secret
              (record {
                namespace = ds.meta.namespace;
                name = (account_of ds "uid=admin").secret_name;
              })
              w
            ≡ r
          → Ends
              (get_admin_ldap_connection api dir dev_mode debug draw ds svc)
              w
              (λ c w'. Still api dir view w w' × (view.opened w' ≡ suc (view.opened w)))
              (λ e w'. Moved api dir view Nobody w w')
      by_secret (ok secret) h = Ends_at (rw h refl) (
          Ends_mono (λ c w' (still, opened, p). (still, opened)) (λ e w' m. m)
            (connect-ends api dir view lawful (ldap_url dev_mode svc) "uid=admin"
              (or_empty (look_in secret.payload (account_of ds "uid=admin").key)) w))
      by_secret (err e) h =
          Ends.fails (message "Can't find the admin ldap secret") w (rw h refl)
            (Moved-refl api dir view w)
      by_secret panic h = absurd (law.get_no_panic Kind.secret _ w h)

  module _ (aside : IsAside view api) (later : ℤ) (s ds : DirectoryService) (like : Like s ds)
      (u : NodupKeys s.spec.passwords) where
    abbrev MayPanic : Type 0
    MayPanic = (ds.meta.annotations ≡ none) ⊎ NilClose api dir view

    abbrev SnapshotFrame : W → W → Type 0
    SnapshotFrame w w' = Frame api (ReachOf IsSnapshots s) w w'

    Still-Frame : (w w' : W) → Still api dir view w w' → SnapshotFrame w w'
    Still-Frame w w' p = record { at = λ k key n. p.objects k key }

    Moved-Frame : {T : String → Type 0} (w w' : W) → Moved api dir view T w w' → SnapshotFrame w w'
    Moved-Frame w w' p = record { at = λ k key n. p.objects k key }

    module _ (st : DirectoryService) (conn : DsConnection dir) (w : W) where
      Checked-Frame :
          (ds' : DirectoryService) (v : W)
          → Checked api dir ds conn view later w ds' v
          → SnapshotFrame w v × (key_of ds'.meta ≡ key_of s.meta)
      Checked-Frame ds' v (inl (soon, same, still)) =
          (Frame-same api w v still, ap (λ d. key_of d.meta) (same ∙ like))
      Checked-Frame ds' v (inr (late, synced, noted)) = (
        Moved-Frame w v synced.moved,
        ap (λ d. key_of d.meta) noted.same ∙ ap (λ d. key_of d.meta) like,
      )

      Updated-Frame : (v : W) → Updated api dir view later ds st conn w v → SnapshotFrame w v
      Updated-Frame v y =
          let (f, key) = Checked-Frame y.checked y.at y.check in
          Frame-trans api f (
            Frame-OnlyAt api Kind.directory_service (key_of y.checked.meta) (inr refl, sym key)
              y.kept.0)

      Served-Frame :
          (t : ℕ) (v : W) → Served api dir view later ds st conn w t v → SnapshotFrame w v
      Served-Frame t v (t60, inl (e, p, b)) = Moved-Frame w v p
      Served-Frame t v (t60, inr y) = Updated-Frame v y

    pub ending-Frame :
        (svc : Service) (w : W)
        → StoredLike api law s ds like w
        → Finishes
            (try_else
              (get_admin_ldap_connection api dir dev_mode debug draw ds svc)
              (with_directory api dir dev_mode debug draw later ds)
              (λ e. pure 90))
            w
            (λ t w'. ((t ≡ 60) ⊎ (t ≡ 90)) × SnapshotFrame w w')
            (λ e w'. SnapshotFrame w w')
            (λ w'. SnapshotFrame w w' × MayPanic)
    ending-Frame svc w (status, there) =
        Finishes-try (get_admin_ldap_connection api dir dev_mode debug draw ds svc) w
          (with_directory api dir dev_mode debug draw later ds) (λ e. pure 90)
          (Finishes-Ends {R = λ w'. ⊥} (get_admin_ldap_connection-ends ds svc w))
          (λ conn w1 (still, opened).
            let st = record s { status = status } in
            let f1 = Still-Frame w w1 still in
            Finishes_mono
              (λ t w2 (v, y, c). (
                inl y.0,
                Frame-trans api f1
                    (Frame-trans api (Served-Frame st conn w1 t v y) (Still-Frame v w2 c.0)),
              ))
              (λ e w2 (v, y, c).
                Frame-trans api f1
                  (Frame-trans api (Updated-Frame st conn w1 v y) (Still-Frame v w2 c.0)))
              (λ w2 (v, b, c). (
                Frame-trans api f1 (Frame-trans api (Moved-Frame w1 v b.0) (Still-Frame v w2 c.0)),
                b.1,
              ))
              (with_directory-Served api dir dev_mode debug draw view law lawful aside later ds st
                conn w1 (subst (λ d. NodupKeys d.spec.passwords) (sym like) u)
                (still.objects Kind.directory_service (key_of ds.meta)
                  ∙ ap (λ d. api.get Kind.directory_service (key_of d.meta) w) like
                  ∙ there)
                (view.opened w) opened))
          (λ e w1 m. Finishes.returns 90 w1 refl (inr refl, Moved-Frame w w1 m)) (λ w1 b. absurd b)
