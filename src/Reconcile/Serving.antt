-- ===== src/Reconcile/Serving.antt =====
-- controllers/directoryservice_controller.go: from the LDAP connection to the end of Reconcile.
use mathlib.Core.Path.{ap₂}
use ds_operator.Prelude.{
  ◌>>=◌, ℕ, ℤ, suc, Bool, ◌≡◌, refl, sym, ap, ◌∙◌, ◌⊎◌, inl, inr, NodupKeys, none, Error, ok, pure,
  try_else, Ends, Finishes, Finishes-try,
}
use ds_operator.Kube.Meta.{key_of}
use ds_operator.Kube.Objects.{Kind}
use ds_operator.Kube.Client.{Client}
use ds_operator.Kube.Client.Laws
use ds_operator.Kube.Client.Laws.{OnlyAt}
use ds_operator.Api.Types.{DirectoryService}
use ds_operator.Ldap.{Directory, DsConnection, close_connection}
use ds_operator.Ldap.Laws.{View, NilClose, IsLawful, SameView, IsAside, Aside-bind}
use ds_operator.Ldap.Closing.{Closed, closing-Finishes}
use ds_operator.Passwords.{update_passwords}
use ds_operator.Passwords.Accounts.{Partly, Blamed}
use ds_operator.Passwords.Outcome.{Checked, update_passwords-Checked}
use ds_operator.Reconcile.{store_service, with_directory}
use ds_operator.Reconcile.Stored.{StatusKept, store_service-old_status}

module _ {W : Type 0} (api : Client W) (dir : Directory W) (view : View W) (later : ℤ)
    (ds s : DirectoryService) (conn : DsConnection dir) (w : W) where
  -- The check of the passwords and what was stored afterwards, in a world where the connection is
  -- still open.
  pub record Updated (v : W) : Type 0 where
    pub checked : DirectoryService
    pub at : W
    pub check : Checked api dir ds conn view later w checked at
    pub kept : StatusKept api checked s at v
    pub opened : view.opened v ≡ view.opened w

  abbrev pub Served : ℕ → W → Type 0
  Served t v =
      (t ≡ 60)
      × (((e : Error) × Partly api dir ds conn view ds.spec.passwords w v
            × Blamed api dir ds conn view ds.spec.passwords w e)
          ⊎ Updated v)

  abbrev pub Broken : W → Type 0
  Broken v =
      Partly api dir ds conn view ds.spec.passwords w v
      × ((ds.meta.annotations ≡ none) ⊎ NilClose api dir view)

module _ {W : Type 0} (api : Client W) (dir : Directory W) (dev_mode debug : Bool)
    (draw : W → ℕ → ℕ → ℕ) (view : View W) (law : Laws.IsLawful api)
    (lawful : IsLawful api dir view) (aside : IsAside view api) where
  store_service-Aside :
      (ds : DirectoryService) (w : W)
      → SameView view w (store_service api dir dev_mode debug draw ds w).1
  unfolding store_service
  store_service-Aside ds =
      Aside-bind view (api.update Kind.directory_service ds)
        (λ o. api.update_status Kind.directory_service o >>= (λ o'. pure 60))
        (aside.update Kind.directory_service ds)
        (λ o.
          Aside-bind view (api.update_status Kind.directory_service o) (λ o'. pure 60)
            (aside.update_status Kind.directory_service o)
            (λ o' w. record { opened = refl; passwords = λ dn. refl }))

  module _ (later : ℤ) (ds s : DirectoryService) (conn : DsConnection dir) (w : W) where
    Checked-key :
        (ds' : DirectoryService) (v : W)
        → Checked api dir ds conn view later w ds' v
        → key_of ds'.meta ≡ key_of ds.meta
    Checked-key ds' v (inl (soon, same, still)) = ap (λ d. key_of d.meta) same
    Checked-key ds' v (inr (late, synced, noted)) = ap (λ d. key_of d.meta) noted.same

    pub Checked-get :
        (ds' : DirectoryService) (v : W)
        → Checked api dir ds conn view later w ds' v
        → api.get Kind.directory_service (key_of ds'.meta) v
          ≡ api.get Kind.directory_service (key_of ds.meta) w
    Checked-get ds' v (inl (soon, same, still)) =
        ap₂ (λ d u. api.get Kind.directory_service (key_of d.meta) u) same still
    Checked-get ds' v (inr (late, synced, noted)) =
        ap (λ d. api.get Kind.directory_service (key_of d.meta) v) noted.same
        ∙ synced.moved.objects Kind.directory_service (key_of ds.meta)

    Checked-opened :
        (ds' : DirectoryService) (v : W)
        → Checked api dir ds conn view later w ds' v
        → view.opened v ≡ view.opened w
    Checked-opened ds' v (inl (soon, same, still)) = ap view.opened still
    Checked-opened ds' v (inr (late, synced, noted)) = synced.moved.opened

    module _ (u : NodupKeys ds.spec.passwords)
        (there : api.get Kind.directory_service (key_of ds.meta) w ≡ ok s) where
      stores :
          (ds' : DirectoryService) (v : W)
          → Checked api dir ds conn view later w ds' v
          → Finishes
              (store_service api dir dev_mode debug draw ds')
              v
              (Served api dir view later ds s conn w)
              (λ e v'. Updated api dir view later ds s conn w v')
              (Broken api dir view later ds s conn w)
      stores ds' v c =
          elim (store_service-old_status api dir dev_mode debug draw law ds' s v
            (Checked-get ds' v c ∙ there)) [
              | Ends.returns t v' run (t60, only, g) ↦ Finishes.returns t v' run (
                t60,
                inr (record {
                  checked = ds';
                  at = v;
                  check = c;
                  kept = (only, inr g);
                  opened = opened_after v' (ap (λ (r, x). x) run);
                }),
              )
              | Ends.fails e v' run kept ↦ Finishes.fails e v' run (record {
                checked = ds';
                at = v;
                check = c;
                kept = kept;
                opened = opened_after v' (ap (λ (r, x). x) run);
              })
            ]
        where
          opened_after :
              (v' : W)
              → (store_service api dir dev_mode debug draw ds' v).1 ≡ v'
              → view.opened v' ≡ view.opened w
          opened_after v' same =
              ap view.opened (sym same)
              ∙ (store_service-Aside ds' v).opened
              ∙ Checked-opened ds' v c

      pub before_close :
          Finishes
            (try_else
              (update_passwords api dir ds conn later)
              (store_service api dir dev_mode debug draw)
              (λ e. pure 60))
            w
            (Served api dir view later ds s conn w)
            (λ e v. Updated api dir view later ds s conn w v)
            (Broken api dir view later ds s conn w)
      before_close =
          Finishes-try (update_passwords api dir ds conn later) w
            (store_service api dir dev_mode debug draw) (λ e. pure 60)
            (update_passwords-Checked api dir ds conn view law lawful later w u)
            (λ ds' v c. stores ds' v c)
            (λ e v b. Finishes.returns 60 v refl (refl, inl (e, b.0, b.1))) (λ v b. b)

      pub before-opened :
          (v : W)
          → (((e : Error) × Partly api dir ds conn view ds.spec.passwords w v
                × Blamed api dir ds conn view ds.spec.passwords w e)
              ⊎ Updated api dir view later ds s conn w v)
          → view.opened v ≡ view.opened w
      before-opened v (inl (e, p, b)) = p.opened
      before-opened v (inr y) = y.opened

      -- The end of Reconcile, with the connection open that it was given and `n` others, and with the
      -- directory service there as `s`. Where it does not panic it returns 60, even if the passwords
      -- could not be kept; or it fails, in one of the two updates. In every case the connection is
      -- closed, a panic included, which comes of missing annotations or a nil close only.
      pub with_directory-Served :
          (n : ℕ)
          → view.opened w ≡ suc n
          → Finishes
              (with_directory api dir dev_mode debug draw later ds conn)
              w
              (λ t w'.
                (v : W) × Served api dir view later ds s conn w t v × Closed api dir view n v w')
              (λ e w'.
                (v : W) × Updated api dir view later ds s conn w v × Closed api dir view n v w')
              (λ w'. (v : W) × Broken api dir view later ds s conn w v × Closed api dir view n v w')
      unfolding with_directory close_connection
      with_directory-Served n h =
          closing-Finishes api dir view conn.ldap
            (try_else (update_passwords api dir ds conn later)
              (store_service api dir dev_mode debug draw) (λ e. pure 60))
            w n lawful before_close (λ t v p. before-opened v p.1 ∙ h) (λ e v p. p.opened ∙ h)
            (λ v p. p.0.opened ∙ h)
