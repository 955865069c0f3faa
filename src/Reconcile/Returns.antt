-- ===== src/Reconcile/Returns.antt =====
-- controllers/directoryservice_controller.go: the end of Reconcile, where the API server refuses
-- nothing without a reason.
use mathlib.Core.Path.{subst}
use ds_operator.Prelude.{
  ℕ, suc, ◌<◌, ℤ, ◌≢◌, ◌⊎◌, none, some, Option, Dict, String, Error, Action, Finishes_mono, Bool,
  ◌≡◌, refl, sym, ap, ◌∙◌, inl, inr, NodupKeys, Result, ok, Finishes, Finishes-Ends, Finishes-try,
  Finishes-and, pure, try_else,
}
use ds_operator.Kube.Meta.{key_of}
use ds_operator.Kube.Workloads.{Service}
use ds_operator.Kube.Objects.{Kind, Obj}
use ds_operator.Kube.Client.{Client}
use ds_operator.Kube.Client.Laws
use ds_operator.Kube.Client.Live.{Brisk, Brisk-Lively, Lively-Brisk, Sure, Sure-Brisk, Accepting}
use ds_operator.Api.Types.{DirectoryService, DirectoryServiceStatus}
use ds_operator.Ldap.{Directory, DsConnection, close_connection}
use ds_operator.Ldap.Laws.{View, IsLawful, IsAside}
use ds_operator.Ldap.Calm.{Finishes-Calm}
use ds_operator.Ldap.Live.{Finishes-Steady, IsApart, Reached, Unreached, closing-LivelyAt}
use ds_operator.Passwords.{update_passwords}
use ds_operator.Passwords.Outcome.{Checked, update_passwords-Checked}
use ds_operator.Passwords.Live.{update_passwords-Calm}
use ds_operator.Ldap.Closing.{closing-Finishes}
use ds_operator.Reconcile.{store_service, with_directory, get_admin_ldap_connection}
use ds_operator.Reconcile.Storing.{own, OwnForm, store_service-Sure}
use ds_operator.Reconcile.Dialling.{
  get_admin_ldap_connection-Steady, get_admin_ldap_connection-Unreached,
}
use ds_operator.Reconcile.Serving.{Checked-get, before_close, before-opened}
use ds_operator.Reconcile.Ending.{get_admin_ldap_connection-ends}
use ds_operator.Reconcile.Reach.{Like}
use ds_operator.Reconcile.Frames.{StoredLike}

module _ {W : Type 0} (Open : W → Type 0) (Admits : (k : Kind) → W → Obj k → Type 0)
    (api : Client W) (dir : Directory W) (dev_mode debug : Bool) (draw : W → ℕ → ℕ → ℕ)
    (view : View W) (law : Laws.IsLawful api) (accepting : Accepting Open Admits api)
    (lawful : IsLawful api dir view) (aside : IsAside view api) (apart : IsApart Open dir) where
  module _ (later : ℤ) (ds s : DirectoryService) (conn : DsConnection dir) (w : W) (open' : Open w)
      (u : NodupKeys ds.spec.passwords)
      (there : api.get Kind.directory_service (key_of ds.meta) w ≡ ok s)
      (time : 0 < ds.meta.creation_timestamp) (has : ds.meta.annotations ≢ none)
      (reached : Reached Open dir) (base : DirectoryService) (form : OwnForm base ds)
      (writes : (st : DirectoryServiceStatus) (a : Option (Dict String)) (v : W)
        → Open v
        → Admits Kind.directory_service v (own base st a)) where
    Checked-form :
        (ds' : DirectoryService) (v : W)
        → Checked api dir ds conn view later w ds' v
        → OwnForm base ds'
    Checked-form ds' v (inl (soon, same, still)) = let (st, a, f) = form in (st, a, same ∙ f)
    Checked-form ds' v (inr (late, synced, noted)) =
        let (st, a, f) = form in
        (
          st,
          some noted.new,
          noted.same ∙ ap (λ (d : DirectoryService). own d d.status (some noted.new)) f,
        )

    Checked-time :
        (ds' : DirectoryService) (v : W)
        → Checked api dir ds conn view later w ds' v
        → 0 < ds'.meta.creation_timestamp
    Checked-time ds' v (inl (soon, same, still)) = rw same time
    Checked-time ds' v (inr (late, synced, noted)) =
        rw (ap (λ d. d.meta.creation_timestamp) noted.same) time

    before-Sure :
        Sure Open
          (try_else
            (update_passwords api dir ds conn later)
            (store_service api dir dev_mode debug draw)
            (λ e. pure 60))
          w
    before-Sure =
        Finishes-try (update_passwords api dir ds conn later) w
          (store_service api dir dev_mode debug draw) (λ e. pure 60)
          (Finishes-and (update_passwords-Checked api dir ds conn view law lawful later w u) (
            Finishes-Calm Open (update_passwords api dir ds conn later) w (
              update_passwords-Calm Open api dir view law lawful apart reached ds conn has later w
                open')))
          (λ ds' v (c, o).
            store_service-Sure Open Admits api dir dev_mode debug draw law accepting ds' s v o
              (Checked-get api dir dev_mode debug draw view law lawful aside later ds s conn w ds' v
                  c
                ∙ there)
              (Checked-time ds' v c) base (Checked-form ds' v c) writes)
          (λ e v (b, o). Finishes.returns 60 v refl o) (λ v (b, r). r)

    with_directory-Brisk : Brisk Open (with_directory api dir dev_mode debug draw later ds conn) w
    unfolding with_directory close_connection
    with_directory-Brisk =
        let before =
          try_else (update_passwords api dir ds conn later)
            (store_service api dir dev_mode debug draw) (λ e. pure 60) in
        Brisk-Lively Open (with_directory api dir dev_mode debug draw later ds conn) w (
          closing-LivelyAt Open dir apart (dir.close conn.ldap) (before w) (apart.close conn.ldap)
            (Lively-Brisk Open before w (Sure-Brisk Open before-Sure)))

    -- The deferred close is of a connection that is open, so it does not panic either.
    closed :
        (n : ℕ)
        → view.opened w ≡ suc n
        → Finishes
            (with_directory api dir dev_mode debug draw later ds conn)
            w
            (λ t w'. Unit)
            (λ e w'. ⊥)
            (λ w'. ⊥)
    unfolding with_directory close_connection
    closed n h =
        Finishes_mono (λ t w' p. tt) (λ e w' p. p.1.1) (λ w' p. p.1.1)
          (closing-Finishes api dir view conn.ldap
            (try_else (update_passwords api dir ds conn later)
              (store_service api dir dev_mode debug draw) (λ e. pure 60))
            w n lawful
            (Finishes-and
              (before_close api dir dev_mode debug draw view law lawful aside later ds s conn w u
                there)
              before-Sure)
            (λ t v p.
              before-opened api dir dev_mode debug draw view law lawful aside later ds s conn w u
                there v p.0.1
              ∙ h)
            (λ e v p. absurd p.1) (λ v p. absurd p.1))

    with_directory-Sure :
        (n : ℕ)
        → view.opened w ≡ suc n
        → Sure Open (with_directory api dir dev_mode debug draw later ds conn) w
    with_directory-Sure n h =
        Finishes_mono (λ t w' p. p.1) (λ e w' p. p.1) (λ w' p. p.0)
          (Finishes-and (closed n h) with_directory-Brisk)

  -- A connection that was returned has been dialled.
  Reached-by :
      (ds : DirectoryService) (svc : Service) (w w1 : W) (conn : DsConnection dir)
      → Open w
      → get_admin_ldap_connection api dir dev_mode debug draw ds svc w ≡ (ok conn, w1)
      → (Reached Open dir ⊎ Unreached Open dir)
      → Reached Open dir
  Reached-by ds svc w w1 conn open' run (inl reached) = reached
  Reached-by ds svc w w1 conn open' run (inr unreached) = absurd (
      get_admin_ldap_connection-Unreached Open api dir dev_mode debug draw apart unreached ds svc w
        conn open' (ap (λ ((r, v) : Result (DsConnection dir) × W). r) run))

  with_run :
      {A : Type 0} {m : Action W A} {w : W} {P : A → W → Type 0} {Q : Error → W → Type 0}
      {R : W → Type 0}
      → Finishes m w P Q R
      → Finishes m w (λ a w'. (m w ≡ (ok a, w')) × P a w') Q R
  with_run (Finishes.returns a w' e p) = Finishes.returns a w' e (e, p)
  with_run (Finishes.fails x w' e q) = Finishes.fails x w' e q
  with_run (Finishes.panics w' e r) = Finishes.panics w' e r

  pub ending-Sure :
      (later : ℤ) (s ds : DirectoryService) (like : Like s ds) (svc : Service) (w : W)
      → Open w
      → NodupKeys s.spec.passwords
      → 0 < s.meta.creation_timestamp
      → s.meta.annotations ≢ none
      → (Reached Open dir ⊎ Unreached Open dir)
      → ((st : DirectoryServiceStatus) (a : Option (Dict String)) (v : W)
          → Open v
          → Admits Kind.directory_service v (own s st a))
      → StoredLike api law s ds like w
      → Sure Open
          (try_else
            (get_admin_ldap_connection api dir dev_mode debug draw ds svc)
            (with_directory api dir dev_mode debug draw later ds)
            (λ e. pure 90))
          w
  ending-Sure later s ds like svc w open' u time has reach writes (status, there) =
      Finishes-try (get_admin_ldap_connection api dir dev_mode debug draw ds svc) w
        (with_directory api dir dev_mode debug draw later ds) (λ e. pure 90)
        (with_run (
          Finishes-and
            (Finishes-Ends {R = λ w'. ⊥}
              (get_admin_ldap_connection-ends api dir dev_mode debug draw view law lawful ds svc w))
            (Finishes-Steady Open (get_admin_ldap_connection api dir dev_mode debug draw ds svc) w (
              get_admin_ldap_connection-Steady Open api dir dev_mode debug draw apart ds svc w
                open'))))
        (λ conn w1 (run, ((still, opened), o1)).
          with_directory-Sure later ds (record s { status = status }) conn w1 o1
            (subst (λ d. NodupKeys d.spec.passwords) (sym like) u)
            (still.objects Kind.directory_service (key_of ds.meta)
              ∙ ap (λ d. api.get Kind.directory_service (key_of d.meta) w) like
              ∙ there)
            (subst (λ d. 0 < d.meta.creation_timestamp) (sym like) time)
            (subst (λ d. d.meta.annotations ≢ none) (sym like) has)
            (Reached-by ds svc w w1 conn open' run reach) s (ds.status, s.meta.annotations, like)
            writes (view.opened w) opened)
        (λ e w1 (m, o1). Finishes.returns 90 w1 refl o1) (λ w1 (b, o1). b)
