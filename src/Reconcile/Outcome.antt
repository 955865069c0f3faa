-- ===== src/Reconcile/Outcome.antt =====
-- controllers/directoryservice_controller.go: the whole of Reconcile.
use ds_operator.Prelude.{
  ℕ, ◌<◌, ℤ, pos, Bool, false, ◌≡◌, ◌⊎◌, none, NodupKeys, Result, ok, Finishes, pure, ◌>>=◌,
  try_else,
}
use ds_operator.Kube.Meta.{key_of}
use ds_operator.Kube.Workloads.{Service}
use ds_operator.Kube.Objects.{Kind}
use ds_operator.Kube.Client.{Client}
use ds_operator.Kube.Client.Laws
use ds_operator.Kube.Client.Frames.{Frame}
use ds_operator.Api.Types.{DirectoryService}
use ds_operator.Snapshots.{reconcile_snapshots}
use ds_operator.Ldap.{Directory}
use ds_operator.Ldap.Laws.{View, NilClose, IsLawful, IsAside}
use ds_operator.Reconcile.{get_admin_ldap_connection, with_directory}
use ds_operator.Reconcile.Preparing.{PodsReady}
use ds_operator.Reconcile.Reach.{Reach}

module _ {W : Type 0} (api : Client W) (dir : Directory W) (dev_mode debug : Bool)
    (draw : W → ℕ → ℕ → ℕ) (law : Laws.IsLawful api)
    (below : (w : W) (m j : ℕ) → 0 < m → draw w m j < m) (ds : DirectoryService) (n : ℕ) where
  abbrev pub Ready : W → Type 0
  Ready w = PodsReady api dir dev_mode debug draw law below ds n w

  -- The objects of the directory service are there, and no others have changed.
  pub record Settled (w : W) (t : ℕ) (w' : W) : Type 0 where
    pub back : (t ≡ 60) ⊎ (t ≡ 90)
    pub pods : Ready w'
    pub service : Service
    pub stored : api.get Kind.service (key_of ds.meta) w' ≡ ok service
    pub frame : Frame api (Reach ds) w w'

module _ {W : Type 0} (api : Client W) (dir : Directory W) (view : View W)
    (ds : DirectoryService) where
  -- Why a reconcile may panic.
  abbrev pub PanicCause : Type 0
  PanicCause =
      (ds.spec.proxy.enabled ≡ false) ⊎ (ds.meta.annotations ≡ none) ⊎ NilClose api dir view

module _ {W : Type 0} (api : Client W) (dir : Directory W) (dev_mode debug : Bool)
    (draw : W → ℕ → ℕ → ℕ) (law : Laws.IsLawful api)
    (below : (w : W) (m j : ℕ) → 0 < m → draw w m j < m) (view : View W)
    (lawful : IsLawful api dir view) (aside : IsAside view api) (ds : DirectoryService) (n r : ℕ)
    (now later : ℤ) where
  abbrev Fine : {A : Type 0} → (W → Result A × W) → W → (A → W → Type 0) → W → Type 0
  Fine m w P w0 =
      Finishes m w P (λ e w'. Frame api (Reach ds) w0 w')
        (λ w'. Frame api (Reach ds) w0 w' × PanicCause api dir view ds)

  module _ (u : NodupKeys ds.spec.passwords)
      (retained : ds.spec.snapshots.snapshots_retained ≡ pos r) (w : W)
      (there : api.get Kind.directory_service (key_of ds.meta) w ≡ ok ds) where
    abbrev rest : DirectoryService → Service → W → Result ℕ × W
    rest ds2 svc = reconcile_snapshots api now ds2 >>= (λ ds3.
        try_else (get_admin_ldap_connection api dir dev_mode debug draw ds3 svc)
          (with_directory api dir dev_mode debug draw later ds3) (λ e. pure 90))
