-- ===== src/Reconcile/Calm.antt =====
-- controllers/directoryservice_controller.go: the whole of Reconcile where the API server refuses
-- nothing without a reason.
use ds_operator.Reconcile.Admission.{Admitted}
use ds_operator.Prelude.{
  ℕ, ◌<◌, ℤ, pos, Bool, true, ◌⊎◌, ◌≡◌, ◌≢◌, none, NodupKeys, ok, Result, pure, ◌>>=◌, try_else,
}
use ds_operator.Kube.Meta.{key_of}
use ds_operator.Kube.Workloads.{Service}
use ds_operator.Kube.Objects.{Kind, Obj}
use ds_operator.Kube.Client.{Client}
use ds_operator.Kube.Client.Laws
use ds_operator.Kube.Client.Live.{Accepting}
use ds_operator.Api.Types.{DirectoryService}
use ds_operator.Snapshots.{reconcile_snapshots}
use ds_operator.Ldap.{Directory}
use ds_operator.Ldap.Laws.{View, IsLawful, IsAside}
use ds_operator.Ldap.Live.{IsApart, Reached, Unreached}
use ds_operator.Reconcile.{get_admin_ldap_connection, with_directory}

module _ {W : Type 0} (Open : W → Type 0) (Admits : (k : Kind) → W → Obj k → Type 0)
    (api : Client W) (dir : Directory W) (dev_mode debug : Bool) (draw : W → ℕ → ℕ → ℕ)
    (view : View W) (law : Laws.IsLawful api) (accepting : Accepting Open Admits api)
    (lawful : IsLawful api dir view) (aside : IsAside view api) (apart : IsApart Open dir)
    (below : (w : W) (m j : ℕ) → 0 < m → draw w m j < m) (ds : DirectoryService) (n r : ℕ)
    (now later : ℤ) (u : NodupKeys ds.spec.passwords)
    (retained : ds.spec.snapshots.snapshots_retained ≡ pos r) (w : W)
    (there : api.get Kind.directory_service (key_of ds.meta) w ≡ ok ds)
    (on : ds.spec.proxy.enabled ≡ true) (has : ds.meta.annotations ≢ none)
    (reach : Reached Open dir ⊎ Unreached Open dir)
    (admitted : Admitted Open Admits api debug draw now ds) where
  abbrev rest : DirectoryService → Service → W → Result ℕ × W
  rest ds2 svc = reconcile_snapshots api now ds2 >>= (λ ds3.
      try_else (get_admin_ldap_connection api dir dev_mode debug draw ds3 svc)
        (with_directory api dir dev_mode debug draw later ds3) (λ e. pure 90))
