-- ===== src/Reconcile/Frames.antt =====
-- controllers/directoryservice_controller.go: which objects the steps of Reconcile may touch.
use mathlib.Core.Path.{subst}
use ds_operator.Prelude.{
  ℕ, ℤ, pos, Bool, true, false, ◌≡◌, refl, sym, ap, ◌∙◌, inl, inr, Error, Result, ok, err, panic,
  Ends, Ends_mono, Finishes, Finishes_mono, pure, if◌then◌else◌, ltb_ℤ,
}
use ds_operator.Kube.Meta.{key_of}
use ds_operator.Kube.Workloads.{Deployment}
use ds_operator.Kube.Objects.{Kind}
use ds_operator.Kube.Client.{Client}
use ds_operator.Kube.Client.Laws.{IsLawful}
use ds_operator.Kube.Client.Frames.{Frame, Frame-same, Frame-trans, Frame-OnlyKind, Frame-OnlyAt}
use ds_operator.Api.Types.{DirectoryService, DirectoryServiceStatus}
use ds_operator.Reconcile.Reach.{ReachOf, IsDeployment, IsService, IsSnapshots, Like}
use ds_operator.Settings.Removal.{Removed}
use ds_operator.Services.{reconcile_service, proxy_key}
use ds_operator.Services.Creation.{reconcile_service-Ensured}
use ds_operator.Proxies.{reconcile_proxy, with_proxy_status, report_proxy}
use ds_operator.Proxies.Alignment.{HasProxyContainers}
use ds_operator.Proxies.Updates.{reconcile_proxy-Settled}
use ds_operator.Snapshots.{
  reconcile_snapshots, snapshot_and_prune, stamp, last_snapshot, is_zero, deadline,
}
use ds_operator.Snapshots.Taking.{Taken}
use ds_operator.Snapshots.Rotation.{Stamped, Rotated, Unrotated, snapshot_and_prune-Rotated}

module _ {W : Type 0} (api : Client W) (law : IsLawful api) (s ds : DirectoryService)
    (like : Like s ds) where
  at_reach :
      (K : Kind → Type 0) (w w' : W) → Frame api (ReachOf K ds) w w' → Frame api (ReachOf K s) w w'
  at_reach K w w' f = subst (λ d. Frame api (ReachOf K d) w w') like f

  same_key : key_of ds.meta ≡ key_of s.meta
  same_key = ap (λ d. key_of d.meta) like

  Removed-Frame :
      (r : Result (Unit {0})) (w w' : W)
      → Removed api ds Kind.deployment (proxy_key api ds) w r w'
      → Frame api (ReachOf IsDeployment ds) w w'
  Removed-Frame _ w w' (Removed.was_absent g) = Frame-same api w w refl
  Removed-Frame _ w w' (Removed.not_ours o owner g c b) = Frame-same api w w refl
  Removed-Frame _ w w' (Removed.deleted o owner v g c b gone elsewhere) =
      Frame-OnlyAt api Kind.deployment (proxy_key api ds) (refl, refl) elsewhere
  Removed-Frame _ w w' (Removed.failed e) = Frame-same api w w refl
  Removed-Frame _ w w' (Removed.no_controller o g c) = Frame-same api w w refl

  pub reconcile_proxy-Frame :
      (w : W)
      → ((d : Deployment)
          → api.get Kind.deployment (proxy_key api ds) w ≡ ok d
          → HasProxyContainers d)
      → Finishes
          (reconcile_proxy api ds)
          w
          (λ ds' w'. Frame api (ReachOf IsDeployment s) w w' × Like s ds')
          (λ e w'. Frame api (ReachOf IsDeployment s) w w')
          (λ w'. Frame api (ReachOf IsDeployment s) w w' × (ds.spec.proxy.enabled ≡ false))
  reconcile_proxy-Frame w has =
      Finishes_mono
        (λ ds' w' p. elim p [
          | inl (on, d) ↦ (
            at_reach IsDeployment w w'
                (Frame-OnlyAt api Kind.deployment (proxy_key api ds) (refl, refl) d.elsewhere),
            elim d.how [
              | inl (n, same) ↦ subst (Like s) (sym same) like
              | inr o ↦ subst (Like s) (sym o.reported) (
                  ap
                    (λ (d : DirectoryService). record d {
                      status =
                          (with_proxy_status ds (report_proxy o.old ds.status.proxy_status)).status;
                    })
                    like)
            ],
          )
          | inr (off, same, r) ↦ (
            at_reach IsDeployment w w' (Removed-Frame (ok tt) w w' r),
            subst (Like s) (sym same) like,
          )
        ])
        (λ e w' p. elim p [
          | inl (on, same) ↦ Frame-same api w w' same
          | inr (off, r) ↦ at_reach IsDeployment w w' (Removed-Frame (err e) w w' r)
        ])
        (λ w' (off, r). (at_reach IsDeployment w w' (Removed-Frame panic w w' r), off))
        (reconcile_proxy-Settled api ds law w has)

  service_key : record { namespace = ds.meta.namespace; name = s.meta.name } ≡ key_of s.meta
  service_key = ap (λ d. record { namespace = d.meta.namespace; name = s.meta.name }) like

  pub reconcile_service-Frame :
      (w : W)
      → Ends
          (reconcile_service api ds s.meta.name)
          w
          (λ svc w'.
            Frame api (ReachOf IsService s) w w'
            × (api.get Kind.service (key_of s.meta) w' ≡ ok svc))
          (λ e w'. Frame api (ReachOf IsService s) w w')
  reconcile_service-Frame w =
      Ends_mono
        (λ svc w' made. (
          Frame-OnlyAt api Kind.service _ (refl, sym service_key) made.elsewhere,
          ap (λ k. api.get Kind.service k w') (sym service_key) ∙ made.stored,
        ))
        (λ e w' same. Frame-same api w w' same) (reconcile_service-Ensured api ds law s.meta.name w)

  -- The stored directory service is `s`, but for its status.
  abbrev pub StoredLike : W → Type 0
  StoredLike w =
      (status : DirectoryServiceStatus) × (api.get Kind.directory_service (key_of s.meta) w
        ≡ ok (record s { status = status }))

  abbrev pub AfterSnapshots : W → DirectoryService → W → Type 0
  AfterSnapshots w ds' w' = Frame api (ReachOf IsSnapshots s) w w' × Like s ds' × StoredLike w'

  module _ (now : ℤ) (r : ℕ) (w : W)
      (there : api.get Kind.directory_service (key_of s.meta) w ≡ ok s)
      (retained : s.spec.snapshots.snapshots_retained ≡ pos r) where
    there' : api.get Kind.directory_service (key_of ds.meta) w ≡ ok s
    there' = ap (λ k. api.get Kind.directory_service k w) same_key ∙ there

    stamp_only :
        Ends
          (api.update_status Kind.directory_service (stamp now ds))
          w
          (AfterSnapshots w)
          (λ e w'. Frame api (ReachOf IsSnapshots s) w w')
    stamp_only = elim (law.update_status_outcome Kind.directory_service (stamp now ds) s w there') [
      | inl (e, refused) ↦ Ends.fails e w refused (Frame-same api w w refl)
      | inr u ↦ Ends.returns u.object u.after u.returns (
        at_reach IsSnapshots w u.after
            (Frame-OnlyAt api Kind.directory_service (key_of ds.meta) (inr refl, refl) u.elsewhere),
        subst (Like s) (sym u.content) refl,
        (
          (stamp now ds).status,
          ap (λ k. api.get Kind.directory_service k u.after) (sym same_key)
              ∙ u.stored
              ∙ ap (λ o. ok o) u.content,
        ),
      )
    ]

    Taken-Frame : (w1 : W) → Taken api now ds w w1 → Frame api (ReachOf IsSnapshots s) w w1
    Taken-Frame w1 t = Frame-OnlyAt api Kind.snapshot _ (inl refl, tt) t.elsewhere

    Stamped-Frame :
        (w1 w2 : W) → Stamped api now ds s w1 w2 → Frame api (ReachOf IsSnapshots s) w1 w2
    Stamped-Frame w1 w2 st =
        at_reach IsSnapshots w1 w2
          (Frame-OnlyAt api Kind.directory_service (key_of ds.meta) (inr refl, refl) st.elsewhere)

    after_rotation :
        (ds' : DirectoryService) (w' : W)
        → Rotated api now ds s r w ds' w'
        → AfterSnapshots w ds' w'
    after_rotation ds' w' o = (
      Frame-trans api (Taken-Frame o.taken_at o.taken) (
          Frame-trans api (Stamped-Frame o.taken_at o.noted_at o.stamped)
            (Frame-OnlyKind api Kind.snapshot (λ key. (inl refl, tt)) o.pruned.deleted.only)),
      subst (Like s) (sym o.result) refl,
      (
        _,
        o.pruned.deleted.only.at Kind.directory_service (key_of s.meta) (λ e. cc)
            ∙ ap (λ k. api.get Kind.directory_service k o.noted_at) (sym same_key)
            ∙ o.stamped.stored,
      ),
    )

    after_failure :
        (e : Error) (w' : W)
        → Unrotated api now ds s w e w'
        → Frame api (ReachOf IsSnapshots s) w w'
    after_failure e w' (Unrotated.unstamped t) = Taken-Frame w' t
    after_failure e w' (Unrotated.unlisted w1 t st l) =
        Frame-trans api (Taken-Frame w1 t) (Stamped-Frame w1 w' st)

    pub reconcile_snapshots-Frame :
        Ends
          (reconcile_snapshots api now ds)
          w
          (AfterSnapshots w)
          (λ e w'. Frame api (ReachOf IsSnapshots s) w w')
    unfolding reconcile_snapshots
    reconcile_snapshots-Frame =
        by_tests ds.spec.snapshots.enabled (is_zero (last_snapshot ds)) (ltb_ℤ now (deadline ds))
      where
        rotating :
            Ends
              (snapshot_and_prune api now ds)
              w
              (AfterSnapshots w)
              (λ e w'. Frame api (ReachOf IsSnapshots s) w w')
        rotating =
            Ends_mono after_rotation after_failure
              (snapshot_and_prune-Rotated api now ds law s r w there' retained)

        idle : Ends (pure ds) w (AfterSnapshots w) (λ e w'. Frame api (ReachOf IsSnapshots s) w w')
        idle = Ends.returns ds w refl (Frame-same api w w refl, like, (s.status, there))

        by_tests :
            (on first early : Bool)
            → Ends
                (if on
                  then if first
                    then api.update_status Kind.directory_service (stamp now ds)
                    else if early
                    then pure ds
                    else snapshot_and_prune api now ds
                  else pure ds)
                w
                (AfterSnapshots w)
                (λ e w'. Frame api (ReachOf IsSnapshots s) w w')
        by_tests false first early = idle
        by_tests true true early = stamp_only
        by_tests true false true = idle
        by_tests true false false = rotating
