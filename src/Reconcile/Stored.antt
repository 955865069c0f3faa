-- ===== src/Reconcile/Stored.antt =====
-- controllers/directoryservice_controller.go: what the two updates at the end of Reconcile store.
use ds_operator.Prelude.{ℕ, ◌≡◌, refl, ap, ◌∙◌, ◌⊎◌, inl, inr, Bool, Result, ok, Ends}
use ds_operator.Kube.Meta.{key_of}
use ds_operator.Kube.Objects.{Kind}
use ds_operator.Kube.Client.{Client}
use ds_operator.Kube.Client.Laws.{IsLawful, OnlyAt}
use ds_operator.Api.Types.{DirectoryService}
use ds_operator.Ldap.{Directory}
use ds_operator.Reconcile.{store_service}

module _ {W : Type 0} (api : Client W) (ds s : DirectoryService) where
  abbrev pub service_at : W → Result DirectoryService
  service_at w = api.get Kind.directory_service (key_of ds.meta) w

  -- `ds` with the status of `s`.
  abbrev pub old_status : DirectoryService
  old_status = record ds { status = s.status }

  -- The object is as it was, or it is `ds` with the status it had; nothing else has changed.
  abbrev pub StatusKept : W → W → Type 0
  StatusKept w w' =
      OnlyAt api Kind.directory_service (key_of ds.meta) w w'
      × ((service_at w' ≡ service_at w) ⊎ (service_at w' ≡ ok old_status))

module _ {W : Type 0} (api : Client W) (dir : Directory W) (dev_mode debug : Bool)
    (draw : W → ℕ → ℕ → ℕ) (law : IsLawful api) (ds s : DirectoryService) where
  status_ends :
      (w w1 : W)
      → OnlyAt api Kind.directory_service (key_of ds.meta) w w1
      → service_at api ds s w1 ≡ ok (old_status api ds s)
      → Ends
          (api.update_status Kind.directory_service (old_status api ds s))
          w1
          (λ o w'.
            OnlyAt api Kind.directory_service (key_of ds.meta) w w'
            × (service_at api ds s w' ≡ ok (old_status api ds s)))
          (λ e w'. StatusKept api ds s w w')
  status_ends w w1 only g =
      elim (law.update_status_outcome Kind.directory_service (old_status api ds s)
        (old_status api ds s) w1 g) [
          | inl (e, refused) ↦ Ends.fails e w1 refused (only, inr g)
          | inr u ↦
              Ends.returns u.object u.after u.returns
                (λ k key d. u.elsewhere k key d ∙ only k key d, u.stored ∙ ap (λ o. ok o) u.content)
        ]

  -- The update and the status update at the end of Reconcile, of a directory service that is there
  -- with the status of `s`: they fail, or they return 60 and the object is stored. But whatever
  -- status the reconciler has worked out, the stored one stays that of `s`, since the first update
  -- puts the server's status into the object that the second one sends. Nothing else changes.
  pub store_service-old_status :
      (w : W)
      → service_at api ds s w ≡ ok s
      → Ends
          (store_service api dir dev_mode debug draw ds)
          w
          (λ t w'.
            (t ≡ 60)
            × OnlyAt api Kind.directory_service (key_of ds.meta) w w'
            × (service_at api ds s w' ≡ ok (old_status api ds s)))
          (λ e w'. StatusKept api ds s w w')
  unfolding store_service
  store_service-old_status w g = elim (law.update_outcome Kind.directory_service ds s w g) [
    | inl (e, refused) ↦ Ends.fails e w (rw refused refl) ((λ k key d. refl), inl refl)
    | inr u ↦ stored u.after u.object u.content u.returns u.elsewhere u.stored
  ]
    where
      stored :
          (w1 : W) (o : DirectoryService)
          → o ≡ old_status api ds s
          → api.update Kind.directory_service ds w ≡ (ok o, w1)
          → OnlyAt api Kind.directory_service (key_of ds.meta) w w1
          → service_at api ds s w1 ≡ ok o
          → Ends
              (store_service api dir dev_mode debug draw ds)
              w
              (λ t w'.
                (t ≡ 60)
                × OnlyAt api Kind.directory_service (key_of ds.meta) w w'
                × (service_at api ds s w' ≡ ok (old_status api ds s)))
              (λ e w'. StatusKept api ds s w w')
      stored w1 o same run only g1 = elim (status_ends w w1 only (g1 ∙ ap (λ x. ok x) same)) [
        | Ends.returns o' w2 run' (only', g') ↦
            Ends.returns 60 w2 (rw (run, same, run') refl) (refl, only', g')
        | Ends.fails e w2 run' kept ↦ Ends.fails e w2 (rw (run, same, run') refl) kept
      ]
