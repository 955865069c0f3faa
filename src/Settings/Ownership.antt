-- ===== src/Settings/Ownership.antt =====
-- What an object's metadata is after its owner has been set.
use ds_operator.Prelude.{String, Result, ok, err, panic, ◌≡◌, refl, ap, List}
use ds_operator.Kube.Meta.{ObjectMeta, OwnerReference}
use ds_operator.Kube.Client.{Client}
use ds_operator.Kube.Client.Laws.{IsLawful}
use ds_operator.Settings.{owned}

module _ {W : Type 0} (api : Client W) (law : IsLawful api) where
  owned_by :
      (kind : String) (owner m : ObjectMeta) (r : Result ObjectMeta)
      → api.set_controller_reference kind owner m ≡ r
      → (os : List OwnerReference) × (owned r m ≡ ok (record m { owner_references = os }))
  unfolding owned
  owned_by kind owner m (ok m') h =
      (m'.owner_references, ap (λ x. ok x) (law.controller_reference kind owner m m' h))
  owned_by kind owner m (err e) h = (m.owner_references, refl)
  owned_by kind owner m panic h = absurd ((law.reference_no_panic kind owner m).0 h)

  -- Whether the reference was set or refused, only the owners may be others.
  pub owned-Owners :
      (kind : String) (owner m : ObjectMeta)
      → (os : List OwnerReference) × (owned (api.set_controller_reference kind owner m) m
          ≡ ok (record m { owner_references = os }))
  owned-Owners kind owner m = owned_by kind owner m (api.set_controller_reference kind owner m) refl
