-- ===== src/Reconcile/Storing.antt =====
-- controllers/directoryservice_controller.go: the last updates of Reconcile, where the API server
-- refuses nothing without a reason.
use mathlib.Core.Path.{subst}
use ds_operator.Prelude.{
  ℕ, ◌<◌, Option, Dict, String, Bool, ◌≡◌, refl, sym, ap, ◌∙◌, inl, inr, ok, Finishes,
  Finishes-bind, Finishes-and, pure, ◌>>=◌,
}
use ds_operator.Kube.Meta.{key_of}
use ds_operator.Kube.Objects.{Kind, Obj}
use ds_operator.Kube.Client.{Client}
use ds_operator.Kube.Client.Laws
use ds_operator.Kube.Client.Live.{Brisk-Lively, Sure, Accepting}
use ds_operator.Api.Types.{DirectoryService, DirectoryServiceStatus}
use ds_operator.Ldap.{Directory}
use ds_operator.Reconcile.{store_service}

-- The directory service with another status and other annotations.
abbrev pub own : DirectoryService → DirectoryServiceStatus → Option (Dict String) → DirectoryService
own base st a = record base { status = st; meta = record base.meta { annotations = a } }

-- It is `base` but for the status and the annotations.
abbrev pub OwnForm : DirectoryService → DirectoryService → Type 0
OwnForm base ds = (st : DirectoryServiceStatus) × (a : Option (Dict String)) × (ds ≡ own base st a)

module _ {W : Type 0} (Open : W → Type 0) (Admits : (k : Kind) → W → Obj k → Type 0)
    (api : Client W) (dir : Directory W) (dev_mode debug : Bool) (draw : W → ℕ → ℕ → ℕ)
    (law : Laws.IsLawful api) (accepting : Accepting Open Admits api) where
  module _ (ds s : DirectoryService) (v : W) (open' : Open v)
      (there : api.get Kind.directory_service (key_of ds.meta) v ≡ ok s)
      (time : 0 < ds.meta.creation_timestamp) (base : DirectoryService) (form : OwnForm base ds)
      (writes : (st : DirectoryServiceStatus) (a : Option (Dict String)) (v : W)
        → Open v
        → Admits Kind.directory_service v (own base st a)) where
    own-Admits :
        (o : DirectoryService)
        → OwnForm base o
        → (u : W) → Open u
        → Admits Kind.directory_service u o
    own-Admits o (st, a, same) u p =
        subst (Admits Kind.directory_service u) (sym same) (writes st a u p)

    stored_form : (o : DirectoryService) → o ≡ record ds { status = s.status } → OwnForm base o
    stored_form o same =
        let (st, a, f) = form in
        (s.status, a, same ∙ ap (λ (d : DirectoryService). record d { status = s.status }) f)

    -- The update returns the object as it is stored then.
    updated :
        Finishes
          (api.update Kind.directory_service ds)
          v
          (λ o w1. (api.get Kind.directory_service (key_of o.meta) w1 ≡ ok o) × OwnForm base o)
          (λ e w1. Unit)
          (λ w1. ⊥)
    updated = elim (law.update_outcome Kind.directory_service ds s v there) [
      | inl (e, run) ↦ Finishes.fails e v run tt
      | inr u ↦ Finishes.returns u.object u.after u.returns (
        ap (λ key. api.get Kind.directory_service key u.after)
              (law.get_named Kind.directory_service _ _ _ u.stored)
            ∙ u.stored,
        stored_form u.object u.content,
      )
    ]

    status_written :
        (o : DirectoryService) (w1 : W)
        → api.get Kind.directory_service (key_of o.meta) w1 ≡ ok o
        → Finishes
            (api.update_status Kind.directory_service o)
            w1
            (λ o' w2. Unit)
            (λ e w2. Unit)
            (λ w2. ⊥)
    status_written o w1 g = elim (law.update_status_outcome Kind.directory_service o o w1 g) [
      | inl (e, run) ↦ Finishes.fails e w1 run tt
      | inr u ↦ Finishes.returns u.object u.after u.returns tt
    ]

    pub store_service-Sure : Sure Open (store_service api dir dev_mode debug draw ds) v
    unfolding store_service
    store_service-Sure =
        Finishes-bind (api.update Kind.directory_service ds) v
          (λ o. api.update_status Kind.directory_service o >>= (λ o'. pure 60))
          (Finishes-and updated (
            Brisk-Lively Open (api.update Kind.directory_service ds) v (
              accepting.updates Kind.directory_service ds s v open' there time
                (own-Admits ds form v open'))))
          (λ o w1 ((g, f), o1).
            Finishes-bind (api.update_status Kind.directory_service o) w1 (λ o'. pure 60)
              (Finishes-and (status_written o w1 g) (
                Brisk-Lively Open (api.update_status Kind.directory_service o) w1 (
                  accepting.updates_status Kind.directory_service o o w1 o1 g
                    (own-Admits o f w1 o1))))
              (λ o' w2 p. Finishes.returns 60 w2 refl p.1) (λ e w2 p. p.1) (λ w2 p. p.0))
          (λ e w1 p. p.1) (λ w1 p. p.0)
