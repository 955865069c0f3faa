-- ===== src/Settings/Removal.antt =====
-- controllers/proxy.go and proxy_service.go, the branch where the proxy is not enabled: an object
-- that is there is deleted, provided that the directory service controls it.
use mathlib.Core.Path.{subst}
use ds_operator.Prelude.{
  true, false, Bool-cases, inl, inr, Option, some, none, Error, Result, ok, err, panic, not_found,
  external, message, wrap, ◌≡◌, refl, if◌then◌else◌, Action, pure, raise, crash,
}
use ds_operator.Kube.Meta.{Key, OwnerReference}
use ds_operator.Kube.Objects.{Kind, Obj, meta_of}
use ds_operator.Kube.Client.{Client}
use ds_operator.Kube.Client.Laws.{IsLawful, OnlyAt}
use ds_operator.Api.Types.{DirectoryService}
use ds_operator.Settings.{controller_of, is_ours}

module _ {W : Type 0} (api : Client W) (ds : DirectoryService) (k : Kind) where
  -- An object without a controller has a nil owner, which is dereferenced.
  unfoldable pub remove_controlled : Obj k → Option OwnerReference → Action W (Unit {0})
  remove_controlled o none = crash
  remove_controlled o (some owner) = if is_ours ds owner then api.delete k o else pure tt

  unfoldable pub remove_found : Result (Obj k) → Action W (Unit {0})
  unfolding controller_of
  remove_found (ok o) = remove_controlled o (controller_of (meta_of k o).owner_references)
  remove_found (err not_found) = pure tt
  remove_found (err (external e)) = raise (external e)
  remove_found (err (message e)) = raise (message e)
  remove_found (err (wrap m e)) = raise (wrap m e)
  remove_found panic = crash

  unfoldable pub remove_owned : Key → Action W (Unit {0})
  remove_owned key w = remove_found (api.get k key w) w

  -- How the branch ends in a world `w`, for the object at `key`: the result and the world after it.
  pub data Removed (key : Key) (w : W) : Result (Unit {0}) → W → Type 0 where
    was_absent : api.get k key w ≡ err not_found → Removed key w (ok tt) w
    not_ours :
        (o : Obj k) (owner : OwnerReference)
        → api.get k key w ≡ ok o
        → controller_of (meta_of k o).owner_references ≡ some owner
        → is_ours ds owner ≡ false
        → Removed key w (ok tt) w
    deleted :
        (o : Obj k) (owner : OwnerReference) (w' : W)
        → api.get k key w ≡ ok o
        → controller_of (meta_of k o).owner_references ≡ some owner
        → is_ours ds owner ≡ true
        → api.get k key w' ≡ err not_found
        → OnlyAt api k key w w'
        → Removed key w (ok tt) w'
    failed : (e : Error) → Removed key w (err e) w
    no_controller :
        (o : Obj k)
        → api.get k key w ≡ ok o
        → controller_of (meta_of k o).owner_references ≡ none
        → Removed key w panic w

  module _ (law : IsLawful api) (key : Key) (w : W) where
    abbrev Outcome : Result (Unit {0}) × W → Type 0
    Outcome (r, w') = Removed key w r w'

    delete-Removed :
        (o : Obj k) (owner : OwnerReference)
        → api.get k key w ≡ ok o
        → controller_of (meta_of k o).owner_references ≡ some owner
        → is_ours ds owner ≡ true
        → Outcome (api.delete k o w)
    delete-Removed o owner g c mine =
        let same = law.get_named k key w o g in
        elim (law.delete_outcome k o w) [
          | inl (e, refused) ↦ rw refused (Removed.failed e)
          | inr (w', done, gone, elsewhere) ↦ rw done (
              Removed.deleted o owner w' g c mine (rw (← same) gone)
                (subst (λ x. OnlyAt api k x w w') same elsewhere))
        ]

    controlled-Removed :
        (o : Obj k) (c : Option OwnerReference)
        → api.get k key w ≡ ok o
        → controller_of (meta_of k o).owner_references ≡ c
        → Outcome (remove_controlled o c w)
    unfolding remove_controlled
    controlled-Removed o none g h = Removed.no_controller o g h
    controlled-Removed o (some owner) g h = elim (Bool-cases (is_ours ds owner)) [
      | inl mine ↦ rw mine (delete-Removed o owner g h mine)
      | inr other ↦ rw other (Removed.not_ours o owner g h other)
    ]

    found-Removed : (r : Result (Obj k)) → api.get k key w ≡ r → Outcome (remove_found r w)
    unfolding remove_found
    found-Removed (ok o) g =
        controlled-Removed o (controller_of (meta_of k o).owner_references) g refl
    found-Removed (err not_found) g = Removed.was_absent g
    found-Removed (err (external e)) g = Removed.failed (external e)
    found-Removed (err (message e)) g = Removed.failed (message e)
    found-Removed (err (wrap m e)) g = Removed.failed (wrap m e)
    found-Removed panic g = absurd (law.get_no_panic k key w g)

    -- Only an object that the directory service controls is deleted; one without a controller is a
    -- panic; and in no other case does anything change.
    pub remove_owned-Removed : Removed key w (remove_owned key w).0 (remove_owned key w).1
    unfolding remove_owned
    remove_owned-Removed = found-Removed (api.get k key w) refl
