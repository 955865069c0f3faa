-- ===== src/Snapshots/Rotation.antt =====
-- controllers/snapshots.go: a snapshot is taken, the time is noted, and old ones are deleted.
use ds_operator.Prelude.{
  ℕ, ℤ, pos, ◌≡◌, refl, ap, ◌∙◌, inl, inr, List, Error, ok, Ends, Ends-bind, Ends_mono, pure, ◌>>=◌,
}
use ds_operator.Kube.Meta.{key_of}
use ds_operator.Kube.Volumes.{VolumeSnapshot}
use ds_operator.Kube.Objects.{Kind}
use ds_operator.Kube.Client.{Client}
use ds_operator.Kube.Client.Laws.{IsLawful, OnlyAt}
use ds_operator.Api.Types.{DirectoryService}
use ds_operator.Snapshots.Taking.{Taken, take_snapshot-Taken}
use ds_operator.Snapshots.Retention.{Pruned, listing, prune_snapshots-Pruned}
use ds_operator.Snapshots.{take_snapshot, snapshot_and_prune, prune_snapshots, stamp}

module _ {W : Type 0} (api : Client W) (now : ℤ) (ds : DirectoryService) where
  module _ (s : DirectoryService) where
    -- What `ds` is afterwards: the server's object with the time noted in its status.
    abbrev pub noted_service : DirectoryService
    noted_service = record s { status = (stamp now ds).status }

    -- The time has been noted in the stored object, after the snapshot.
    pub record Stamped (w1 w2 : W) : Type 0 where
      pub stored : api.get Kind.directory_service (key_of ds.meta) w2 ≡ ok noted_service
      pub elsewhere : OnlyAt api Kind.directory_service (key_of ds.meta) w1 w2

    pub record Rotated (r : ℕ) (w : W) (ds' : DirectoryService) (w' : W) : Type 0 where
      pub taken_at : W
      pub noted_at : W
      pub taken : Taken api now ds w taken_at
      pub stamped : Stamped taken_at noted_at
      pub result : ds' ≡ noted_service
      pub list : List VolumeSnapshot
      pub listed : listing api ds' noted_at ≡ inr list
      pub pruned : Pruned api ds' r list noted_at w'

    -- The status update was refused after the snapshot, or the list could not be read after it.
    pub data Unrotated (w : W) (e : Error) (w' : W) : Type 0 where
      unstamped : Taken api now ds w w' → Unrotated w e w'
      unlisted :
          (w1 : W)
          → Taken api now ds w w1
          → Stamped w1 w'
          → listing api noted_service w' ≡ inl e
          → Unrotated w e w'

  module _ (law : IsLawful api) (s : DirectoryService) where
    stamp_ends :
        (w w1 : W)
        → api.get Kind.directory_service (key_of ds.meta) w ≡ ok s
        → Taken api now ds w w1
        → Ends
            (api.update_status Kind.directory_service (stamp now ds))
            w1
            (λ ds' w2. (ds' ≡ noted_service s) × Stamped s w1 w2)
            (λ e w2. Unrotated s w e w2)
    stamp_ends w w1 g t =
        elim (law.update_status_outcome Kind.directory_service (stamp now ds) s w1
          (t.elsewhere Kind.directory_service (key_of ds.meta) (λ p e. absurd cc) ∙ g)) [
            | inl (e, refused) ↦ Ends.fails e w1 refused (Unrotated.unstamped t)
            | inr u ↦ Ends.returns u.object u.after u.returns (
              u.content,
              record { stored = u.stored ∙ ap (λ o. ok o) u.content; elsewhere = u.elsewhere },
            )
          ]

    -- A snapshot that is due, where `r` is to be retained and the directory service is there as `s`,
    -- makes no panic. First the new snapshot with the operator's labels is stored, if none of its
    -- name is there and the server does not refuse it; one that is there, or that cannot be read,
    -- stays as it is, and an error is not passed on. If the call returns, the time was then noted in
    -- the stored status, and then the oldest snapshots were deleted so that at most `r` are kept. If
    -- it fails, the time was not noted, or the list of snapshots could not be read.
    pub snapshot_and_prune-Rotated :
        (r : ℕ) (w : W)
        → api.get Kind.directory_service (key_of ds.meta) w ≡ ok s
        → s.spec.snapshots.snapshots_retained ≡ pos r
        → Ends (snapshot_and_prune api now ds) w (Rotated s r w) (Unrotated s w)
    unfolding snapshot_and_prune
    snapshot_and_prune-Rotated r w g retained =
        Ends-bind (take_snapshot api now ds)
          (λ x.
            api.update_status Kind.directory_service (stamp now ds)
            >>= (λ ds'. prune_snapshots api ds' >>= (λ y. pure ds')))
          w (Ends_mono (λ x w1 t. t) (λ e w1 b. absurd b) (take_snapshot-Taken api now ds law w))
          (λ x w1 t.
            Ends-bind (api.update_status Kind.directory_service (stamp now ds))
              (λ ds'. prune_snapshots api ds' >>= (λ y. pure ds')) w1 (stamp_ends w w1 g t)
              (λ ds' w2 (same, st).
                Ends-bind (prune_snapshots api ds') (λ y. pure ds') w2
                  (Ends_mono (λ y w3 p. p)
                    (λ e w3 (l, still).
                      Unrotated.unlisted w1 t (rw still st) (rw (← same) (rw still l)))
                    (prune_snapshots-Pruned api ds' law r w2
                      (ap (λ d. d.spec.snapshots.snapshots_retained) same ∙ retained)))
                  (λ y w3 (l, h, p). Ends.returns ds' w3 refl (record {
                    taken_at = w1;
                    noted_at = w2;
                    taken = t;
                    stamped = st;
                    result = same;
                    list = l;
                    listed = h;
                    pruned = p;
                  }))))
