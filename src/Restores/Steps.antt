-- ===== src/Restores/Steps.antt =====
-- controllers/directoryrestore_controller.go: the claim, the snapshot and the job of a restore.
use ds_operator.Prelude.{
  ◌≡◌, ◌≢◌, refl, ap, ◌∙◌, Bool, Bool-cases, inl, inr, ltb, arith, ok, panic, Ends, Ends-try, pure,
}
use ds_operator.Kube.Meta.{Key, key_of}
use ds_operator.Kube.Volumes.{PersistentVolumeClaim, VolumeSnapshot}
use ds_operator.Kube.Objects.{Kind}
use ds_operator.Kube.Client.{Client}
use ds_operator.Kube.Client.Laws.{IsLawful}
use ds_operator.Kube.Client.Keep.{Idle, Preserves-refl, OnlyKind-refl}
use ds_operator.Kube.Client.Steps.{Adds, Ensures, create_or_update-Ensures}
use ds_operator.Api.Types.{DirectoryRestore}
use ds_operator.Claims.{empty_claim}
use ds_operator.Snapshots.{empty_snapshot}
use ds_operator.Runs.{claim_with}
use ds_operator.Runs.Owners.{
  claim_owned-keeps, claim_owned-no_panic, snapshot_owned-keeps, snapshot_owned-no_panic,
}
use ds_operator.Restores.{
  temp_name, snapshot_of, mutate_restore_claim, mutate_restore_snapshot, take_restored,
}

module _ {W : Type 0} (api : Client W) (debug : Bool) (dr : DirectoryRestore)
    (law : IsLawful api) where
  abbrev pub temp_key : Key
  temp_key = record { namespace = dr.meta.namespace; name = temp_name dr }

  abbrev pub blank_claim : PersistentVolumeClaim
  blank_claim = empty_claim (temp_name dr) dr.meta.namespace

  abbrev pub blank_snapshot : VolumeSnapshot
  blank_snapshot = empty_snapshot (temp_name dr) dr.meta.namespace

  claim-Idle :
      (w : W) → Idle api Kind.claim (Unit {0}) blank_claim (mutate_restore_claim api debug dr) w
  unfolding mutate_restore_claim
  claim-Idle w s h = (tt, ground arith)

  claim-no_panic :
      (w : W) (s : PersistentVolumeClaim) → mutate_restore_claim api debug dr w s ≢ panic
  unfolding mutate_restore_claim
  claim-no_panic w s h = elim (Bool-cases (ltb 0 s.meta.creation_timestamp)) [
    | inl e ↦ ground arith
    | inr e ↦
        let made = claim_with dr.kind dr.pod_template.volume_claim_spec s in
        claim_owned-no_panic made
          (api.set_controller_reference "DirectoryRestore" dr.meta made.meta)
          (law.reference_no_panic "DirectoryRestore" dr.meta made.meta).0 (rw e at h)
  ]

  claim-keeps :
      (w : W) (s n : PersistentVolumeClaim) (x : Unit {0})
      → mutate_restore_claim api debug dr w s ≡ ok (n, x)
      → key_of n.meta ≡ key_of s.meta
  unfolding mutate_restore_claim
  claim-keeps w s n x h = elim (Bool-cases (ltb 0 s.meta.creation_timestamp)) [
    | inl e ↦ ground arith
    | inr e ↦
        let made = claim_with dr.kind dr.pod_template.volume_claim_spec s in
        claim_owned-keeps made n x
          (api.set_controller_reference "DirectoryRestore" dr.meta made.meta)
          (λ m g. ap key_of (law.controller_reference "DirectoryRestore" dr.meta made.meta m g))
          (rw e at h)
  ]

  -- The claim that is filled: an existing one is left as it is.
  pub restore_claim-Ensures :
      (w : W)
      → Ends
          (api.create_or_update Kind.claim
            (Unit {0})
            blank_claim
            (mutate_restore_claim api debug dr))
          w
          (λ r w'. Ensures api Kind.claim temp_key w w' × (api.get Kind.claim temp_key w' ≡ ok r.0))
          (λ _ w'. w' ≡ w)
  restore_claim-Ensures w =
      create_or_update-Ensures api law Kind.claim (Unit {0}) blank_claim
        (mutate_restore_claim api debug dr) w (claim-Idle w)
        (record {
          no_panic = λ s which h. claim-no_panic w s h;
          keeps_key = λ s n x same h. claim-keeps w s n x h ∙ same;
        })

  snapshot-Idle :
      (w : W)
      → Idle api Kind.snapshot (Unit {0}) blank_snapshot (mutate_restore_snapshot api debug dr) w
  unfolding mutate_restore_snapshot
  snapshot-Idle w s h = (tt, ground arith)

  snapshot-no_panic :
      (w : W) (s : VolumeSnapshot) → mutate_restore_snapshot api debug dr w s ≢ panic
  unfolding mutate_restore_snapshot
  snapshot-no_panic w s h = elim (Bool-cases (ltb 0 s.meta.creation_timestamp)) [
    | inl e ↦ ground arith
    | inr e ↦
        let made = snapshot_of dr s in
        snapshot_owned-no_panic made (api.set_owner_reference "DirectoryRestore" dr.meta made.meta)
          (law.reference_no_panic "DirectoryRestore" dr.meta made.meta).1 (rw e at h)
  ]

  snapshot-keeps :
      (w : W) (s n : VolumeSnapshot) (x : Unit {0})
      → mutate_restore_snapshot api debug dr w s ≡ ok (n, x)
      → key_of n.meta ≡ key_of s.meta
  unfolding mutate_restore_snapshot
  snapshot-keeps w s n x h = elim (Bool-cases (ltb 0 s.meta.creation_timestamp)) [
    | inl e ↦ ground arith
    | inr e ↦
        let made = snapshot_of dr s in
        snapshot_owned-keeps made n x (api.set_owner_reference "DirectoryRestore" dr.meta made.meta)
          (λ m g. ap key_of (law.owner_reference "DirectoryRestore" dr.meta made.meta m g))
          (rw e at h)
  ]

  -- The snapshot of a restored volume: at most a snapshot is added, and no error comes back.
  pub take_restored-Adds :
      (w : W) → Ends (take_restored api debug dr) w (λ _ w'. Adds api Kind.snapshot w w') (λ _ _. ⊥)
  unfolding take_restored
  take_restored-Adds w =
      Ends-try
        (api.create_or_update Kind.snapshot (Unit {0}) blank_snapshot
          (mutate_restore_snapshot api debug dr))
        (λ r. pure tt) (λ e. pure tt) w
        (create_or_update-Ensures api law Kind.snapshot (Unit {0}) blank_snapshot
          (mutate_restore_snapshot api debug dr) w (snapshot-Idle w)
          (record {
            no_panic = λ s which h. snapshot-no_panic w s h;
            keeps_key = λ s n x same h. snapshot-keeps w s n x h ∙ same;
          }))
        (λ r w' (made, stored). Ends.returns tt w' refl made.adds)
        (λ e w' same. Ends.returns tt w' refl (
          rw same
            (record { kept = Preserves-refl api w; only = OnlyKind-refl api Kind.snapshot w })))
