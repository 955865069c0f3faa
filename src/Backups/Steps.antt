-- ===== src/Backups/Steps.antt =====
-- controllers/directorybackup_controller.go: the callbacks of the claims and of the snapshot.
use ds_operator.Prelude.{
  String, Bool, Bool-cases, inl, inr, ltb, arith, ◌≡◌, refl, sym, ap, ◌∙◌, ok-injective,
  if◌then◌else◌,
}
use ds_operator.Kube.Meta.{key_of}
use ds_operator.Kube.Volumes.{PersistentVolumeClaim, VolumeSnapshot}
use ds_operator.Kube.Objects.{Kind}
use ds_operator.Kube.Client.{Client}
use ds_operator.Kube.Client.Laws.{IsLawful}
use ds_operator.Kube.Client.Apply.{Sound}
use ds_operator.Kube.Client.Tend.{OwnersOnly, owned_as}
use ds_operator.Api.Types.{DirectoryBackup}
use ds_operator.Claims.{empty_claim}
use ds_operator.Snapshots.{empty_snapshot}
use ds_operator.Runs.{claim_with}
use ds_operator.Runs.Owners.{
  claim_owned-keeps, claim_owned-no_panic, claim_owned-ok, snapshot_owned-keeps,
  snapshot_owned-no_panic, snapshot_owned-ok,
}
use ds_operator.Backups.{
  temp_name, snapshot_of, clone_spec, mutate_backup_claim, mutate_backup_snapshot,
  mutate_data_claim,
}

module _ {W : Type 0} (api : Client W) (debug : Bool) (db : DirectoryBackup) where
  abbrev pub backup_blank : PersistentVolumeClaim
  backup_blank = empty_claim db.meta.name db.meta.namespace

  abbrev pub snapshot_blank : VolumeSnapshot
  snapshot_blank = empty_snapshot (temp_name db) db.meta.namespace

  pub backup_claim-Sound :
      (w : W) → Sound api Kind.claim (Unit {0}) backup_blank (mutate_backup_claim api debug db) w
  unfolding mutate_backup_claim
  backup_claim-Sound w = record {
    no_panic = λ s which h. ground arith;
    keeps_key = λ s n x same h. elim (Bool-cases (ltb 0 s.meta.creation_timestamp)) [
      | inl e ↦ ground arith
      | inr e ↦
          ap (λ (c, y). key_of c.meta)
            (ok-injective {A = PersistentVolumeClaim × Unit {0}} (sym (rw e at h)))
          ∙ same
    ];
  }

  pub backup_claim-OwnersOnly :
      (w : W)
      → OwnersOnly api Kind.claim (Unit {0}) backup_blank (mutate_backup_claim api debug db) w
  unfolding mutate_backup_claim
  backup_claim-OwnersOnly w s n x made h = (s.meta.owner_references, ground arith)

  abbrev snapshot_made : VolumeSnapshot → VolumeSnapshot
  snapshot_made s = if ltb 0 s.meta.creation_timestamp then s else snapshot_of db s

  abbrev data_made : String → PersistentVolumeClaim → PersistentVolumeClaim
  data_made name s =
      if ltb 0 s.meta.creation_timestamp then s else claim_with db.kind (clone_spec db name) s

  snapshot_made-key : (s : VolumeSnapshot) → key_of (snapshot_made s).meta ≡ key_of s.meta
  snapshot_made-key s = elim (Bool-cases (ltb 0 s.meta.creation_timestamp)) [
    | inl e ↦ rw e refl
    | inr e ↦ rw e refl
  ]

  data_made-key :
      (name : String) (s : PersistentVolumeClaim) → key_of (data_made name s).meta ≡ key_of s.meta
  data_made-key name s = elim (Bool-cases (ltb 0 s.meta.creation_timestamp)) [
    | inl e ↦ rw e refl
    | inr e ↦ rw e refl
  ]

  module _ (law : IsLawful api) where
    pub snapshot-Sound :
        (w : W)
        → Sound api Kind.snapshot (Unit {0}) snapshot_blank (mutate_backup_snapshot api debug db) w
    unfolding mutate_backup_snapshot
    snapshot-Sound w = record {
      no_panic = λ s which.
          snapshot_owned-no_panic (snapshot_made s)
            (api.set_owner_reference "DirectoryBackup" db.meta (snapshot_made s).meta)
            (law.reference_no_panic "DirectoryBackup" db.meta (snapshot_made s).meta).1;
      keeps_key = λ s n x same h.
          snapshot_owned-keeps (snapshot_made s) n x
            (api.set_owner_reference "DirectoryBackup" db.meta (snapshot_made s).meta)
            (λ m g.
              ap key_of (law.owner_reference "DirectoryBackup" db.meta (snapshot_made s).meta m g))
            h
          ∙ snapshot_made-key s
          ∙ same;
    }

    pub snapshot-OwnersOnly :
        (w : W)
        → OwnersOnly api Kind.snapshot
            (Unit {0})
            snapshot_blank
            (mutate_backup_snapshot api debug db)
            w
    unfolding mutate_backup_snapshot
    snapshot-OwnersOnly w s n x made h =
        let old : snapshot_made s ≡ s = ground arith in
        let (m, set, same) =
          snapshot_owned-ok (snapshot_made s) n x
            (api.set_owner_reference "DirectoryBackup" db.meta (snapshot_made s).meta) h in
        let owners = law.owner_reference "DirectoryBackup" db.meta (snapshot_made s).meta m set in
        (
          m.owner_references,
          same
              ∙ ap (λ y. record (snapshot_made s) { meta = y }) owners
              ∙ ap (owned_as Kind.snapshot m.owner_references) old,
        )

    pub data-Sound :
        (name : String) (w : W) (blank : PersistentVolumeClaim)
        → Sound api Kind.claim (Unit {0}) blank (mutate_data_claim api debug db name) w
    unfolding mutate_data_claim
    data-Sound name w blank = record {
      no_panic = λ s which.
          claim_owned-no_panic (data_made name s)
            (api.set_owner_reference "DirectoryBackup" db.meta (data_made name s).meta)
            (law.reference_no_panic "DirectoryBackup" db.meta (data_made name s).meta).1;
      keeps_key = λ s n x same h.
          claim_owned-keeps (data_made name s) n x
            (api.set_owner_reference "DirectoryBackup" db.meta (data_made name s).meta)
            (λ m g.
              ap key_of (law.owner_reference "DirectoryBackup" db.meta (data_made name s).meta m g))
            h
          ∙ data_made-key name s
          ∙ same;
    }

    pub data-OwnersOnly :
        (name : String) (w : W) (blank : PersistentVolumeClaim)
        → OwnersOnly api Kind.claim (Unit {0}) blank (mutate_data_claim api debug db name) w
    unfolding mutate_data_claim
    data-OwnersOnly name w blank s n x made h =
        let old : data_made name s ≡ s = ground arith in
        let (m, set, same) =
          claim_owned-ok (data_made name s) n x
            (api.set_owner_reference "DirectoryBackup" db.meta (data_made name s).meta) h in
        let owners = law.owner_reference "DirectoryBackup" db.meta (data_made name s).meta m set in
        (
          m.owner_references,
          same
              ∙ ap (λ y. record (data_made name s) { meta = y }) owners
              ∙ ap (owned_as Kind.claim m.owner_references) old,
        )
