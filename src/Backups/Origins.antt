-- ===== src/Backups/Origins.antt =====
-- controllers/directorybackup_controller.go: where the claims and the snapshot of a backup come from.
use mathlib.Core.Path.{subst}
use ds_operator.Passwords.Numbers.{codes}
use ds_operator.Passwords.Numbers.RoundTrip.{codes-append}
use ds_operator.Prelude.{
  ℕ, String, ◌<>◌, Bool, some, none, ◌≡◌, ◌≢◌, sym, ap, ◌∙◌, ◌⊎◌, inl, inr, List, length,
  length-append, ok, err, not_found, ok-injective, arith,
}
use ds_operator.Kube.Meta.{Key, OwnerReference}
use ds_operator.Kube.Volumes.{ClaimSpec, PersistentVolumeClaim, VolumeSnapshot}
use ds_operator.Kube.Objects.{Kind, Obj, meta_of, with_meta, with_status, object_key}
use ds_operator.Kube.Client.{Client, Mutate}
use ds_operator.Kube.Client.Laws.{IsLawful}
use ds_operator.Kube.Client.Apply.{Applied}
use ds_operator.Kube.Client.Tend.{OwnersOnly, owned_as, with_status-owned_as}
use ds_operator.Api.Types.{DirectoryBackup}
use ds_operator.Labels.{create_labels}
use ds_operator.Claims.{empty_claim}
use ds_operator.Runs.{claim_with}
use ds_operator.Runs.Owners.{claim_owned-ok, snapshot_owned-ok}
use ds_operator.Backups.{
  temp_name, snapshot_of, clone_spec, mutate_backup_claim, mutate_backup_snapshot,
  mutate_data_claim,
}
use ds_operator.Backups.Steps.{backup_blank, snapshot_blank}

-- "temp-" in front makes another name.
pub temp-ne : (name : String) → ("temp-" <> name) ≢ name
temp-ne name same = omega (
  arith,
  sym (length-append (codes "temp-") (codes name))
      ∙ ap length (sym (codes-append "temp-" name))
      ∙ ap (λ s. length (codes s)) same,
)

-- A new claim of the backup controller: its spec, and the labels for its name.
pub record NewClaim (name kind : String) (spec : ClaimSpec) (c : PersistentVolumeClaim)
    : Type 0 where
  pub as_given : c.spec ≡ spec
  pub labelled : c.meta.labels ≡ some (create_labels name kind none)

-- A new snapshot of the backup controller: its class, the claim that it is taken of, its labels.
pub record NewSnapshot (name kind class_name claim_name : String) (s : VolumeSnapshot)
    : Type 0 where
  pub class_given : s.spec.class_name ≡ some class_name
  pub claim_given : s.spec.claim_name ≡ some claim_name
  pub labelled : s.meta.labels ≡ some (create_labels name kind none)

module _ {W : Type 0} (api : Client W) where
  -- `r` is what was there in `w` but for the owners, or nothing was there and `r` is new.
  abbrev pub Origin : (k : Kind) → Key → W → (Obj k → Type 0) → Obj k → Type 0
  Origin k key w New r =
      ((old : Obj k) × (os : List OwnerReference) × (api.get k key w ≡ ok old)
        × (r ≡ owned_as k os old))
      ⊎ ((api.get k key w ≡ err not_found) × New r)

  pub Origin-earlier :
      (k : Kind) (key : Key) (w w' : W) (New : Obj k → Type 0) (r : Obj k)
      → api.get k key w' ≡ api.get k key w
      → Origin k key w' New r
      → Origin k key w New r
  Origin-earlier k key w w' New r same (inl (old, os, g, n)) = inl (old, os, sym same ∙ g, n)
  Origin-earlier k key w w' New r same (inr (g, n)) = inr (sym same ∙ g, n)

  -- What a callback makes of the given object, with the server's time and uid.
  abbrev pub Makes :
      (k : Kind) (X : Type 0) (o : Obj k) → Mutate W X k → W → (Obj k → Type 0) → Type 0
  Makes k X o f w New =
      (n : Obj k) (x : X) (time : ℕ) (uid : String)
      → f w o ≡ ok (n, x)
      → New (with_meta k (record (meta_of k n) { creation_timestamp = time; uid = uid }) n)

  pub Applied-Origin :
      (law : IsLawful api) (k : Kind) (X : Type 0) (o : Obj k) (f : Mutate W X k) (w w' : W)
      (New : Obj k → Type 0) (r : Obj k × X)
      → OwnersOnly api k X o f w
      → Makes k X o f w New
      → Applied api k X o f w r w'
      → Origin k (object_key k o) w New r.0
  Applied-Origin law k X o f w w' New r tend makes a = elim a.how [
    | inl c ↦ inr (
      c.was_absent,
      subst New (sym c.fresh.content) (makes c.made r.1 c.fresh.time c.fresh.uid c.mutated),
    )
    | inr u ↦
        let (os, n) =
          tend u.old u.made r.1 (law.get_created k (object_key k o) w u.old u.was_present)
            u.mutated in
        inl (
          u.old,
          os,
          u.was_present,
          u.content ∙ ap (with_status k u.old) n ∙ with_status-owned_as k os u.old,
        )
  ]

  module _ (debug : Bool) (db : DirectoryBackup) (w : W) where
    pub backup_claim-Makes :
        Makes Kind.claim
          (Unit {0})
          (backup_blank api debug db)
          (mutate_backup_claim api debug db)
          w
          (NewClaim db.meta.name db.kind db.pod_template.volume_claim_spec)
    unfolding mutate_backup_claim
    backup_claim-Makes n x time uid h =
        let same = ok-injective {A = PersistentVolumeClaim × Unit {0}} (sym h) in
        record {
          as_given = ap (λ ((c, y) : PersistentVolumeClaim × Unit {0}). c.spec) same;
          labelled = ap (λ ((c, y) : PersistentVolumeClaim × Unit {0}). c.meta.labels) same;
        }

    module _ (law : IsLawful api) where
      pub snapshot-Makes :
          Makes Kind.snapshot
            (Unit {0})
            (snapshot_blank api debug db)
            (mutate_backup_snapshot api debug db)
            w
            (NewSnapshot
              (temp_name db)
              db.kind
              db.pod_template.volume_snapshot_class_name
              db.claim_to_backup)
      unfolding mutate_backup_snapshot
      snapshot-Makes n x time uid h =
          let made = snapshot_of db (snapshot_blank api debug db) in
          let (m, set, same) =
            snapshot_owned-ok made n x (api.set_owner_reference "DirectoryBackup" db.meta made.meta)
              h in
          let owners = law.owner_reference "DirectoryBackup" db.meta made.meta m set in
          record {
            class_given = ap (λ s. s.spec.class_name) same;
            claim_given = ap (λ s. s.spec.claim_name) same;
            labelled = ap (λ s. s.meta.labels) same ∙ ap (λ y. y.labels) owners;
          }

      pub data-Makes :
          (name namespace : String)
          → Makes Kind.claim
              (Unit {0})
              (empty_claim name namespace)
              (mutate_data_claim api debug db name)
              w
              (NewClaim name db.kind (clone_spec db name))
      unfolding mutate_data_claim
      data-Makes name namespace n x time uid h =
          let made = claim_with db.kind (clone_spec db name) (empty_claim name namespace) in
          let (m, set, same) =
            claim_owned-ok made n x (api.set_owner_reference "DirectoryBackup" db.meta made.meta)
              h in
          let owners = law.owner_reference "DirectoryBackup" db.meta made.meta m set in
          record {
            as_given = ap (λ c. c.spec) same;
            labelled = ap (λ c. c.meta.labels) same ∙ ap (λ y. y.labels) owners;
          }

      -- The clone's origin under the name that the snapshot turns out to have.
      pub clone-Origin :
          (name namespace : String) (key : Key) (w' : W) (r : PersistentVolumeClaim × Unit {0})
          → record { namespace = namespace; name = name } ≡ key
          → OwnersOnly api Kind.claim
              (Unit {0})
              (empty_claim name namespace)
              (mutate_data_claim api debug db name)
              w
          → Applied api Kind.claim
              (Unit {0})
              (empty_claim name namespace)
              (mutate_data_claim api debug db name)
              w
              r
              w'
          → Origin Kind.claim key w (NewClaim key.name db.kind (clone_spec db key.name)) r.0
      clone-Origin name namespace key w' r named tend a =
          subst (λ k. Origin Kind.claim k w (NewClaim k.name db.kind (clone_spec db k.name)) r.0)
            named
            (Applied-Origin law Kind.claim (Unit {0}) (empty_claim name namespace)
              (mutate_data_claim api debug db name) w w'
              (NewClaim name db.kind (clone_spec db name)) r tend (data-Makes name namespace) a)
