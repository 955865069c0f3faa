-- ===== src/Runs/Owners.antt =====
-- The callbacks that set an owner and return its error.
use ds_operator.Prelude.{
  ◌≡◌, ◌≢◌, refl, sym, ap, ◌∙◌, Result, ok, err, panic, ok-injective, ok-ne-err, ok-ne-panic,
}
use ds_operator.Kube.Meta.{ObjectMeta, key_of}
use ds_operator.Kube.Volumes.{PersistentVolumeClaim, VolumeSnapshot}
use ds_operator.Runs.{claim_owned, snapshot_owned}

-- A result whose success keeps the name and namespace of `m`.
abbrev pub KeepsName : ObjectMeta → Result ObjectMeta → Type 0
KeepsName m r = (m' : ObjectMeta) → r ≡ ok m' → key_of m' ≡ key_of m

pub claim_owned-keeps :
    (pvc n : PersistentVolumeClaim) (x : Unit {0}) (r : Result ObjectMeta)
    → KeepsName pvc.meta r
    → claim_owned pvc r ≡ ok (n, x)
    → key_of n.meta ≡ key_of pvc.meta
claim_owned-keeps pvc n x (ok m) keeps h =
    ap (λ (c, y). key_of c.meta) (ok-injective {A = PersistentVolumeClaim × Unit {0}} (sym h))
    ∙ keeps m refl
claim_owned-keeps pvc n x (err e) keeps h = absurd (ok-ne-err h)
claim_owned-keeps pvc n x panic keeps h = absurd (ok-ne-panic (sym h))

pub snapshot_owned-keeps :
    (s n : VolumeSnapshot) (x : Unit {0}) (r : Result ObjectMeta)
    → KeepsName s.meta r
    → snapshot_owned s r ≡ ok (n, x)
    → key_of n.meta ≡ key_of s.meta
snapshot_owned-keeps s n x (ok m) keeps h =
    ap (λ (c, y). key_of c.meta) (ok-injective {A = VolumeSnapshot × Unit {0}} (sym h))
    ∙ keeps m refl
snapshot_owned-keeps s n x (err e) keeps h = absurd (ok-ne-err h)
snapshot_owned-keeps s n x panic keeps h = absurd (ok-ne-panic (sym h))

pub claim_owned-no_panic :
    (pvc : PersistentVolumeClaim) (r : Result ObjectMeta) → r ≢ panic → claim_owned pvc r ≢ panic
claim_owned-no_panic pvc (ok m) n h = ok-ne-panic h
claim_owned-no_panic pvc (err e) n h = cc
claim_owned-no_panic pvc panic n h = n refl

pub snapshot_owned-no_panic :
    (s : VolumeSnapshot) (r : Result ObjectMeta) → r ≢ panic → snapshot_owned s r ≢ panic
snapshot_owned-no_panic s (ok m) n h = ok-ne-panic h
snapshot_owned-no_panic s (err e) n h = cc
snapshot_owned-no_panic s panic n h = n refl

pub claim_owned-ok :
    (pvc n : PersistentVolumeClaim) (x : Unit {0}) (r : Result ObjectMeta)
    → claim_owned pvc r ≡ ok (n, x)
    → (m : ObjectMeta) × (r ≡ ok m) × (n ≡ record pvc { meta = m })
claim_owned-ok pvc n x (ok m) h =
    (m, refl, ap (λ (c, y). c) (ok-injective {A = PersistentVolumeClaim × Unit {0}} (sym h)))
claim_owned-ok pvc n x (err e) h = absurd (ok-ne-err h)
claim_owned-ok pvc n x panic h = absurd (ok-ne-panic (sym h))

pub snapshot_owned-ok :
    (s n : VolumeSnapshot) (x : Unit {0}) (r : Result ObjectMeta)
    → snapshot_owned s r ≡ ok (n, x)
    → (m : ObjectMeta) × (r ≡ ok m) × (n ≡ record s { meta = m })
snapshot_owned-ok s n x (ok m) h =
    (m, refl, ap (λ (c, y). c) (ok-injective {A = VolumeSnapshot × Unit {0}} (sym h)))
snapshot_owned-ok s n x (err e) h = absurd (ok-ne-err h)
snapshot_owned-ok s n x panic h = absurd (ok-ne-panic (sym h))
