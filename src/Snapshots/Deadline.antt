-- ===== src/Snapshots/Deadline.antt =====
-- controllers/snapshots.go: when a snapshot is due.
use ds_operator.Prelude.{
  ℕ, ◌*◌, ◌+◌, ◌≤◌, ◌<◌, ℤ, pos, ltb_ℤ, ◌≡◌, refl, true, false, arith, ◌∙◌, ap, Action, pure,
  if◌then◌else◌, ltb, leb, Bool, zero, suc,
}
use ds_operator.Kube.Objects.{Kind}
use ds_operator.Kube.Client.{Client}
use ds_operator.Api.Types.{DirectoryService}
use ds_operator.Snapshots.{
  deadline, last_snapshot, is_zero, stamp, reconcile_snapshots, snapshot_and_prune,
}

abbrev period : DirectoryService → ℤ
period ds = ds.spec.snapshots.period_minutes

-- The deadline in whole numbers, where nothing overflows: a period of at most 35791394 minutes,
-- and a last time that leaves room.
pub deadline_exact :
    (ds : DirectoryService) (p l : ℕ)
    → period ds ≡ pos p
    → last_snapshot ds ≡ pos l
    → p ≤ 35791394
    → l ≤ 0x3fff_ffff_ffff_ffff
    → deadline ds ≡ pos (l + p * 60)
unfolding deadline
deadline_exact ds p l hp hl bp bl = rw (hp, hl) (ground arith)

-- From 35791395 minutes to 71582788 the product wraps to a negative number, and the deadline
-- is over as soon as a snapshot has been taken.
pub deadline_overflow :
    (ds : DirectoryService) (p l now : ℕ)
    → period ds ≡ pos p
    → last_snapshot ds ≡ pos l
    → 35791395 ≤ p
    → p ≤ 71582788
    → l ≤ now
    → l ≤ 0x3fff_ffff_ffff_ffff
    → ltb_ℤ (pos now) (deadline ds) ≡ false
unfolding deadline
deadline_overflow ds p l now hp hl bp bq ln bl = rw (hp, hl) (ground arith)

is_zero_pos : (l : ℕ) → is_zero (pos l) ≡ leb l 0
unfolding is_zero
is_zero_pos zero = refl
is_zero_pos (suc l) = ground arith

due :
    {A : Type 0} (x y z : A) (on first early : Bool)
    → on ≡ true
    → first ≡ false
    → early ≡ false
    → (if on then if first then x else if early then y else z else y) ≡ z
due x y z on first early a b c = rw (a, b, c) refl

module _ {W : Type 0} (api : Client W) (ds : DirectoryService) (p l now : ℕ) where
  -- When a snapshot is taken, in whole numbers: never unless enabled; not on the first run, which
  -- only notes the time; and afterwards once the period is over.
  abbrev pub schedule : Action W DirectoryService
  schedule =
      if ds.spec.snapshots.enabled
      then if leb l 0
        then api.update_status Kind.directory_service (stamp (pos now) ds)
        else if ltb now (l + p * 60)
        then pure ds
        else snapshot_and_prune api (pos now) ds
      else pure ds

  -- reconcileSnapshots keeps the schedule for a period of at most 35791394 minutes, where the last
  -- time is at most 2^62 - 1: no snapshot unless enabled; on the first run only the time is noted;
  -- afterwards a snapshot is taken exactly when the period since the last one is over.
  pub reconcile_snapshots-eq_schedule :
      period ds ≡ pos p
      → last_snapshot ds ≡ pos l
      → l ≤ 0x3fff_ffff_ffff_ffff
      → p ≤ 35791394
      → reconcile_snapshots api (pos now) ds ≡ schedule
  unfolding reconcile_snapshots
  reconcile_snapshots-eq_schedule hp hl bl bp =
      let first = ap is_zero hl ∙ is_zero_pos l in
      let early : ltb_ℤ (pos now) (deadline ds) ≡ ltb now (l + p * 60) =
        ap (ltb_ℤ (pos now)) (deadline_exact ds p l hp hl bp bl) ∙ ground arith in
      rw (first, early) refl

  -- With a period of 35791395 to 71582788 minutes, enabled and after the first run, a snapshot is
  -- taken on every run: the number of seconds overflows.
  pub reconcile_snapshots_overflow :
      period ds ≡ pos p
      → last_snapshot ds ≡ pos l
      → l ≤ 0x3fff_ffff_ffff_ffff
      → ds.spec.snapshots.enabled ≡ true
      → 0 < l
      → l ≤ now
      → 35791395 ≤ p
      → p ≤ 71582788
      → reconcile_snapshots api (pos now) ds ≡ snapshot_and_prune api (pos now) ds
  unfolding reconcile_snapshots
  reconcile_snapshots_overflow hp hl bl on lp ln bp bq =
      let first : is_zero (last_snapshot ds) ≡ false =
        ap is_zero hl ∙ is_zero_pos l ∙ ground arith in
      due (api.update_status Kind.directory_service (stamp (pos now) ds)) (pure ds)
        (snapshot_and_prune api (pos now) ds) ds.spec.snapshots.enabled (is_zero (last_snapshot ds))
        (ltb_ℤ (pos now) (deadline ds)) on first (deadline_overflow ds p l now hp hl bp bq ln bl)
