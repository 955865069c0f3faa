-- ===== src/Snapshots.antt =====
-- controllers/snapshots.go: the automatic volume snapshots of a directory service.
pub mod Sorting
pub mod Listing
pub mod Deadline
pub mod Pruning
pub mod Retention
pub mod Taking
pub mod Rotation
pub mod Live
use ds_operator.Prelude.{
  ℕ, zero, suc, ℤ, pos, negsuc, ◌+ℤ◌, ◌-ℤ◌, ◌*ℤ◌, ltb_ℤ, String, ◌<>◌, Option, some, none, List, [],
  ◌∷◌, Bool, true, false, ◌⊎◌, inl, inr, Error, Result, Action, ok, pure, raise, crash, ignore,
  ◌>>=◌, if◌then◌else◌, ltb, decimal_ℤ, length, wrap32, wrap64,
}
use ds_operator.Kube.Meta.{ObjectMeta, named}
use ds_operator.Kube.Volumes.{SnapshotSpec, VolumeSnapshot}
use ds_operator.Kube.Objects.{Kind}
use ds_operator.Kube.Client.{Client, Mutate}
use ds_operator.Api.Types.{DirectoryService, DirectoryServiceStatus}
use ds_operator.Labels.{create_labels}
use ds_operator.Snapshots.Listing.{get_snapshot_list}

-- a Go snapshot with nothing set
abbrev pub empty_snapshot : String → String → VolumeSnapshot
empty_snapshot name namespace = record {
  meta = named name namespace;
  spec = record { class_name = none; claim_name = none };
}

abbrev pub last_snapshot : DirectoryService → ℤ
last_snapshot ds = ds.status.last_snapshot_timestamp

-- `ds.Status.SnapshotStatus.LastSnapshotTimeStamp = now`
abbrev pub stamp : ℤ → DirectoryService → DirectoryService
stamp now ds = record ds { status = record ds.status { last_snapshot_timestamp = now } }

-- `last + int64(PeriodMinutes*60)`: the product is one of int32.
unfoldable pub deadline : DirectoryService → ℤ
unfolding wrap32 wrap64 ◌+ℤ◌ ◌*ℤ◌
deadline ds = wrap64 (last_snapshot ds +ℤ wrap32 (ds.spec.snapshots.period_minutes *ℤ pos 60))

abbrev pub snapshot_name : ℤ → DirectoryService → String
snapshot_name now ds = ds.meta.name <> "-" <> decimal_ℤ now

-- the snapshot that is to be taken
unfoldable pub new_snapshot : ℤ → DirectoryService → VolumeSnapshot
unfolding create_labels
new_snapshot now ds = record {
  meta = record {
    name = snapshot_name now ds;
    namespace = ds.meta.namespace;
    uid = "";
    labels = some (create_labels ds.meta.name ds.kind none);
    annotations = some (("directory.forgerock.io/lastSnapshotTime", decimal_ℤ now) ∷ []);
    owner_references = [];
    creation_timestamp = 0;
  };
  spec = record {
    class_name = some ds.spec.pod_template.volume_snapshot_class_name;
    claim_name =
        some ("data-" <> ds.meta.name <> "-" <> decimal_ℤ ds.spec.snapshots.directory_instance);
  };
}

-- The rounds of `for i := 0; i < n; i++`.
rounds : ℤ → ℕ
rounds (pos n) = n
rounds (negsuc n) = 0

unfoldable pub is_zero : ℤ → Bool
is_zero (pos zero) = true
is_zero (pos (suc n)) = false
is_zero (negsuc n) = false

-- `len(snapList.Items) - int(SnapshotsRetained)`, as a number of rounds.
unfoldable pub num_to_delete : List VolumeSnapshot → DirectoryService → ℕ
unfolding rounds ◌-ℤ◌
num_to_delete items ds = rounds (pos (length items) -ℤ ds.spec.snapshots.snapshots_retained)

module _ {W : Type 0} (api : Client W) where
  unfoldable pub mutate_snapshot : ℤ → DirectoryService → Mutate W (Unit {0}) Kind.snapshot
  mutate_snapshot now ds w snap =
      if ltb 0 snap.meta.creation_timestamp then ok (snap, tt) else ok (new_snapshot now ds, tt)

  abbrev pub record_event : String → String → Action W (Unit {0})
  record_event reason text w = (ok tt, api.record_event reason text w)

  -- One round of the loop: the delete, its error logged and forgotten, and the event.
  abbrev pub purge : VolumeSnapshot → Action W (Unit {0})
  purge s = do x ← ignore (api.delete Kind.snapshot s); record_event "Purged Snapshot" s.meta.name

  -- `for i := 0; i < numToDelete; i++`: an index past the end is a panic, a failed delete is not.
  unfoldable pub prune : ℕ → List VolumeSnapshot → Action W (Unit {0})
  prune zero items = pure tt
  prune (suc n) [] = crash
  prune (suc n) (s ∷ items) = do x ← purge s; prune n items

  prune_listed : DirectoryService → Error ⊎ List VolumeSnapshot → Action W (Unit {0})
  prune_listed ds (inl e) = raise e
  prune_listed ds (inr items) = prune (num_to_delete items ds) items

  unfoldable pub prune_snapshots : DirectoryService → Action W (Unit {0})
  unfolding prune_listed
  prune_snapshots ds w = prune_listed ds (get_snapshot_list api ds w) w

  -- An error of CreateOrUpdate is logged and forgotten.
  unfoldable pub take_snapshot : ℤ → DirectoryService → Action W (Unit {0})
  take_snapshot now ds = do
    x ← ignore (
        api.create_or_update Kind.snapshot (Unit {0})
          (empty_snapshot (snapshot_name now ds) ds.meta.namespace) (mutate_snapshot now ds))
    record_event "Created Snapshot" (snapshot_name now ds)

  -- Where a snapshot is due. Status().Update leaves the server's object in `ds`.
  unfoldable pub snapshot_and_prune : ℤ → DirectoryService → Action W DirectoryService
  snapshot_and_prune now ds = do
    x ← take_snapshot now ds
    ds' ← api.update_status Kind.directory_service (stamp now ds)
    y ← prune_snapshots ds'
    pure ds'

  unfoldable pub reconcile_snapshots : ℤ → DirectoryService → Action W DirectoryService
  reconcile_snapshots now ds =
      if ds.spec.snapshots.enabled
      then if is_zero (last_snapshot ds)
        then api.update_status Kind.directory_service (stamp now ds)
        else if ltb_ℤ now (deadline ds)
        then pure ds
        else snapshot_and_prune now ds
      else pure ds
