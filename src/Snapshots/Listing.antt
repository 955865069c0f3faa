-- ===== src/Snapshots/Listing.antt =====
-- controllers/snapshots.go, getSnapshotList.
use ds_operator.Prelude.{none, List, ◌⊎◌, inl, inr, Error}
use ds_operator.Kube.Volumes.{VolumeSnapshot}
use ds_operator.Kube.Client.{Client}
use ds_operator.Api.Types.{DirectoryService}
use ds_operator.Labels.{create_labels}
use ds_operator.Snapshots.Sorting.{sort_by_time}

unfoldable pub sorted_reply : Error ⊎ List VolumeSnapshot → Error ⊎ List VolumeSnapshot
unfolding sort_by_time
sorted_reply (inl e) = inl e
sorted_reply (inr items) = inr (sort_by_time items)

module _ {W : Type 0} (api : Client W) (ds : DirectoryService) where
  -- The snapshots with the labels that the operator gives its own, oldest first.
  unfoldable pub get_snapshot_list : W → Error ⊎ List VolumeSnapshot
  unfolding sorted_reply create_labels
  get_snapshot_list w =
      sorted_reply
        (api.list_snapshots ds.meta.namespace (create_labels ds.meta.name ds.kind none) w)
