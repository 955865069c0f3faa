-- ===== src/Claims.antt =====
-- controllers/pvc.go: the persistent volume claims that are made ahead of the stateful set, and the
-- choice of the snapshot that a new claim starts from.
pub mod Live
pub mod Stable
pub mod Latest
pub mod Loop
use Prim.Native.Nat.{◌+◌}
use ds_operator.Prelude.{
  ℕ, zero, suc, pos, negsuc, ℤ, String, ◌<>◌, Option, some, none, List, [], ◌∷◌, ◌⊎◌, inl, inr,
  Error, Result, Action, ok, pure, crash, ◌>>=◌, if◌then◌else◌, ◌==◌, ltb, decimal, get_last?,
}
use ds_operator.Kube.Meta.{ObjectMeta, named}
use ds_operator.Kube.Volumes.{ClaimSpec, DataSource, PersistentVolumeClaim, VolumeSnapshot}
use ds_operator.Kube.Objects.{Kind}
use ds_operator.Kube.Client.{Client, Mutate}
use ds_operator.Api.Types.{DirectoryService}
use ds_operator.Labels.{create_labels}
use ds_operator.Snapshots.Listing.{get_snapshot_list}

-- a Go claim with nothing set
abbrev pub empty_claim : String → String → PersistentVolumeClaim
empty_claim name namespace = record {
  meta = named name namespace;
  spec = record {
    access_modes = [];
    storage_class_name = none;
    resources = record { requests = []; limits = [] };
    data_source = none;
  };
}

abbrev pub latest_sentinel : String
latest_sentinel = "$(latest)"

source_of : DataSource → Option VolumeSnapshot → Option DataSource
source_of source none = none
source_of source (some s) = some (record source { name = s.meta.name })

-- The data source that the sentinel stands for: none if the list failed or is empty.
unfoldable pub latest_source : DataSource → Error ⊎ List VolumeSnapshot → Option DataSource
unfolding source_of
latest_source source (inl e) = none
latest_source source (inr items) = source_of source (get_last? items)

module _ {W : Type 0} (api : Client W) (ds : DirectoryService) where
  unfoldable pub resolve_source : Option DataSource → W → Option DataSource
  unfolding get_snapshot_list latest_source
  resolve_source none w = none
  resolve_source (some source) w =
      if source.name == latest_sentinel
      then latest_source source (get_snapshot_list api ds w)
      else some source

  unfoldable pub set_volume_claim_template_from_snapshot : W → ClaimSpec
  unfolding resolve_source
  set_volume_claim_template_from_snapshot w =
      let spec = ds.spec.pod_template.volume_claim_spec in
      record spec { data_source = resolve_source spec.data_source w }

  abbrev pub claim_name : ℕ → String
  claim_name i = "data-" <> ds.meta.name <> "-" <> decimal i

  unfoldable pub mutate_claim : Mutate W (Unit {0}) Kind.claim
  mutate_claim w pvc =
      if ltb 0 pvc.meta.creation_timestamp
      then ok (pvc, tt)
      else ok (
        record pvc {
          meta = record pvc.meta {
            labels = some (create_labels ds.meta.name ds.kind none);
            annotations = some (("pv.beta.kubernetes.io/gid", "0") ∷ []);
          };
          spec = set_volume_claim_template_from_snapshot w;
        },
        tt,
      )

  -- One round of the loop, and the rounds `i`, `i + 1`, ….
  unfoldable pub reconcile_claim : ℕ → Action W (Unit {0})
  reconcile_claim i = do
    (pvc, x) ←
        api.create_or_update Kind.claim (Unit {0}) (empty_claim (claim_name i) ds.meta.namespace)
          mutate_claim
    pure x

  unfoldable pub reconcile_claims : ℕ → ℕ → Action W (Unit {0})
  reconcile_claims zero i = pure tt
  reconcile_claims (suc rounds) i = do x ← reconcile_claim i; reconcile_claims rounds (i + 1)

  -- A nil `Replicas` is dereferenced.
  claims_for : Option ℤ → Action W (Unit {0})
  claims_for none = crash
  claims_for (some (negsuc n)) = pure tt
  claims_for (some (pos n)) = reconcile_claims n 0

  unfoldable pub reconcile_pvc : Action W (Unit {0})
  unfolding claims_for
  reconcile_pvc = claims_for ds.spec.replicas
