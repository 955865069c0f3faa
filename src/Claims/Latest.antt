-- ===== src/Claims/Latest.antt =====
-- controllers/pvc.go, setVolumeClaimTemplateFromSnapshot: what a new claim is cloned from.
use mathlib.Core.List.{Memᴰ}
use ds_operator.Prelude.{
  ◌≤◌, ◌≡◌, ◌≢◌, refl, sym, ap, ◌∙◌, ◌↔◌, Bool, ◌⊎◌, inl, inr, Error, ok, Option, some, none, List,
  true, false, ◌==◌, eq_iff, arith, matches, get_last?,
}
use ds_operator.Kube.Meta.{key_of}
use ds_operator.Kube.Volumes.{ClaimSpec, DataSource, VolumeSnapshot}
use ds_operator.Kube.Objects.{Kind}
use ds_operator.Kube.Client.{Client}
use ds_operator.Kube.Client.Laws.{IsLawful, entries}
use ds_operator.Api.Types.{DirectoryService}
use ds_operator.Labels.{create_labels}
use ds_operator.Snapshots.Sorting.{age, sort_by_time, sort_by_time-IsAscending}
use ds_operator.Snapshots.Sorting.Members.{
  mem-sort_by_time, get_last?-IsAscending, get_last?-eq_none,
}
use ds_operator.Snapshots.Listing.{get_snapshot_list}
use ds_operator.Claims.{
  latest_sentinel, latest_source, resolve_source, set_volume_claim_template_from_snapshot,
}

module _ {W : Type 0} (api : Client W) (ds : DirectoryService) (w : W) where
  -- An automatic snapshot of the directory service: in its namespace, with its labels.
  pub record IsAutoSnapshot (s : VolumeSnapshot) : Type 0 where
    pub namespace : s.meta.namespace ≡ ds.meta.namespace
    pub labelled : matches (create_labels ds.meta.name ds.kind none) (entries s.meta.labels) ≡ true
    pub stored : api.get Kind.snapshot (key_of s.meta) w ≡ ok s

  pub record IsLatest (s : VolumeSnapshot) : Type 0 where
    pub auto : IsAutoSnapshot s
    pub youngest : (t : VolumeSnapshot) → IsAutoSnapshot t → age t ≤ age s

  -- What is to become of the data source of a volume claim spec.
  pub data Resolves (spec : ClaimSpec) : ClaimSpec → Type 0 where
    no_source : (r : ClaimSpec) → spec.data_source ≡ none → r ≡ spec → Resolves spec r
    named_source :
        (r : ClaimSpec) (source : DataSource)
        → spec.data_source ≡ some source
        → source.name ≢ latest_sentinel
        → r ≡ spec
        → Resolves spec r
    latest_snapshot :
        (r : ClaimSpec) (source : DataSource) (s : VolumeSnapshot)
        → spec.data_source ≡ some source
        → source.name ≡ latest_sentinel
        → IsLatest s
        → r ≡ record spec { data_source = some (record source { name = s.meta.name }) }
        → Resolves spec r
    nothing_to_clone :
        (r : ClaimSpec) (source : DataSource)
        → spec.data_source ≡ some source
        → source.name ≡ latest_sentinel
        → ((e : Error) × (api.list_snapshots ds.meta.namespace
                (create_labels ds.meta.name ds.kind none)
                w
              ≡ inl e))
          ⊎ ((s : VolumeSnapshot) → ¬ IsAutoSnapshot s)
        → r ≡ record spec { data_source = none }
        → Resolves spec r

  module _ (law : IsLawful api) where
    abbrev spec : ClaimSpec
    spec = ds.spec.pod_template.volume_claim_spec

    abbrev reply : Error ⊎ List VolumeSnapshot
    reply = api.list_snapshots ds.meta.namespace (create_labels ds.meta.name ds.kind none) w

    abbrev result : ClaimSpec
    result = set_volume_claim_template_from_snapshot api ds w

    result-eq :
        (d : Option DataSource)
        → resolve_source api ds spec.data_source w ≡ d
        → result ≡ record spec { data_source = d }
    unfolding set_volume_claim_template_from_snapshot
    result-eq d e = ap (λ x. record spec { data_source = x }) e

    auto-mem :
        (l : List VolumeSnapshot) (s : VolumeSnapshot)
        → reply ≡ inr l
        → Memᴰ s (sort_by_time l) ↔ IsAutoSnapshot s
    auto-mem l s listed =
        let (to, from) = law.list_iff _ _ w l listed s in
        (
          λ m.
              let (n, b, g) = to ((mem-sort_by_time s l).0 m) in
              record { namespace = n; labelled = b; stored = g },
          λ a. (mem-sort_by_time s l).1 (from (a.namespace, a.labelled, a.stored)),
        )

    module _ (source : DataSource) (given : spec.data_source ≡ some source) where
      resolve_sentinel :
          source.name ≡ latest_sentinel
          → (r : Error ⊎ List VolumeSnapshot) → get_snapshot_list api ds w ≡ r
          → resolve_source api ds spec.data_source w ≡ latest_source source r
      unfolding resolve_source
      resolve_sentinel e r g = rw (given, (eq_iff source.name latest_sentinel).1 e, g)

      Resolves-last :
          (l : List VolumeSnapshot)
          → source.name ≡ latest_sentinel
          → reply ≡ inr l
          → (o : Option VolumeSnapshot) → get_last? (sort_by_time l) ≡ o
          → Resolves spec result
      unfolding latest_source get_snapshot_list
      Resolves-last l sentinel listed none last =
          Resolves.nothing_to_clone result source given sentinel
            (inr λ s a. get_last?-eq_none (sort_by_time l) s last ((auto-mem l s listed).1 a))
            (result-eq none
              (resolve_sentinel sentinel (inr (sort_by_time l)) (rw listed) ∙ rw last))
      Resolves-last l sentinel listed (some s) last =
          let (m, older) =
            get_last?-IsAscending (sort_by_time l) s (sort_by_time-IsAscending l) last in
          Resolves.latest_snapshot result source s given sentinel
            (record {
              auto = (auto-mem l s listed).0 m;
              youngest = λ t a. older t ((auto-mem l t listed).1 a);
            })
            (result-eq _ (resolve_sentinel sentinel (inr (sort_by_time l)) (rw listed) ∙ rw last))

      Resolves-reply :
          source.name ≡ latest_sentinel
          → (r : Error ⊎ List VolumeSnapshot) → reply ≡ r
          → Resolves spec result
      unfolding latest_source get_snapshot_list
      Resolves-reply sentinel (inl e) listed =
          Resolves.nothing_to_clone result source given sentinel (inl (e, listed))
            (result-eq none (resolve_sentinel sentinel (inl e) (rw listed)))
      Resolves-reply sentinel (inr l) listed = Resolves-last l sentinel listed _ refl

      Resolves-source : (b : Bool) → (source.name == latest_sentinel) ≡ b → Resolves spec result
      unfolding resolve_source
      Resolves-source true e = Resolves-reply ((eq_iff source.name latest_sentinel).0 e) reply refl
      Resolves-source false e =
          Resolves.named_source result source given
            (ground (arith, eq_iff source.name latest_sentinel))
            (result-eq (some source) (rw (given, e))
              ∙ ap (λ x. record spec { data_source = x }) (sym given))

    Resolves-given : (d : Option DataSource) → spec.data_source ≡ d → Resolves spec result
    unfolding resolve_source
    Resolves-given none e =
        Resolves.no_source result e
          (result-eq none (rw e) ∙ ap (λ x. record spec { data_source = x }) (sym e))
    Resolves-given (some source) e = Resolves-source source e _ refl

    -- The spec of a new claim: the one that is given, with "$(latest)" replaced by the name of the
    -- youngest automatic snapshot, and without a data source if there is none.
    pub set_volume_claim_template_from_snapshot-Resolves : Resolves spec result
    set_volume_claim_template_from_snapshot-Resolves = Resolves-given spec.data_source refl
