-- ===== src/Tests/Volumes.antt =====
-- Labels, claims and snapshots.
use ds_operator.Prelude.{
  ℕ, ◌<◌, pos, negsuc, String, true, some, Option, List, [], ◌∷◌, ◌≡◌, refl, inl, inr, ◌↔◌, arith,
  panic, Ends, Dict, lookup, matches,
}
use ds_operator.Kube.Volumes.{VolumeSnapshot}
use ds_operator.Kube.Objects.{Kind}
use ds_operator.Kube.Memory.{Server, memory, running}
use ds_operator.Kube.Memory.Lawful.{memory-IsLawful}
use ds_operator.Labels.{create_labels, label_application_name}
use ds_operator.Labels.Selectors.{matches-pod_selector, pod_selector, Allows}
use ds_operator.Claims.{reconcile_pvc, set_volume_claim_template_from_snapshot}
use ds_operator.Claims.Latest.{Resolves, set_volume_claim_template_from_snapshot-Resolves}
use ds_operator.Claims.Loop.{Careful, HasClaim, reconcile_pvc-ends}
use ds_operator.Snapshots.{prune_snapshots, reconcile_snapshots, snapshot_and_prune}
use ds_operator.Snapshots.Deadline.{
  schedule, reconcile_snapshots-eq_schedule, reconcile_snapshots_overflow,
}
use ds_operator.Snapshots.Retention.{
  Pruned, listing, prune_snapshots-Pruned, prune_snapshots_negative,
}
use ds_operator.Tests.Data.{idrepo, pod_template, auto_snapshot, empty_server, retaining, every}

abbrev component : Option (Dict String)
component = some (("app.kubernetes.io/component", "ds-proxy") ∷ [])

matches-pod_selector_example :
    (matches (pod_selector "a") (create_labels "a" "b" component) ≡ true) ↔ (
      Allows "app.kubernetes.io/name" label_application_name component
      × Allows "app.kubernetes.io/instance" "a" component)
unfolding lookup
matches-pod_selector_example = matches-pod_selector "a" "b" component (refl, tt)

-- Two snapshots, of the times 6 and 7.
snapshots : Server
unfolding running
snapshots =
    let w = (running.create Kind.snapshot (auto_snapshot "s1") empty_server).1 in
    (running.create Kind.snapshot (auto_snapshot "s2") w).1

set_volume_claim_template_from_snapshot-Resolves_example :
    Resolves memory idrepo snapshots pod_template.volume_claim_spec
      (set_volume_claim_template_from_snapshot memory idrepo snapshots)
set_volume_claim_template_from_snapshot-Resolves_example =
    set_volume_claim_template_from_snapshot-Resolves memory idrepo snapshots memory-IsLawful

reconcile_pvc-ends_example :
    Ends
      (reconcile_pvc memory idrepo)
      snapshots
      (λ _ w'. Careful memory idrepo snapshots w' × ((j : ℕ) → j < 2 → HasClaim memory idrepo j w'))
      (λ _ w'. Careful memory idrepo snapshots w')
reconcile_pvc-ends_example = reconcile_pvc-ends memory idrepo memory-IsLawful 2 snapshots refl

-- Half an hour has passed.
reconcile_snapshots-eq_schedule_example :
    reconcile_snapshots memory (pos 2_800) idrepo ≡ schedule memory idrepo 30 1_000 2_800
reconcile_snapshots-eq_schedule_example =
    reconcile_snapshots-eq_schedule memory idrepo 30 1_000 2_800 refl refl (omega arith)
      (omega arith)

reconcile_snapshots_overflow_example :
    reconcile_snapshots memory (pos 1_001) (every (pos 40_000_000))
    ≡ snapshot_and_prune memory (pos 1_001) (every (pos 40_000_000))
reconcile_snapshots_overflow_example =
    reconcile_snapshots_overflow memory (every (pos 40_000_000)) 40_000_000 1_000 1_001 refl refl
      (omega arith) refl (omega arith) (omega arith) (omega arith) (omega arith)

prune_snapshots-Pruned_example :
    Ends
      (prune_snapshots memory (retaining (pos 1)))
      snapshots
      (λ _ w'.
        (l : List VolumeSnapshot) × (listing memory (retaining (pos 1)) snapshots ≡ inr l)
        × Pruned memory (retaining (pos 1)) 1 l snapshots w')
      (λ e w'. (listing memory (retaining (pos 1)) snapshots ≡ inl e) × (w' ≡ snapshots))
prune_snapshots-Pruned_example =
    prune_snapshots-Pruned memory (retaining (pos 1)) memory-IsLawful 1 snapshots refl

prune_snapshots_negative_example :
    (prune_snapshots memory (retaining (negsuc 0)) snapshots).0 ≡ panic
unfolding running snapshots
prune_snapshots_negative_example =
    prune_snapshots_negative memory (retaining (negsuc 0)) memory-IsLawful 0 snapshots _ refl refl
