-- ===== src/StatefulSets/Mounts.antt =====
-- controllers/sts.go: the mounts of the pods have their volumes.
use ds_operator.Prelude.{String, Bool, true, false, Bool-cases, inl, inr, refl, ◌==◌, [], ◌∷◌, All}
use ds_operator.Kube.Mounts.{IsClosed, IsKnown}
use ds_operator.Kube.Volumes.{ClaimSpec}
use ds_operator.Api.Types.{DirectoryService}
use ds_operator.StatefulSets.Volumes.{volume_mounts, volumes, script_mounts, script_volumes}
use ds_operator.StatefulSets.Containers.{inject_debug_containers}
use ds_operator.StatefulSets.Template.{stateful_set, data_claim, with_debug}

All-IsKnown :
    (ds : DirectoryService) (claim : ClaimSpec)
    → All (IsKnown (volumes ds) (data_claim ds claim ∷ [])) (volume_mounts ds)
unfolding volume_mounts volumes script_mounts script_volumes
All-IsKnown ds claim = elim (Bool-cases (ds.spec.pod_template.script_config_map_name == "")) [
  | inl e ↦ simp e (refl, (refl, (refl, (refl, (refl, (refl, (refl, tt)))))))
  | inr e ↦ simp e (refl, (refl, (refl, (refl, (refl, (refl, (refl, (refl, tt))))))))
]

-- Every mount of a container of the stateful set, the debug containers included, is of a volume
-- of the pod or of the claim template, with scripts or without.
pub stateful_set-IsClosed :
    (debug : Bool) (ds : DirectoryService) (svc_name : String) (claim : ClaimSpec)
    → IsClosed
        (stateful_set debug ds svc_name claim).spec.template.spec
        (stateful_set debug ds svc_name claim).spec.volume_claim_templates
unfolding with_debug inject_debug_containers
stateful_set-IsClosed false ds svc_name claim =
    let known = All-IsKnown ds claim in ((known, tt), (known, tt))
stateful_set-IsClosed true ds svc_name claim =
    let known = All-IsKnown ds claim in ((known, (known, tt)), (known, (known, tt)))
