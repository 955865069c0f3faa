-- ===== src/Kube/Mounts.antt =====
-- corev1: which volumes of a pod its containers can mount. A pod with a mount of an unknown name is
-- refused by the API server.
use ds_operator.Prelude.{String, Bool, true, false, List, [], ◌∷◌, ◌≡◌, All, if◌then◌else◌, ◌==◌}
use ds_operator.Kube.Pods.{Volume, VolumeMount, Container, PodSpec}
use ds_operator.Kube.Volumes.{PersistentVolumeClaim}

abbrev pub has_volume : String → List Volume → Bool
has_volume name [] = false
has_volume name (v ∷ l) = if v.name == name then true else has_volume name l

abbrev pub has_template : String → List PersistentVolumeClaim → Bool
has_template name [] = false
has_template name (c ∷ l) = if c.meta.name == name then true else has_template name l

-- The name is that of a volume of the pod or of a claim template of its stateful set.
abbrev pub IsKnown : List Volume → List PersistentVolumeClaim → VolumeMount → Type 0
IsKnown volumes templates m =
    (if has_volume m.name volumes then true else has_template m.name templates) ≡ true

abbrev pub IsMountable : List Volume → List PersistentVolumeClaim → Container → Type 0
IsMountable volumes templates c = All (IsKnown volumes templates) c.volume_mounts

-- Every mount of every container is known.
abbrev pub IsClosed : PodSpec → List PersistentVolumeClaim → Type 0
IsClosed pod templates =
    All (IsMountable pod.volumes templates) pod.init_containers
    × All (IsMountable pod.volumes templates) pod.containers
