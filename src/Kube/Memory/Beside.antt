-- ===== src/Kube/Memory/Beside.antt =====
-- The server in memory: updates leave the directory server beside it alone.
use ds_operator.Prelude.{Bool-cases, inl, inr, refl, Result, ok, err, panic}
use ds_operator.Kube.Objects.{Kind, Obj, object_key}
use ds_operator.Kube.Memory.{Server, memory, replace, replace_found, is_stored, write}
use ds_operator.Ldap.Laws.{SameView, IsAside}
use ds_operator.Ldap.Memory.{local_view}

replace_found-same :
    (k : Kind) (r : Result (Obj k)) (merge : Obj k → Obj k) (o : Obj k) (w : Server)
    → SameView local_view w (replace_found k r merge o w).1
unfolding replace_found write
replace_found-same k (err e) merge o w = record { opened = refl; passwords = λ dn. refl }
replace_found-same k panic merge o w = record { opened = refl; passwords = λ dn. refl }
replace_found-same k (ok s) merge o w = elim (Bool-cases (w.refuses k)) [
  | inl e ↦ rw e (record { opened = refl; passwords = λ dn. refl })
  | inr e ↦ elim (Bool-cases (is_stored k (object_key k o) (merge s))) [
    | inl e' ↦ rw (e, e') (record { opened = refl; passwords = λ dn. refl })
    | inr e' ↦ rw (e, e') (record { opened = refl; passwords = λ dn. refl })
  ]
]

pub local-IsAside : IsAside local_view memory
unfolding memory replace
local-IsAside = record {
  update = λ k o w. replace_found-same k _ _ o w;
  update_status = λ k o w. replace_found-same k _ _ o w;
}
