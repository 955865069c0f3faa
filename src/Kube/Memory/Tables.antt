-- ===== src/Kube/Memory/Tables.antt =====
-- One table for each kind of object.
use ds_operator.Prelude.{
  Bool, true, false, Option, List, [], ◌∷◌, ◌≡◌, refl, ◌↔◌, arith, eq_iff, ◌==◌, ◌&&◌, ◌||◌,
  if◌then◌else◌, Bool-cases, inl, inr,
}
use ds_operator.Kube.Meta.{Key}
use ds_operator.Kube.Objects.{Kind, Obj}
use ds_operator.Kube.Client.Laws.{Differ}

unfoldable pub same_key : Key → Key → Bool
same_key a b = a.namespace == b.namespace && a.name == b.name

unfoldable pub contains_key : Key → List Key → Bool
unfolding same_key
contains_key k [] = false
contains_key k (j ∷ names) = same_key k j || contains_key k names

pub same_key_iff : (a b : Key) → (same_key a b ≡ true) ↔ (a ≡ b)
unfolding same_key
same_key_iff a b = ground (arith, eq_iff a.namespace b.namespace, eq_iff a.name b.name)

abbrev pub Table : Kind → Type 0
Table k = Key → Option (Obj k)

pub record Cells : Type 0 where
  pub claims : Table Kind.claim
  pub secrets : Table Kind.secret
  pub stateful_sets : Table Kind.stateful_set
  pub deployments : Table Kind.deployment
  pub services : Table Kind.service
  pub snapshots : Table Kind.snapshot
  pub jobs : Table Kind.job
  pub directory_services : Table Kind.directory_service
  pub directory_backups : Table Kind.directory_backup
  pub directory_restores : Table Kind.directory_restore

unfoldable pub cell : (k : Kind) → Key → Cells → Option (Obj k)
cell Kind.claim key c = c.claims key
cell Kind.secret key c = c.secrets key
cell Kind.stateful_set key c = c.stateful_sets key
cell Kind.deployment key c = c.deployments key
cell Kind.service key c = c.services key
cell Kind.snapshot key c = c.snapshots key
cell Kind.job key c = c.jobs key
cell Kind.directory_service key c = c.directory_services key
cell Kind.directory_backup key c = c.directory_backups key
cell Kind.directory_restore key c = c.directory_restores key

assign : {A : Type 0} → (Key → Option A) → Key → Option A → Key → Option A
unfolding same_key
assign t key v key' = if same_key key key' then v else t key'

unfoldable pub put : (k : Kind) → Key → Option (Obj k) → Cells → Cells
unfolding assign
put Kind.claim key v c = record c { claims = assign c.claims key v }
put Kind.secret key v c = record c { secrets = assign c.secrets key v }
put Kind.stateful_set key v c = record c { stateful_sets = assign c.stateful_sets key v }
put Kind.deployment key v c = record c { deployments = assign c.deployments key v }
put Kind.service key v c = record c { services = assign c.services key v }
put Kind.snapshot key v c = record c { snapshots = assign c.snapshots key v }
put Kind.job key v c = record c { jobs = assign c.jobs key v }
put Kind.directory_service key v c = record c {
  directory_services = assign c.directory_services key v;
}
put Kind.directory_backup key v c = record c {
  directory_backups = assign c.directory_backups key v;
}
put Kind.directory_restore key v c = record c {
  directory_restores = assign c.directory_restores key v;
}

module _ {A : Type 0} (t : Key → Option A) (key : Key) (v : Option A) where
  assign_self : assign t key v key ≡ v
  unfolding assign
  assign_self = rw ((same_key_iff key key).1 refl)

  assign_ne : (key' : Key) → (key ≡ key' → ⊥) → assign t key v key' ≡ t key'
  unfolding assign
  assign_ne key' h = elim (Bool-cases (same_key key key')) [
    | inl e ↦ absurd (h ((same_key_iff key key').0 e))
    | inr e ↦ rw e
  ]

pub cell-put_self :
    (k : Kind) (key : Key) (v : Option (Obj k)) (c : Cells) → cell k key (put k key v c) ≡ v
unfolding cell put
cell-put_self Kind.claim key v c = assign_self c.claims key v
cell-put_self Kind.secret key v c = assign_self c.secrets key v
cell-put_self Kind.stateful_set key v c = assign_self c.stateful_sets key v
cell-put_self Kind.deployment key v c = assign_self c.deployments key v
cell-put_self Kind.service key v c = assign_self c.services key v
cell-put_self Kind.snapshot key v c = assign_self c.snapshots key v
cell-put_self Kind.job key v c = assign_self c.jobs key v
cell-put_self Kind.directory_service key v c = assign_self c.directory_services key v
cell-put_self Kind.directory_backup key v c = assign_self c.directory_backups key v
cell-put_self Kind.directory_restore key v c = assign_self c.directory_restores key v

pub cell-put_ne :
    (k k' : Kind) (key key' : Key) (v : Option (Obj k)) (c : Cells)
    → Differ k key k' key'
    → cell k' key' (put k key v c) ≡ cell k' key' c
unfolding cell put
cell-put_ne Kind.claim Kind.claim key key' v c h = assign_ne c.claims key v key' (h refl)
cell-put_ne Kind.secret Kind.secret key key' v c h = assign_ne c.secrets key v key' (h refl)
cell-put_ne Kind.stateful_set Kind.stateful_set key key' v c h =
    assign_ne c.stateful_sets key v key' (h refl)
cell-put_ne Kind.deployment Kind.deployment key key' v c h =
    assign_ne c.deployments key v key' (h refl)
cell-put_ne Kind.service Kind.service key key' v c h = assign_ne c.services key v key' (h refl)
cell-put_ne Kind.snapshot Kind.snapshot key key' v c h = assign_ne c.snapshots key v key' (h refl)
cell-put_ne Kind.job Kind.job key key' v c h = assign_ne c.jobs key v key' (h refl)
cell-put_ne Kind.directory_service Kind.directory_service key key' v c h =
    assign_ne c.directory_services key v key' (h refl)
cell-put_ne Kind.directory_backup Kind.directory_backup key key' v c h =
    assign_ne c.directory_backups key v key' (h refl)
cell-put_ne Kind.directory_restore Kind.directory_restore key key' v c h =
    assign_ne c.directory_restores key v key' (h refl)
cell-put_ne _ _ key key' v c h = refl
