-- ===== src/Kube/Client/Tend.antt =====
-- Operations that add objects, and change no more of an existing one than its owners.
use mathlib.Core.Path.{path_j, subst}
use ds_operator.Prelude.{◌<◌, ◌≡◌, refl, sym, ap, ◌∙◌, List, ok, inl, inr, ok-injective, ok-ne-err}
use ds_operator.Kube.Meta.{Key, Key-cases, OwnerReference}
use ds_operator.Kube.Objects.{Kind, Obj, Kind-discrete, meta_of, with_meta, with_status, object_key}
use ds_operator.Kube.Client.{Client, Mutate}
use ds_operator.Kube.Client.Laws.{IsLawful}
use ds_operator.Kube.Client.Apply.{Applied}

-- The object with other owners.
abbrev pub owned_as : (k : Kind) → List OwnerReference → Obj k → Obj k
owned_as k os o = with_meta k (record (meta_of k o) { owner_references = os }) o

owned_as-owned_as :
    (k : Kind) (os os' : List OwnerReference) (o : Obj k)
    → owned_as k os' (owned_as k os o) ≡ owned_as k os' o
owned_as-owned_as Kind.claim os os' o = refl
owned_as-owned_as Kind.secret os os' o = refl
owned_as-owned_as Kind.stateful_set os os' o = refl
owned_as-owned_as Kind.deployment os os' o = refl
owned_as-owned_as Kind.service os os' o = refl
owned_as-owned_as Kind.snapshot os os' o = refl
owned_as-owned_as Kind.job os os' o = refl
owned_as-owned_as Kind.directory_service os os' o = refl
owned_as-owned_as Kind.directory_backup os os' o = refl
owned_as-owned_as Kind.directory_restore os os' o = refl

owned_as_self : (k : Kind) (o : Obj k) → owned_as k (meta_of k o).owner_references o ≡ o
owned_as_self Kind.claim o = refl
owned_as_self Kind.secret o = refl
owned_as_self Kind.stateful_set o = refl
owned_as_self Kind.deployment o = refl
owned_as_self Kind.service o = refl
owned_as_self Kind.snapshot o = refl
owned_as_self Kind.job o = refl
owned_as_self Kind.directory_service o = refl
owned_as_self Kind.directory_backup o = refl
owned_as_self Kind.directory_restore o = refl

pub with_status-owned_as :
    (k : Kind) (os : List OwnerReference) (o : Obj k)
    → with_status k o (owned_as k os o) ≡ owned_as k os o
with_status-owned_as Kind.claim os o = refl
with_status-owned_as Kind.secret os o = refl
with_status-owned_as Kind.stateful_set os o = refl
with_status-owned_as Kind.deployment os o = refl
with_status-owned_as Kind.service os o = refl
with_status-owned_as Kind.snapshot os o = refl
with_status-owned_as Kind.job os o = refl
with_status-owned_as Kind.directory_service os o = refl
with_status-owned_as Kind.directory_backup os o = refl
with_status-owned_as Kind.directory_restore os o = refl

module _ {W : Type 0} (api : Client W) where
  -- The object is there still, but for its owners.
  abbrev pub Tended : (k : Kind) → Key → W → Obj k → Type 0
  Tended k key w' o = (os : List OwnerReference) × (api.get k key w' ≡ ok (owned_as k os o))

  pub Tended-same :
      (k : Kind) (key : Key) (w' : W) (o : Obj k) → api.get k key w' ≡ ok o → Tended k key w' o
  Tended-same k key w' o g =
      ((meta_of k o).owner_references, g ∙ ap (λ x. ok x) (sym (owned_as_self k o)))

  pub Tended-trans :
      (k : Kind) (key : Key) (w' w'' : W) (o : Obj k)
      → Tended k key w' o
      → ((x : Obj k) → api.get k key w' ≡ ok x → Tended k key w'' x)
      → Tended k key w'' o
  Tended-trans k key w' w'' o (os, g) next =
      let (os', g') = next (owned_as k os o) g in
      (os', g' ∙ ap (λ x. ok x) (owned_as-owned_as k os os' o))

  module _ (k : Kind) (X : Type 0) (o : Obj k) (f : Mutate W X k) where
    -- What the callback returns for an object that has been created differs in the owners only.
    abbrev pub OwnersOnly : W → Type 0
    OwnersOnly w =
        (s n : Obj k) (x : X)
        → 0 < (meta_of k s).creation_timestamp
        → f w s ≡ ok (n, x)
        → (os : List OwnerReference) × (n ≡ owned_as k os s)

    module _ (law : IsLawful api) (w w' : W) (r : Obj k × X) (tend : OwnersOnly w)
        (a : Applied api k X o f w r w') where
      here : (s : Obj k) → api.get k (object_key k o) w ≡ ok s → Tended k (object_key k o) w' s
      here s g = elim a.how [
        | inl c ↦ absurd (ok-ne-err (sym c.was_absent ∙ g))
        | inr u ↦
            let same = ok-injective (sym u.was_present ∙ g) in
            let (os, n) =
              tend u.old u.made r.1 (law.get_created k (object_key k o) w u.old u.was_present)
                u.mutated in
            (
              os,
              a.stored
                  ∙ ap (λ x. ok x)
                      (u.content
                        ∙ ap (with_status k u.old) n
                        ∙ with_status-owned_as k os u.old
                        ∙ ap (owned_as k os) same),
            )
      ]

      at_key : (key' : Key) (s : Obj k) → api.get k key' w ≡ ok s → Tended k key' w' s
      at_key key' s g = elim (Key-cases (object_key k o) key') [
        | inl e ↦ subst (λ y. Tended k y w' s) e (here s (ap (λ y. api.get k y w) e ∙ g))
        | inr n ↦ Tended-same k key' w' s (a.elsewhere k key' (λ p e. n e) ∙ g)
      ]

      -- Every object is there still, but for the owners of the one that is named.
      pub Applied-Tended :
          (k' : Kind) (key' : Key) (s : Obj k') → api.get k' key' w ≡ ok s → Tended k' key' w' s
      Applied-Tended k' key' s g = elim (Kind-discrete k k') [
        | no n ↦ Tended-same k' key' w' s (a.elsewhere k' key' (λ p. absurd (n p)) ∙ g)
        | yes p ↦
            path_j (λ k' p. (s : Obj k') → api.get k' key' w ≡ ok s → Tended k' key' w' s)
              (at_key key') p s g
      ]
