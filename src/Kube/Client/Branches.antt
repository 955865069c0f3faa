-- ===== src/Kube/Client/Branches.antt =====
-- CreateOrUpdate with a callback of the operator's usual shape: an object without a creation time is
-- filled from a template and given an owner, and one that has been created is brought in line.
use ds_operator.Prelude.{
  ℕ, ◌<◌, String, false, ltb, ◌≡◌, refl, sym, ap, ◌∙◌, ◌⊎◌, inl, inr, List, Result, ok, err, panic,
  not_found, arith, Ends, Ends_mono, Bool-cases, ok-injective, ok-ne-panic,
}
use ds_operator.Kube.Meta.{OwnerReference, key_of}
use ds_operator.Kube.Objects.{
  Kind, Obj, meta_of, with_meta, with_status, object_key, meta_of-with_meta,
}
use ds_operator.Kube.Client.{Client, Mutate}
use ds_operator.Kube.Client.Laws.{IsLawful, OnlyAt}
use ds_operator.Kube.Client.Apply.{Created, Updated, create_or_update-ends}
use ds_operator.Kube.Client.Tend.{owned_as}

-- A template as the server stores it: with some owners, a time and a uid.
abbrev pub stamped : (k : Kind) → List OwnerReference → ℕ → String → Obj k → Obj k
stamped k os time uid o =
    with_meta k
      (record (meta_of k o) { owner_references = os; creation_timestamp = time; uid = uid }) o

stamped-owned_as :
    (k : Kind) (os : List OwnerReference) (time : ℕ) (uid : String) (o : Obj k)
    → with_meta k
        (record (meta_of k (owned_as k os o)) { creation_timestamp = time; uid = uid })
        (owned_as k os o)
      ≡ stamped k os time uid o
stamped-owned_as Kind.claim os time uid o = refl
stamped-owned_as Kind.secret os time uid o = refl
stamped-owned_as Kind.stateful_set os time uid o = refl
stamped-owned_as Kind.deployment os time uid o = refl
stamped-owned_as Kind.service os time uid o = refl
stamped-owned_as Kind.snapshot os time uid o = refl
stamped-owned_as Kind.job os time uid o = refl
stamped-owned_as Kind.directory_service os time uid o = refl
stamped-owned_as Kind.directory_backup os time uid o = refl
stamped-owned_as Kind.directory_restore os time uid o = refl

owned_as-key :
    (k : Kind) (os : List OwnerReference) (o : Obj k)
    → object_key k (owned_as k os o) ≡ object_key k o
owned_as-key k os o =
    ap key_of (meta_of-with_meta k (record (meta_of k o) { owner_references = os }) o)

module _ {W : Type 0} (api : Client W) (k : Kind) (X : Type 0) (o : Obj k) (f : Mutate W X k) where
  -- The two branches of the callback in the world `w`.
  pub record Branches (new : Obj k) (extra : X) (align : Obj k → Result (Obj k × X)) (w : W)
      : Type 0 where
    pub blank : ltb 0 (meta_of k o).creation_timestamp ≡ false
    pub starts :
        (s : Obj k)
        → ltb 0 (meta_of k s).creation_timestamp ≡ false
        → (os : List OwnerReference) × (f w s ≡ ok (owned_as k os new, extra))
    pub aligns : (s : Obj k) → 0 < (meta_of k s).creation_timestamp → f w s ≡ align s
    pub named : object_key k new ≡ object_key k o
    pub keeps : (s n : Obj k) (x : X) → align s ≡ ok (n, x) → object_key k n ≡ object_key k s
    pub works :
        (s : Obj k)
        → api.get k (object_key k o) w ≡ ok s
        → (n : Obj k) × (x : X) × (align s ≡ ok (n, x))

  module _ (new : Obj k) (extra : X) (align : Obj k → Result (Obj k × X)) where
    -- There was none, and the template is stored.
    pub record FromNew (w : W) (r : Obj k × X) : Type 0 where
      pub was_absent : api.get k (object_key k o) w ≡ err not_found
      pub owners : List OwnerReference
      pub time : ℕ
      pub uid : String
      pub content : r.0 ≡ stamped k owners time uid new
      pub result : r.1 ≡ extra

    -- There was one, and it is stored as brought in line, but for its status.
    pub record FromOld (w : W) (r : Obj k × X) : Type 0 where
      pub old : Obj k
      pub was_present : api.get k (object_key k o) w ≡ ok old
      pub made : Obj k
      pub aligned : align old ≡ ok (made, r.1)
      pub content : r.0 ≡ with_status k old made

    pub record Branched (w : W) (r : Obj k × X) (w' : W) : Type 0 where
      pub stored : api.get k (object_key k o) w' ≡ ok r.0
      pub elsewhere : OnlyAt api k (object_key k o) w w'
      pub how : FromNew w r ⊎ FromOld w r

    module _ (law : IsLawful api) (w : W) (b : Branches new extra align w) where
      keeps_key :
          (s n : Obj k) (x : X)
          → object_key k s ≡ object_key k o
          → f w s ≡ ok (n, x)
          → object_key k n ≡ object_key k o
      keeps_key s n x same h = elim (Bool-cases (ltb 0 (meta_of k s).creation_timestamp)) [
        | inl e ↦ b.keeps s n x (sym (b.aligns s (ground arith)) ∙ h) ∙ same
        | inr e ↦
            let (os, m) = b.starts s e in
            ap (λ ((t, y) : Obj k × X). object_key k t) (ok-injective {A = Obj k × X} (sym h ∙ m))
            ∙ owned_as-key k os new
            ∙ b.named
      ]

      no_panic :
          (s : Obj k)
          → ((s ≡ o) × (api.get k (object_key k o) w ≡ err not_found))
            ⊎ (api.get k (object_key k o) w ≡ ok s)
          → f w s ≡ panic
          → ⊥
      no_panic s (inl (e, a)) h =
          let (os, m) = b.starts o b.blank in
          ok-ne-panic {A = Obj k × X} (sym m ∙ ap (f w) (sym e) ∙ h)
      no_panic s (inr g) h =
          let (n, x, m) = b.works s g in
          ok-ne-panic {A = Obj k × X}
            (sym m ∙ sym (b.aligns s (law.get_created k (object_key k o) w s g)) ∙ h)

      from_new : (r : Obj k × X) → Created api k X o f w r → FromNew w r
      from_new r c =
          let (os, m) = b.starts o b.blank in
          let same = ok-injective {A = Obj k × X} (sym c.mutated ∙ m) in
          record {
            was_absent = c.was_absent;
            owners = os;
            time = c.fresh.time;
            uid = c.fresh.uid;
            content =
                c.fresh.content
                ∙ ap
                    (λ ((t, y) : Obj k × X).
                      with_meta k
                        (record (meta_of k t) {
                          creation_timestamp = c.fresh.time;
                          uid = c.fresh.uid;
                        })
                        t)
                    same
                ∙ stamped-owned_as k os c.fresh.time c.fresh.uid new;
            result = ap (λ ((t, y) : Obj k × X). y) same;
          }

      from_old : (r : Obj k × X) → Updated api k X o f w r → FromOld w r
      from_old r u = record {
        old = u.old;
        was_present = u.was_present;
        made = u.made;
        aligned =
            sym (b.aligns u.old (law.get_created k (object_key k o) w u.old u.was_present))
            ∙ u.mutated;
        content = u.content;
      }

      -- It fails and changes nothing, or the object of the name is stored, new or brought in line.
      pub create_or_update-Branched :
          Ends (api.create_or_update k X o f) w (Branched w) (λ e w'. w' ≡ w)
      create_or_update-Branched =
          Ends_mono
            (λ r w' a. record {
              stored = a.stored;
              elsewhere = a.elsewhere;
              how = elim a.how [ inl c ↦ inl (from_new r c) | inr u ↦ inr (from_old r u) ];
            })
            (λ e w' same. same)
            (create_or_update-ends api k X o f law w
              (record { no_panic = no_panic; keeps_key = keeps_key }))
