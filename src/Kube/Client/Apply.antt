-- ===== src/Kube/Client/Apply.antt =====
-- What `CreateOrUpdate` does to a lawful cluster.
use ds_operator.Prelude.{
  ◌≡◌, ◌≢◌, refl, sym, ◌∙◌, ◌⊎◌, inl, inr, Result, Error, ok, err, panic, not_found, external,
  message, wrap, Ends,
}
use ds_operator.Kube.Objects.{Kind, Obj, with_status, object_key, with_status_self}
use ds_operator.Kube.Client.{Client, Mutate}
use ds_operator.Kube.Client.Laws.{FreshFrom, OnlyAt, IsLawful, update_branch}

module _ {W : Type 0} (api : Client W) (k : Kind) (X : Type 0) (o : Obj k) (f : Mutate W X k) where
  -- There was no such object, and what the callback made of the given one is stored.
  pub record Created (w : W) (r : Obj k × X) : Type 0 where
    pub was_absent : api.get k (object_key k o) w ≡ err not_found
    pub made : Obj k
    pub mutated : f w o ≡ ok (made, r.1)
    pub fresh : FreshFrom k made r.0

  -- There was one, and what the callback made of it is stored, but for its status.
  pub record Updated (w : W) (r : Obj k × X) : Type 0 where
    pub old : Obj k
    pub was_present : api.get k (object_key k o) w ≡ ok old
    pub made : Obj k
    pub mutated : f w old ≡ ok (made, r.1)
    pub content : r.0 ≡ with_status k old made

  pub record Applied (w : W) (r : Obj k × X) (w' : W) : Type 0 where
    pub stored : api.get k (object_key k o) w' ≡ ok r.0
    pub elsewhere : OnlyAt api k (object_key k o) w w'
    pub how : Created w r ⊎ Updated w r

  pub record Sound (w : W) : Type 0 where
    pub no_panic :
        (s : Obj k)
        → ((s ≡ o) × (api.get k (object_key k o) w ≡ err not_found))
          ⊎ (api.get k (object_key k o) w ≡ ok s)
        → f w s ≢ panic
    pub keeps_key :
        (s s' : Obj k) (x : X)
        → object_key k s ≡ object_key k o
        → f w s ≡ ok (s', x)
        → object_key k s' ≡ object_key k o

  module _ (law : IsLawful api) (w : W) (sound : Sound w) where
    abbrev Good : Type 0
    Good = Ends (api.create_or_update k X o f) w (Applied w) (λ _ w'. w' ≡ w)

    create_ends :
        api.get k (object_key k o) w ≡ err not_found → (r : Result (Obj k × X)) → f w o ≡ r → Good
    create_ends a (err e) m = Ends.fails e w (law.absent k X o f w a ∙ rw m) refl
    create_ends a panic m = absurd (sound.no_panic o (inl (refl, a)) m)
    create_ends a (ok (made, x)) m = elim (law.create_outcome k made w) [
      | inl (e, refused) ↦ Ends.fails e w (law.absent k X o f w a ∙ rw (m, refused)) refl
      | inr c ↦
          let same = sound.keeps_key o made x refl m in
          Ends.returns (c.object, x) c.after (law.absent k X o f w a ∙ rw (m, c.returns))
            (record {
              stored = rw (← same) c.stored;
              elsewhere = rw (← same) c.elsewhere;
              how = inl (record { was_absent = a; made = made; mutated = m; fresh = c.content });
            })
    ]

    update_ends :
        (s : Obj k)
        → api.get k (object_key k o) w ≡ ok s
        → (r : Result (Obj k × X)) → f w s ≡ r
        → api.create_or_update k X o f w ≡ update_branch api k (f w s) w
        → Good
    update_ends s g (err e) m run = Ends.fails e w (run ∙ rw m) refl
    update_ends s g panic m run = absurd (sound.no_panic s (inr g) m)
    update_ends s g (ok (made, x)) m run =
        let same = sound.keeps_key s made x (law.get_named k _ w s g) m in
        elim (law.update_outcome k made s w (rw same g)) [
          | inl (e, refused) ↦ Ends.fails e w (run ∙ rw (m, refused)) refl
          | inr u ↦
              Ends.returns (u.object, x) u.after (run ∙ rw (m, u.returns))
                (record {
                  stored = rw (← same) u.stored;
                  elsewhere = rw (← same) u.elsewhere;
                  how = inr (record {
                    old = s;
                    was_present = g;
                    made = made;
                    mutated = m;
                    content = u.content;
                  });
                })
        ]

    present_ends : (s : Obj k) → api.get k (object_key k o) w ≡ ok s → Good
    present_ends s g = elim (law.present k X o s f w g) [
      | inl run ↦ update_ends s g (f w s) refl run
      | inr (x, m, run) ↦
          Ends.returns (s, x) w run
            (record {
              stored = g;
              elsewhere = λ k' key' d. refl;
              how = inr (record {
                old = s;
                was_present = g;
                made = s;
                mutated = m;
                content = sym (with_status_self k s);
              });
            })
    ]

    unreadable_ends : (e : Error) → api.get k (object_key k o) w ≡ err e → e ≢ not_found → Good
    unreadable_ends e g n = Ends.fails e w (law.unreadable k X o f w e g n) refl

    by_get : (r : Result (Obj k)) → api.get k (object_key k o) w ≡ r → Good
    by_get (ok s) g = present_ends s g
    by_get panic g = absurd (law.get_no_panic k _ w g)
    by_get (err not_found) g = create_ends g (f w o) refl
    by_get (err (external t)) g = unreadable_ends (external t) g (λ e. cc)
    by_get (err (message t)) g = unreadable_ends (message t) g (λ e. cc)
    by_get (err (wrap t e)) g = unreadable_ends (wrap t e) g (λ e. cc)

    -- CreateOrUpdate fails and changes nothing, or stores one object and changes nothing else.
    pub create_or_update-ends : Good
    create_or_update-ends = by_get (api.get k (object_key k o) w) refl
