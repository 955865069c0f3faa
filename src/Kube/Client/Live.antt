-- ===== src/Kube/Client/Live.antt =====
-- A server that accepts: what the operations do where no call is refused.
use mathlib.Core.Path.{subst}
use ds_operator.Prelude.{
  ◌<◌, ◌≡◌, refl, sym, ap, ◌∙◌, ◌⊎◌, inl, inr, Result, Error, Action, ok, err, panic, not_found,
  continue, handle, ◌>>=◌, try_else, pure, ignore, lift, Finishes, Finishes_mono, String, Dict, ◌≢◌,
  ok-ne-err, Bool, true, false, if◌then◌else◌,
}
use ds_operator.Kube.Meta.{Key}
use ds_operator.Kube.Objects.{Kind, Obj, meta_of, object_key}
use ds_operator.Kube.Client.{Client, Mutate}
use ds_operator.Kube.Client.Laws.{IsLawful}

-- A choice does not fail where neither branch does.
pub if-fine :
    {A : Type 0} (b : Bool) (r r' : Result A) (e : Error)
    → (r ≡ err e → ⊥)
    → (r' ≡ err e → ⊥)
    → (if b then r else r') ≡ err e
    → ⊥
if-fine true r r' e h h' g = h g
if-fine false r r' e h h' g = h' g

module _ {W : Type 0} (Open : W → Type 0) where
  -- From a world that is open the action does not fail, and leaves one that is open.
  abbrev pub LivelyAt : {A : Type 0} → Result A × W → Type 0
  LivelyAt {A} done = ((e : Error) → ◌≡◌ {A = Result A} done.0 (err e) → ⊥) × Open done.1

  abbrev pub Lively : {A : Type 0} → Action W A → Type 0
  Lively m = (w : W) → Open w → LivelyAt (m w)

  continue-Lively :
      {A B : Type 0} (r : Result A) (w : W) (f : A → Action W B)
      → LivelyAt (r, w)
      → ((a : A) → Lively (f a))
      → LivelyAt (continue r f w)
  continue-Lively (ok a) w f (fine, o) g = g a w o
  continue-Lively (err e) w f (fine, o) g = absurd (fine e refl)
  continue-Lively panic w f (fine, o) g = ((λ e h. cc), o)

  pub Lively-bind :
      {A B : Type 0} (m : Action W A) (f : A → Action W B)
      → Lively m
      → ((a : A) → Lively (f a))
      → Lively (m >>= f)
  Lively-bind m f h g w o = continue-Lively (m w).0 (m w).1 f (h w o) g

  handle-Lively :
      {A B : Type 0} (r : Result A) (w : W) (f : A → Action W B) (g : Error → Action W B)
      → LivelyAt (r, w)
      → ((a : A) → Lively (f a))
      → LivelyAt (handle r f g w)
  handle-Lively (ok a) w f g (fine, o) h = h a w o
  handle-Lively (err e) w f g (fine, o) h = absurd (fine e refl)
  handle-Lively panic w f g (fine, o) h = ((λ e h. cc), o)

  pub Lively-try :
      {A B : Type 0} (m : Action W A) (f : A → Action W B) (g : Error → Action W B)
      → Lively m
      → ((a : A) → Lively (f a))
      → Lively (try_else m f g)
  Lively-try m f g h k w o = handle-Lively (m w).0 (m w).1 f g (h w o) k

  -- An action whose error is dropped.
  pub Lively-ignore :
      {A : Type 0} (m : Action W A) → ((w : W) → Open w → Open (m w).1) → Lively (ignore m)
  Lively-ignore {A = A} m h w o = ignored (m w).0 (m w).1 (h w o)
    where
      ignored :
          (r : Result A) (v : W)
          → Open v
          → LivelyAt {A = Unit {0}} (handle r (λ a. pure tt) (λ e. pure tt) v)
      ignored (ok a) v p = ((λ e g. ok-ne-err (sym g)), p)
      ignored (err x) v p = ((λ e g. ok-ne-err (sym g)), p)
      ignored panic v p = ((λ e g. cc), p)

  pub Lively-pure : {A : Type 0} (a : A) → Lively {A = A} (pure a)
  Lively-pure a w o = ((λ e h. ok-ne-err (sym h)), o)

  abbrev pub Brisk : {A : Type 0} → Action W A → W → Type 0
  Brisk m w = Finishes m w (λ a w'. Open w') (λ e w'. ⊥) (λ w'. Open w')

  -- It returns, and leaves a world that is open.
  abbrev pub Sure : {A : Type 0} → Action W A → W → Type 0
  Sure m w = Finishes m w (λ a w'. Open w') (λ e w'. ⊥) (λ w'. ⊥)

  pub Sure-Brisk : {A : Type 0} {m : Action W A} {w : W} → Sure m w → Brisk m w
  Sure-Brisk h = Finishes_mono (λ a w' o. o) (λ e w' b. b) (λ w' b. absurd b) h

  Brisk-by_result :
      {A : Type 0} (m : Action W A) (w w' : W) (r : Result A)
      → m w ≡ (r, w')
      → LivelyAt (r, w')
      → Brisk m w
  Brisk-by_result m w w' (ok a) h (fine, o) = Finishes.returns a w' h o
  Brisk-by_result m w w' (err e) h (fine, o) = absurd (fine e refl)
  Brisk-by_result m w w' panic h (fine, o) = Finishes.panics w' h o

  pub Brisk-Lively : {A : Type 0} (m : Action W A) (w : W) → LivelyAt (m w) → Brisk m w
  Brisk-Lively m w h = Brisk-by_result m w (m w).1 (m w).0 refl h

  pub Lively-Brisk : {A : Type 0} (m : Action W A) (w : W) → Brisk m w → LivelyAt (m w)
  Lively-Brisk m w (Finishes.returns a w' h o) =
      subst LivelyAt (sym h) ((λ e g. ok-ne-err (sym g)), o)
  Lively-Brisk m w (Finishes.fails e w' h b) = absurd b
  Lively-Brisk m w (Finishes.panics w' h o) = subst LivelyAt (sym h) ((λ e g. cc), o)

  -- The server refuses nothing that it has no reason to refuse: every read finds the object or that
  -- there is none, what is not there can be created, and what is there updated and deleted. `Admits`
  -- is its validation: whether it lets an object be written. A delete of what is not there may fail.
  pub record Accepting (Admits : (k : Kind) → W → Obj k → Type 0) (api : Client W) : Type 0 where
    pub reads :
        (k : Kind) (key : Key) (w : W) (e : Error)
        → Open w
        → api.get k key w ≡ err e
        → e ≡ not_found
    pub creates :
        (k : Kind) (o : Obj k) (w : W)
        → Open w
        → api.get k (object_key k o) w ≡ err not_found
        → Admits k w o
        → LivelyAt (api.create k o w)
    pub updates :
        (k : Kind) (o s : Obj k) (w : W)
        → Open w
        → api.get k (object_key k o) w ≡ ok s
        → 0 < (meta_of k o).creation_timestamp
        → Admits k w o
        → LivelyAt (api.update k o w)
    pub updates_status :
        (k : Kind) (o s : Obj k) (w : W)
        → Open w
        → api.get k (object_key k o) w ≡ ok s
        → Admits k w o
        → LivelyAt (api.update_status k o w)
    pub deletes :
        (k : Kind) (o s : Obj k) (w : W)
        → Open w
        → api.get k (object_key k o) w ≡ ok s
        → LivelyAt (api.delete k o w)
    pub after_delete : (k : Kind) (o : Obj k) (w : W) → Open w → Open (api.delete k o w).1
    pub lists :
        (ns : String) (labels : Dict String) (w : W) (e : Error)
        → Open w
        → api.list_snapshots ns labels w ≢ inl e
    pub events : (reason text : String) (w : W) → Open w → Open (api.record_event reason text w)

  module _ (Admits : (k : Kind) → W → Obj k → Type 0) (api : Client W) (k : Kind) (X : Type 0)
      (o : Obj k) (f : Mutate W X k) where
    -- What CreateOrUpdate makes, of a new object or of the one that is there, is let through.
    abbrev pub Passes : Type 0
    Passes =
        (w : W) (s n : Obj k) (x : X)
        → Open w
        → ((s ≡ o) × (api.get k (object_key k o) w ≡ err not_found))
          ⊎ (api.get k (object_key k o) w ≡ ok s)
        → f w s ≡ ok (n, x)
        → Admits k w n

    -- The callback does not fail, and an object keeps its name and its creation time.
    pub record Obliging : Type 0 where
      pub passes : Passes
      pub fine : (w : W) (s : Obj k) (e : Error) → f w s ≡ err e → ⊥
      pub names : (w : W) (n : Obj k) (x : X) → f w o ≡ ok (n, x) → object_key k n ≡ object_key k o
      pub keeps :
          (w : W) (s n : Obj k) (x : X)
          → 0 < (meta_of k s).creation_timestamp
          → f w s ≡ ok (n, x)
          → (object_key k n ≡ object_key k s) × (0 < (meta_of k n).creation_timestamp)

    module _ (law : IsLawful api) (accepting : Accepting Admits api) (obliging : Obliging) (w : W)
        (open' : Open w) where
      write_ends :
          (r : Result (Obj k × X)) (write : Obj k → Action W (Obj k))
          → ((e : Error) → r ≡ err e → ⊥)
          → ((n : Obj k) (x : X) → r ≡ ok (n, x) → LivelyAt (write n w))
          → LivelyAt {A = Obj k × X}
              ((lift r >>= (λ ((n, x) : Obj k × X). write n >>= (λ n' w. (ok (n', x), w)))) w)
      write_ends (ok (n, x)) write fine lively =
          continue-Lively (write n w).0 (write n w).1 (λ n' w. (ok (n', x), w)) (lively n x refl)
            (λ n' w o. ((λ e h. ok-ne-err (sym h)), o))
      write_ends (err e) write fine lively = absurd (fine e refl)
      write_ends panic write fine lively = ((λ e h. cc), open')

      by_get :
          (r : Result (Obj k))
          → api.get k (object_key k o) w ≡ r
          → LivelyAt (api.create_or_update k X o f w)
      by_get panic g = absurd (law.get_no_panic k _ w g)
      by_get (err e) g =
          let absent = g ∙ ap (λ x. err x) (accepting.reads k (object_key k o) w e open' g) in
          rw (law.absent k X o f w absent) (
            write_ends (f w o) (api.create k) (obliging.fine w o) (λ n x h.
              accepting.creates k n w open'
                (ap (λ y. api.get k y w) (obliging.names w n x h) ∙ absent)
                (obliging.passes w o n x open' (inl (refl, absent)) h)))
      by_get (ok s) g = elim (law.present k X o s f w g) [
        | inl run ↦ rw run (
            write_ends (f w s) (api.update k) (obliging.fine w s) (λ n x h.
              let (same, time) = obliging.keeps w s n x (law.get_created k _ w s g) h in
              accepting.updates k n s w open'
                (ap (λ y. api.get k y w) (same ∙ law.get_named k _ w s g) ∙ g) time
                (obliging.passes w s n x open' (inr g) h)))
        | inr (x, m, run) ↦ rw run ((λ e h. ok-ne-err (sym h)), open')
      ]

    pub create_or_update-Lively :
        IsLawful api → Accepting Admits api → Obliging → Lively (api.create_or_update k X o f)
    create_or_update-Lively law accepting obliging w open' =
        by_get law accepting obliging w open' (api.get k (object_key k o) w) refl
