-- ===== src/Ldap/Calm.antt =====
-- pkg/ldap/client.go: no panic while the directory server can be reached.
use ds_operator.Prelude.{
  ◌≡◌, refl, String, Error, Result, Action, ok, err, panic, continue, handle, ◌>>=◌, try_else, pure,
  Finishes, lift, ◌≢◌, ok-ne-panic, suc, ap, Ends, Finishes-Ends, Finishes-try, Finishes_mono,
  Finishes-ne-panic,
}
use ds_operator.Kube.Client.{Client}
use ds_operator.Ldap.Laws.{View, Still, IsLawful}
use ds_operator.Ldap.Closing.{bound}
use ds_operator.Ldap.{Directory, DsConnection, closing, bind_password, update_password}
use ds_operator.Ldap.Live.{IsApart, Reached, bind_password-Steady}

module _ {W : Type 0} (Open : W → Type 0) where
  -- From a world that is open the action does not panic, and leaves one that is open.
  abbrev pub CalmAt : {A : Type 0} → Result A × W → Type 0
  CalmAt {A} done = (◌≢◌ {A = Result A} done.0 panic) × Open done.1

  abbrev pub Calm : {A : Type 0} → Action W A → Type 0
  Calm m = (w : W) → Open w → CalmAt (m w)

  continue-Calm :
      {A B : Type 0} (r : Result A) (w : W) (f : A → Action W B)
      → CalmAt (r, w)
      → ((a : A) → Calm (f a))
      → CalmAt (continue r f w)
  continue-Calm (ok a) w f (safe, o) g = g a w o
  continue-Calm (err e) w f (safe, o) g = ((λ h. cc), o)
  continue-Calm panic w f (safe, o) g = absurd (safe refl)

  pub Calm-bind :
      {A B : Type 0} (m : Action W A) (f : A → Action W B)
      → Calm m
      → ((a : A) → Calm (f a))
      → Calm (m >>= f)
  Calm-bind m f h g w o = continue-Calm (m w).0 (m w).1 f (h w o) g

  handle-Calm :
      {A B : Type 0} (r : Result A) (w : W) (f : A → Action W B) (g : Error → Action W B)
      → CalmAt (r, w)
      → ((a : A) → Calm (f a))
      → ((e : Error) → Calm (g e))
      → CalmAt (handle r f g w)
  handle-Calm (ok a) w f g (safe, o) h k = h a w o
  handle-Calm (err e) w f g (safe, o) h k = k e w o
  handle-Calm panic w f g (safe, o) h k = absurd (safe refl)

  pub Calm-try :
      {A B : Type 0} (m : Action W A) (f : A → Action W B) (g : Error → Action W B)
      → Calm m
      → ((a : A) → Calm (f a))
      → ((e : Error) → Calm (g e))
      → Calm (try_else m f g)
  Calm-try m f g h k l w o = handle-Calm (m w).0 (m w).1 f g (h w o) k l

  pub Calm-lift : {A : Type 0} (r : Result A) → r ≢ panic → Calm (lift r)
  Calm-lift r safe w o = (safe, o)

  pub Calm-pure : {A : Type 0} (a : A) → Calm {A = A} (pure a)
  Calm-pure a w o = ((λ h. ok-ne-panic h), o)

  calm-by_result :
      {A : Type 0} (m : Action W A) (w w' : W) (r : Result A)
      → m w ≡ (r, w')
      → CalmAt (r, w')
      → Finishes m w (λ a w'. Open w') (λ e w'. Open w') (λ w'. ⊥)
  calm-by_result m w w' (ok a) h (safe, o) = Finishes.returns a w' h o
  calm-by_result m w w' (err e) h (safe, o) = Finishes.fails e w' h o
  calm-by_result m w w' panic h (safe, o) = absurd (safe refl)

  pub Finishes-Calm :
      {A : Type 0} (m : Action W A) (w : W)
      → CalmAt (m w)
      → Finishes m w (λ a w'. Open w') (λ e w'. Open w') (λ w'. ⊥)
  Finishes-Calm m w c = calm-by_result m w (m w).1 (m w).0 refl c

  module _ (dir : Directory W) (apart : IsApart Open dir) where
    -- While the server can be reached, BindPassword does not come to close the nil connection.
    module _ (api : Client W) (view : View W) (lawful : IsLawful api dir view)
        (reached : Reached Open dir) where
      pub bind_password-Calm :
          (ds : DsConnection dir) (dn password : String) → Calm (bind_password dir ds dn password)
      unfolding bind_password
      bind_password-Calm ds dn password w o = (
        Finishes-ne-panic (
            Finishes-try (dir.dial ds.url) w
              (λ t w.
                let done = dir.bind t dn password w in closing dir (dir.close t) done.0 done.1)
              (λ e. closing dir dir.close_unopened (err e)) dialled
              (λ t w1 (s, n).
                Finishes_mono (λ x w' p. p) (λ e w' q. q) (λ w' r. r)
                  (bound api dir view lawful ds dn password t w w1 s n))
              (λ e w1 b. absurd b) (λ w1 r. r)),
        bind_password-Steady Open dir apart ds dn password w o,
      )
        where
          dialled :
              Finishes
                (dir.dial ds.url)
                w
                (λ t w1. Still api dir view w w1 × (view.opened w1 ≡ suc (view.opened w)))
                (λ e w1. ⊥)
                (λ w1. ⊥)
          dialled = elim (lawful.dial_outcome ds.url w) [
            | Ends.returns t w1 run p ↦ Finishes.returns t w1 run p
            | Ends.fails e w1 run q ↦ absurd (reached ds.url w e o (ap (λ (r, v). r) run))
          ]

      pub update_password-Calm :
          (ds : DsConnection dir) (dn password : String) → Calm (update_password dir ds dn password)
      unfolding update_password
      update_password-Calm ds dn password w o = (
        Finishes-ne-panic
            (Finishes-Ends {R = λ w'. ⊥} (lawful.modify_outcome ds.ldap dn password w)),
        apart.modify ds.ldap dn password w o,
      )
