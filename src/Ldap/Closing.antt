-- ===== src/Ldap/Closing.antt =====
-- pkg/ldap/client.go: no connection stays open but the administrator's.
use ds_operator.Prelude.{
  ℕ, suc, String, some, ◌≡◌, refl, ◌∙◌, Error, Result, Action, Ends, ok, err, panic, Finishes,
  Ends-try, raise, Finishes-Ends, Finishes-try, Finishes_mono, sym,
}
use ds_operator.Kube.Client.{Client}
use ds_operator.Ldap.{
  Directory, DsConnection, bind_password, connect, bind_admin, closing, cant_bind, cant_open,
}
use ds_operator.Ldap.Laws.{View, Moved, Nobody, Still, NilClose, IsLawful, Moved-trans}

module _ {W : Type 0} (api : Client W) (dir : Directory W) (view : View W) where
  joined :
      {T : String → Type 0} {w1 w2 w3 w4 : W}
      → Still api dir view w1 w2
      → Moved api dir view T w2 w3
      → Still api dir view w3 w4
      → view.opened w4 ≡ view.opened w1
      → Moved api dir view T w1 w4
  joined s m s' o = record {
    objects = λ k key. s'.objects k key ∙ m.objects k key ∙ s.objects k key;
    opened = o;
    others = λ dn n. s'.passwords dn ∙ m.others dn n ∙ s.passwords dn;
  }

  quiet :
      {w w' w'' : W}
      → Moved api dir view Nobody w w'
      → Moved api dir view Nobody w' w''
      → Moved api dir view Nobody w w''
  quiet m n = Moved-trans api dir view (λ dn t. t) (λ dn t. t) m n

  -- A deferred close hands the result on, whatever the close returns.
  pub closing-done :
      {A : Type 0} (c : Action W (Unit {0})) (r : Result A) (w : W) (S : W → Type 0)
      → Ends c w (λ x w'. S w') (λ e w'. S w')
      → (w' : W) × (closing dir c r w ≡ (r, w')) × S w'
  closing-done c r w S (Ends.returns x w' e s) = (w', rw e refl, s)
  closing-done c r w S (Ends.fails x w' e s) = (w', rw e refl, s)

  module _ (law : IsLawful api dir view) (ds : DsConnection dir) (dn password : String) where
    pub bound :
        (t : dir.Conn) (w w1 : W)
        → Still api dir view w w1
        → view.opened w1 ≡ suc (view.opened w)
        → Finishes
            (λ w. let done = dir.bind t dn password w in closing dir (dir.close t) done.0 done.1)
            w1
            (λ x w'. Moved api dir view Nobody w w' × (view.password_of dn w ≡ some password))
            (λ e w'. Moved api dir view Nobody w w')
            (λ w'. ⊥)
    bound t w w1 s o = elim (law.bind_outcome t dn password w1) [
      | Ends.returns x w2 e (m, p) ↦
          let (w3, run, (s', o')) =
            closing-done (dir.close t) (ok x) w2
              (λ w3. Still api dir view w2 w3 × (view.opened w3 ≡ view.opened w))
              (law.close_outcome t w2 (view.opened w) (m.opened ∙ o)) in
          Finishes.returns x w3 (rw e run) (joined s m s' o', sym (s.passwords dn) ∙ p)
      | Ends.fails x w2 e m ↦
          let (w3, run, (s', o')) =
            closing-done {A = Unit {0}} (dir.close t) (err x) w2
              (λ w3. Still api dir view w2 w3 × (view.opened w3 ≡ view.opened w))
              (law.close_outcome t w2 (view.opened w) (m.opened ∙ o)) in
          Finishes.fails x w3 (rw e run) (joined s m s' o')
    ]

    nil_close :
        (e : Error) (w : W) (r : Result (Unit {0})) (w' : W)
        → dir.close_unopened w ≡ (r, w')
        → Moved api dir view Nobody w w'
        → Finishes
            (closing dir dir.close_unopened (err e))
            w
            (λ (x : Unit {0}) w'. ⊥)
            (λ e w'. Moved api dir view Nobody w w')
            (λ w'. Moved api dir view Nobody w w' × NilClose api dir view)
    nil_close e w (ok x) w' h m = Finishes.fails e w' (rw h refl) m
    nil_close e w (err x) w' h m = Finishes.fails e w' (rw h refl) m
    nil_close e w panic w' h m = Finishes.panics w' (rw h refl) (m, (w, rw h refl))

    pub bind_password-Finishes :
        (w : W)
        → Finishes
            (bind_password dir ds dn password)
            w
            (λ x w'. Moved api dir view Nobody w w' × (view.password_of dn w ≡ some password))
            (λ e w'. Moved api dir view Nobody w w')
            (λ w'. Moved api dir view Nobody w w' × NilClose api dir view)
    unfolding bind_password
    bind_password-Finishes w =
        Finishes-try (dir.dial ds.url) w
          (λ t w. let done = dir.bind t dn password w in closing dir (dir.close t) done.0 done.1)
          (λ e. closing dir dir.close_unopened (err e))
          (Finishes-Ends {R = λ w'. ⊥} (law.dial_outcome ds.url w))
          (λ t w1 (s, o).
            Finishes_mono (λ x w' p. p) (λ e w' q. q) (λ w' r. absurd r) (bound t w w1 s o))
          (λ e w1 m.
            let v = dir.close_unopened w1 in
            Finishes_mono (λ x w' n. absurd n) (λ e w' n. quiet m n) (λ w' (n, p). (quiet m n, p))
              (nil_close e w1 v.0 v.1 refl (law.close_unopened_outcome w1)))
          (λ w1 r. absurd r)

  module _ (law : IsLawful api dir view) where
    admin_bound :
        (url dn password : String) (c : dir.Conn) (w w1 : W)
        → Still api dir view w w1
        → view.opened w1 ≡ suc (view.opened w)
        → Ends
            (bind_admin dir url dn password c)
            w1
            (λ x w'.
              Still api dir view w w'
              × (view.opened w' ≡ suc (view.opened w))
              × (view.password_of dn w ≡ some password))
            (λ e w'. Moved api dir view Nobody w w')
    unfolding bind_admin
    admin_bound url dn password c w w1 s o = elim (law.bind_outcome c dn password w1) [
      | Ends.returns x w2 e (m, p) ↦
          Ends.returns (record { url = url; dn = dn; password = password; ldap = c }) w2 (rw e refl)
            (
              record {
                objects = λ k key. m.objects k key ∙ s.objects k key;
                passwords = λ d. m.others d (λ b. b) ∙ s.passwords d;
              },
              m.opened ∙ o,
              sym (s.passwords dn) ∙ p,
            )
      | Ends.fails x w2 e m ↦ elim (law.close_outcome c w2 (view.opened w) (m.opened ∙ o)) [
        | Ends.returns y w3 e' (s', o') ↦
            Ends.fails (cant_bind url dn (dir.error_text x)) w3 (rw (e, e') refl) (joined s m s' o')
        | Ends.fails y w3 e' (s', o') ↦
            Ends.fails (cant_bind url dn (dir.error_text x)) w3 (rw (e, e') refl) (joined s m s' o')
      ]
    ]

    -- connect does not panic. If it returns, one more connection is open, on which the DN was bound
    -- with its password; if it fails, no connection is left open; and in both cases no object and no
    -- password has changed.
    pub connect-ends :
        (url dn password : String) (w : W)
        → Ends
            (connect dir url dn password)
            w
            (λ c w'.
              Still api dir view w w'
              × (view.opened w' ≡ suc (view.opened w))
              × (view.password_of dn w ≡ some password))
            (λ e w'. Moved api dir view Nobody w w')
    unfolding connect
    connect-ends url dn password w =
        Ends-try (dir.dial url) (bind_admin dir url dn password)
          (λ e. raise (cant_open url dn (dir.error_text e))) w (law.dial_outcome url w)
          (λ c w1 (s, o). admin_bound url dn password c w w1 s o)
          (λ e w1 m. Ends.fails (cant_open url dn (dir.error_text e)) w1 refl m)

  -- `w'` is `v` but for one connection that has been closed, of `n` and that one.
  abbrev pub Closed : ℕ → W → W → Type 0
  Closed n v w' = Still api dir view v w' × (view.opened w' ≡ n)

  module _ {A : Type 0} (c : dir.Conn) (m : Action W A) (w : W) (n : ℕ) where
    after_close :
        (r : Result A) (v : W)
        → IsLawful api dir view
        → m w ≡ (r, v)
        → view.opened v ≡ suc n
        → (w' : W) × ((let done = m w in closing dir (dir.close c) done.0 done.1) ≡ (r, w'))
          × Closed n v w'
    after_close r v law run o =
        let (w', done, closed) =
          closing-done (dir.close c) r v (Closed n v) (law.close_outcome c v n o) in
        (w', rw run done, closed)

    -- The deferred close comes after every end of an action, a panic included.
    pub closing-Finishes :
        {P : A → W → Type 0} {Q : Error → W → Type 0} {R : W → Type 0}
        → IsLawful api dir view
        → Finishes m w P Q R
        → ((a : A) (v : W) → P a v → view.opened v ≡ suc n)
        → ((e : Error) (v : W) → Q e v → view.opened v ≡ suc n)
        → ((v : W) → R v → view.opened v ≡ suc n)
        → Finishes
            (λ w. let done = m w in closing dir (dir.close c) done.0 done.1)
            w
            (λ a w'. (v : W) × P a v × Closed n v w')
            (λ e w'. (v : W) × Q e v × Closed n v w')
            (λ w'. (v : W) × R v × Closed n v w')
    closing-Finishes law (Finishes.returns a v run p) f g h =
        let (w', done, closed) = after_close (ok a) v law run (f a v p) in
        Finishes.returns a w' done (v, p, closed)
    closing-Finishes law (Finishes.fails e v run q) f g h =
        let (w', done, closed) = after_close (err e) v law run (g e v q) in
        Finishes.fails e w' done (v, q, closed)
    closing-Finishes law (Finishes.panics v run r) f g h =
        let (w', done, closed) = after_close panic v law run (h v r) in
        Finishes.panics w' done (v, r, closed)
