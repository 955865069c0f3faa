-- ===== src/Ldap/Laws.antt =====
-- What the operator relies on of go-ldap and of the directory server, as they document it.
use ds_operator.Prelude.{
  ℕ, suc, String, Option, some, ◌≡◌, ◌≢◌, refl, ◌∙◌, Result, Action, Ends, ok, err, panic, continue,
  ◌>>=◌,
}
use ds_operator.Kube.Meta.{Key}
use ds_operator.Kube.Objects.{Kind, Obj}
use ds_operator.Kube.Client.{Client}
use ds_operator.Ldap.{Directory}

-- What can be told of a world: the password with which the server lets a DN bind, and the number of
-- connections that are open.
pub record View (W : Type 0) : Type 0 where
  pub password_of : String → W → Option String
  pub opened : W → ℕ

abbrev pub Nobody : String → Type 0
Nobody dn = ⊥

module _ {W : Type 0} (api : Client W) (dir : Directory W) (view : View W) where
  -- From `w` to `w'` only passwords of the DNs of `Touched` have changed, and the same number of
  -- connections is open.
  pub record Moved (Touched : String → Type 0) (w w' : W) : Type 0 where
    pub objects : (k : Kind) (key : Key) → api.get k key w' ≡ api.get k key w
    pub opened : view.opened w' ≡ view.opened w
    pub others : (dn : String) → (Touched dn → ⊥) → view.password_of dn w' ≡ view.password_of dn w

  -- Neither objects nor passwords have changed.
  pub record Still (w w' : W) : Type 0 where
    pub objects : (k : Kind) (key : Key) → api.get k key w' ≡ api.get k key w
    pub passwords : (dn : String) → view.password_of dn w' ≡ view.password_of dn w

  -- A close on the nil connection that is a panic.
  abbrev pub NilClose : Type 0
  NilClose = (w : W) × ((dir.close_unopened w).0 ≡ panic)

  pub record IsLawful : Type 0 where
    pub dial_outcome :
        (url : String) (w : W)
        → Ends
            (dir.dial url)
            w
            (λ _ w'. Still w w' × (view.opened w' ≡ suc (view.opened w)))
            (λ _ w'. Moved Nobody w w')
    -- a bind with the empty password is refused, and no DN has it
    pub bind_outcome :
        (c : dir.Conn) (dn password : String) (w : W)
        → Ends
            (dir.bind c dn password)
            w
            (λ _ w'. Moved Nobody w w' × (view.password_of dn w ≡ some password))
            (λ _ w'. Moved Nobody w w')
    -- for the empty password the server makes one of its own
    pub modify_outcome :
        (c : dir.Conn) (dn password : String) (w : W)
        → Ends
            (dir.password_modify c dn password)
            w
            (λ _ w'.
              Moved (λ dn'. dn' ≡ dn) w w'
              × (password ≢ "" → view.password_of dn w' ≡ some password))
            (λ _ w'. Moved Nobody w w')
    -- of a connection that is open, whatever it returns
    pub close_outcome :
        (c : dir.Conn) (w : W) (n : ℕ)
        → view.opened w ≡ suc n
        → Ends
            (dir.close c)
            w
            (λ _ w'. Still w w' × (view.opened w' ≡ n))
            (λ _ w'. Still w w' × (view.opened w' ≡ n))
    pub close_unopened_outcome : (w : W) → Moved Nobody w (dir.close_unopened w).1

  pub Moved-refl : {T : String → Type 0} (w : W) → Moved T w w
  Moved-refl w = record { objects = λ k key. refl; opened = refl; others = λ dn n. refl }

  pub Moved-trans :
      {T T' S : String → Type 0} {w w' w'' : W}
      → ((dn : String) → T dn → S dn)
      → ((dn : String) → T' dn → S dn)
      → Moved T w w'
      → Moved T' w' w''
      → Moved S w w''
  Moved-trans f g p q = record {
    objects = λ k key. q.objects k key ∙ p.objects k key;
    opened = q.opened ∙ p.opened;
    others = λ dn n. q.others dn (λ t. n (g dn t)) ∙ p.others dn (λ t. n (f dn t));
  }

module _ {W : Type 0} (view : View W) where
  -- The directory server and its connections are as they were.
  pub record SameView (w w' : W) : Type 0 where
    pub opened : view.opened w' ≡ view.opened w
    pub passwords : (dn : String) → view.password_of dn w' ≡ view.password_of dn w

  pub SameView-trans : {w w' w'' : W} → SameView w w' → SameView w' w'' → SameView w w''
  SameView-trans p q = record {
    opened = q.opened ∙ p.opened;
    passwords = λ dn. q.passwords dn ∙ p.passwords dn;
  }

  abbrev pub Aside : {A : Type 0} → Action W A → Type 0
  Aside m = (w : W) → SameView w (m w).1

  -- Writes to the API server do nothing to the directory server.
  pub record IsAside (api : Client W) : Type 0 where
    pub update : (k : Kind) (o : Obj k) → Aside (api.update k o)
    pub update_status : (k : Kind) (o : Obj k) → Aside (api.update_status k o)

  continue-Aside :
      {A B : Type 0} (r : Result A) (f : A → Action W B) (w w' : W)
      → SameView w w'
      → ((a : A) → Aside (f a))
      → SameView w (continue r f w').1
  continue-Aside (ok a) f w w' s h = SameView-trans s (h a w')
  continue-Aside (err e) f w w' s h = s
  continue-Aside panic f w w' s h = s

  pub Aside-bind :
      {A B : Type 0} (m : Action W A) (f : A → Action W B)
      → Aside m
      → ((a : A) → Aside (f a))
      → Aside (m >>= f)
  Aside-bind m f h g w = continue-Aside (m w).0 f w (m w).1 (h w) g
