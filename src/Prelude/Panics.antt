-- ===== src/Prelude/Panics.antt =====
-- How an action ends where a panic is one of its ends: it returns, fails or panics, each with a
-- postcondition of its own.
use mathlib.Core.Path.{◌≡◌, ap, refl, sym, subst, ◌∙◌}
use ds_operator.Prelude.Actions.{Error, Result, Action, ok, err, panic, ◌>>=◌, try_else}
use ds_operator.Prelude.Outcomes.{Ends}

pub data Finishes {W A : Type 0} (m : Action W A) (w : W) (P : A → W → Type 0)
    (Q : Error → W → Type 0) (R : W → Type 0) : Type 0 where
  returns : (a : A) (w' : W) → m w ≡ (ok a, w') → P a w' → Finishes m w P Q R
  fails : (e : Error) (w' : W) → m w ≡ (err e, w') → Q e w' → Finishes m w P Q R
  panics : (w' : W) → m w ≡ (panic, w') → R w' → Finishes m w P Q R

module _ {W A : Type 0} {m : Action W A} {w : W} {P : A → W → Type 0} {Q : Error → W → Type 0}
    {R : W → Type 0} where
  pub Finishes-Ends : Ends m w P Q → Finishes m w P Q R
  Finishes-Ends (Ends.returns a w' e p) = Finishes.returns a w' e p
  Finishes-Ends (Ends.fails x w' e q) = Finishes.fails x w' e q

  pub Finishes_mono :
      {P' : A → W → Type 0} {Q' : Error → W → Type 0} {R' : W → Type 0}
      → ((a : A) (w' : W) → P a w' → P' a w')
      → ((e : Error) (w' : W) → Q e w' → Q' e w')
      → ((w' : W) → R w' → R' w')
      → Finishes m w P Q R
      → Finishes m w P' Q' R'
  Finishes_mono f g h (Finishes.returns a w' e p) = Finishes.returns a w' e (f a w' p)
  Finishes_mono f g h (Finishes.fails x w' e q) = Finishes.fails x w' e (g x w' q)
  Finishes_mono f g h (Finishes.panics w' e r) = Finishes.panics w' e (h w' r)

  -- Only what an action does in the worlds at hand matters.
  pub Finishes_at :
      (m' : Action W A) (v : W) → m w ≡ m' v → Finishes m' v P Q R → Finishes m w P Q R
  Finishes_at m' v h (Finishes.returns a w' e p) = Finishes.returns a w' (h ∙ e) p
  Finishes_at m' v h (Finishes.fails x w' e q) = Finishes.fails x w' (h ∙ e) q
  Finishes_at m' v h (Finishes.panics w' e r) = Finishes.panics w' (h ∙ e) r

-- An action without a panic among its ends.
pub Finishes-ne-panic :
    {W A : Type 0} {m : Action W A} {w : W} {P : A → W → Type 0} {Q : Error → W → Type 0}
    → Finishes m w P Q (λ w'. ⊥)
    → ◌≡◌ {A = Result A} (m w).0 panic
    → ⊥
Finishes-ne-panic {A = A} (Finishes.returns a w' e p) h =
    let x : ◌≡◌ {A = Result A} (ok a) panic = ap (λ (r, v). r) (sym e) ∙ h in cc
Finishes-ne-panic {A = A} (Finishes.fails x w' e q) h =
    let y : ◌≡◌ {A = Result A} (err x) panic = ap (λ (r, v). r) (sym e) ∙ h in cc
Finishes-ne-panic (Finishes.panics w' e r) h = r

module _ {W A B : Type 0} (m : Action W A) (w : W) {P : B → W → Type 0} {Q : Error → W → Type 0}
    {R : W → Type 0} {P' : A → W → Type 0} {Q' : Error → W → Type 0} {R' : W → Type 0} where
  pub Finishes-bind :
      (f : A → Action W B)
      → Finishes m w P' Q' R'
      → ((a : A) (w' : W) → P' a w' → Finishes (f a) w' P Q R)
      → ((e : Error) (w' : W) → Q' e w' → Q e w')
      → ((w' : W) → R' w' → R w')
      → Finishes (m >>= f) w P Q R
  Finishes-bind f (Finishes.returns a w' e p) next q r =
      Finishes_at (f a) w' (rw e refl) (next a w' p)
  Finishes-bind f (Finishes.fails x w' e p) next q r = Finishes.fails x w' (rw e refl) (q x w' p)
  Finishes-bind f (Finishes.panics w' e p) next q r = Finishes.panics w' (rw e refl) (r w' p)

  pub Finishes-try :
      (f : A → Action W B) (g : Error → Action W B)
      → Finishes m w P' Q' R'
      → ((a : A) (w' : W) → P' a w' → Finishes (f a) w' P Q R)
      → ((e : Error) (w' : W) → Q' e w' → Finishes (g e) w' P Q R)
      → ((w' : W) → R' w' → R w')
      → Finishes (try_else m f g) w P Q R
  Finishes-try f g (Finishes.returns a w' e p) next other r =
      Finishes_at (f a) w' (rw e refl) (next a w' p)
  Finishes-try f g (Finishes.fails x w' e p) next other r =
      Finishes_at (g x) w' (rw e refl) (other x w' p)
  Finishes-try f g (Finishes.panics w' e p) next other r = Finishes.panics w' (rw e refl) (r w' p)

-- What a result and the world after it have to meet.
abbrev Meets :
    {W A : Type 0} → (A → W → Type 0) → (Error → W → Type 0) → (W → Type 0) → Result A × W → Type 0
Meets P Q R (ok a, w) = P a w
Meets P Q R (err e, w) = Q e w
Meets P Q R (panic, w) = R w

Finishes-Meets :
    {W A : Type 0} {m : Action W A} {w : W} (P : A → W → Type 0) (Q : Error → W → Type 0)
    (R : W → Type 0)
    → Finishes m w P Q R
    → Meets P Q R (m w)
Finishes-Meets P Q R (Finishes.returns a w' e p) = subst (Meets P Q R) (sym e) p
Finishes-Meets P Q R (Finishes.fails x w' e q) = subst (Meets P Q R) (sym e) q
Finishes-Meets P Q R (Finishes.panics w' e r) = subst (Meets P Q R) (sym e) r

-- Two things that are known of one action hold together.
pub Finishes-and :
    {W A : Type 0} {m : Action W A} {w : W} {P P' : A → W → Type 0} {Q Q' : Error → W → Type 0}
    {R R' : W → Type 0}
    → Finishes m w P Q R
    → Finishes m w P' Q' R'
    → Finishes m w (λ a w'. P a w' × P' a w') (λ e w'. Q e w' × Q' e w') (λ w'. R w' × R' w')
Finishes-and {P' = P'} {Q' = Q'} {R' = R'} (Finishes.returns a w' e p) h =
    Finishes.returns a w' e (p, subst (Meets P' Q' R') e (Finishes-Meets P' Q' R' h))
Finishes-and {P' = P'} {Q' = Q'} {R' = R'} (Finishes.fails x w' e q) h =
    Finishes.fails x w' e (q, subst (Meets P' Q' R') e (Finishes-Meets P' Q' R' h))
Finishes-and {P' = P'} {Q' = Q'} {R' = R'} (Finishes.panics w' e r) h =
    Finishes.panics w' e (r, subst (Meets P' Q' R') e (Finishes-Meets P' Q' R' h))
