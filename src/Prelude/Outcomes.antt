-- ===== src/Prelude/Outcomes.antt =====
-- How an action ends: it returns with one postcondition, or fails with another. It does not panic.
use mathlib.Core.Logic.{◌⊎◌, inl, inr}
use mathlib.Core.Path.{◌≡◌, refl, sym, ap, ◌∙◌, subst₂}
use ds_operator.Prelude.Actions.{
  Error, not_found, external, message, wrap, Result, Action, ok, err, panic, ◌>>=◌, try_else,
}

-- The API's NotFound is told apart from all other errors.
pub Error-cases : (e : Error) → (e ≡ not_found) ⊎ ((e ≡ not_found) → ⊥)
Error-cases not_found = inl refl
Error-cases (external s) = inr (λ h. cc)
Error-cases (message s) = inr (λ h. cc)
Error-cases (wrap s e) = inr (λ h. cc)

pub data Ends {W A : Type 0} (m : Action W A) (w : W) (P : A → W → Type 0) (Q : Error → W → Type 0)
    : Type 0 where
  returns : (a : A) (w' : W) → m w ≡ (ok a, w') → P a w' → Ends m w P Q
  fails : (e : Error) (w' : W) → m w ≡ (err e, w') → Q e w' → Ends m w P Q

module _ {W A B : Type 0} (m : Action W A) (f : A → Action W B) (w : W) {R : B → W → Type 0}
    {Q : Error → W → Type 0} where
  bind_returns : (a : A) (w' : W) → m w ≡ (ok a, w') → Ends (f a) w' R Q → Ends (m >>= f) w R Q
  bind_returns a w' e (Ends.returns b w'' e' r) = Ends.returns b w'' (rw e e') r
  bind_returns a w' e (Ends.fails x w'' e' q) = Ends.fails x w'' (rw e e') q

  pub Ends-bind :
      {P : A → W → Type 0}
      → Ends m w P Q
      → ((a : A) (w' : W) → P a w' → Ends (f a) w' R Q)
      → Ends (m >>= f) w R Q
  Ends-bind (Ends.returns a w' e p) next = bind_returns a w' e (next a w' p)
  Ends-bind (Ends.fails x w' e q) next = Ends.fails x w' (rw e) q

module _ {W A B : Type 0} (m : Action W A) (f : A → Action W B) (g : Error → Action W B) (w : W)
    {R : B → W → Type 0} {S : Error → W → Type 0} where
  try_as :
      {w' : W} (m' : Action W B)
      → try_else m f g w ≡ m' w'
      → Ends m' w' R S
      → Ends (try_else m f g) w R S
  try_as m' h (Ends.returns b w'' e r) = Ends.returns b w'' (h ∙ e) r
  try_as m' h (Ends.fails x w'' e q) = Ends.fails x w'' (h ∙ e) q

  pub Ends-try :
      {P : A → W → Type 0} {Q : Error → W → Type 0}
      → Ends m w P Q
      → ((a : A) (w' : W) → P a w' → Ends (f a) w' R S)
      → ((e : Error) (w' : W) → Q e w' → Ends (g e) w' R S)
      → Ends (try_else m f g) w R S
  Ends-try (Ends.returns a w' e p) good bad = try_as (f a) (rw e refl) (good a w' p)
  Ends-try (Ends.fails x w' e q) good bad = try_as (g x) (rw e refl) (bad x w' q)

module _ {A : Type 0} where
  pub ok-injective : {a b : A} → ◌≡◌ {A = Result A} (ok a) (ok b) → a ≡ b
  ok-injective h = cc

  pub ok-ne-err : {a : A} {e : Error} → ◌≡◌ {A = Result A} (err e) (ok a) → ⊥
  ok-ne-err h = cc

  pub ok-ne-panic : {a : A} → ◌≡◌ {A = Result A} (ok a) panic → ⊥
  ok-ne-panic h = cc

  pub err-injective : {a b : Error} → ◌≡◌ {A = Result A} (err a) (err b) → a ≡ b
  err-injective h = cc

module _ {W A : Type 0} {m : Action W A} {w : W} {P : A → W → Type 0} {Q : Error → W → Type 0} where
  pub Ends_mono :
      {P' : A → W → Type 0} {Q' : Error → W → Type 0}
      → ((a : A) (w' : W) → P a w' → P' a w')
      → ((e : Error) (w' : W) → Q e w' → Q' e w')
      → Ends m w P Q
      → Ends m w P' Q'
  Ends_mono f g (Ends.returns a w' e p) = Ends.returns a w' e (f a w' p)
  Ends_mono f g (Ends.fails x w' e q) = Ends.fails x w' e (g x w' q)

  -- What an action that is known to have returned has established.
  pub Ends-ok : Ends m w P Q → (a : A) (w' : W) → m w ≡ (ok a, w') → P a w'
  Ends-ok (Ends.returns b w'' e p) a w' h =
      let same = sym e ∙ h in
      subst₂ P (ok-injective (ap (λ (r, _). r) same)) (ap (λ (_, v). v) same) p
  Ends-ok (Ends.fails x w'' e q) a w' h = absurd (ok-ne-err {A = A} (ap (λ (r, _). r) (sym e ∙ h)))

  -- What an action that is known to have failed has established.
  pub Ends-err : Ends m w P Q → (e : Error) (w' : W) → m w ≡ (err e, w') → Q e w'
  Ends-err (Ends.returns b w'' e p) x w' h =
      absurd (ok-ne-err {A = A} (ap (λ (r, _). r) (sym h ∙ e)))
  Ends-err (Ends.fails x w'' e q) y w' h =
      let same = sym e ∙ h in
      subst₂ Q (err-injective {A = A} (ap (λ (r, _). r) same)) (ap (λ (_, v). v) same) q

  -- Only what an action does in the world at hand matters.
  pub Ends_at : {m' : Action W A} → m' w ≡ m w → Ends m w P Q → Ends m' w P Q
  Ends_at h (Ends.returns a w' e p) = Ends.returns a w' (h ∙ e) p
  Ends_at h (Ends.fails e w' h' q) = Ends.fails e w' (h ∙ h') q

-- Two things that are known of one action hold together.
module _ {W A : Type 0} {m : Action W A} {w : W} {P P' : A → W → Type 0}
    {Q Q' : Error → W → Type 0} where
  pub Ends-and :
      Ends m w P Q → Ends m w P' Q' → Ends m w (λ a w'. P a w' × P' a w') (λ e w'. Q e w' × Q' e w')
  Ends-and (Ends.returns a w' e p) h = Ends.returns a w' e (p, Ends-ok h a w' e)
  Ends-and (Ends.fails x w' e q) h = Ends.fails x w' e (q, Ends-err h x w' e)
