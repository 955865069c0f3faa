-- ===== src/Kube/Client/Frames.antt =====
-- What an operation leaves alone, by a predicate on the objects that it may touch.
use mathlib.Core.Path.{subst, subst₂}
use ds_operator.Prelude.{◌≡◌, ap, ◌∙◌}
use ds_operator.Kube.Meta.{Key}
use ds_operator.Kube.Objects.{Kind}
use ds_operator.Kube.Client.{Client}
use ds_operator.Kube.Client.Laws.{OnlyAt}
use ds_operator.Kube.Client.Keep.{OnlyKind}

module _ {W : Type 0} (api : Client W) where
  -- Every object outside `Touched` is the same in both worlds.
  pub record Frame (Touched : Kind → Key → Type 0) (w w' : W) : Type 0 where
    pub at : (k : Kind) (key : Key) → (Touched k key → ⊥) → api.get k key w' ≡ api.get k key w

  module _ {T : Kind → Key → Type 0} where
    pub Frame-same : (w w' : W) → w' ≡ w → Frame T w w'
    Frame-same w w' same = record { at = λ k key n. ap (api.get k key) same }

    pub Frame-trans : {w w' w'' : W} → Frame T w w' → Frame T w' w'' → Frame T w w''
    Frame-trans p q = record { at = λ k key n. q.at k key n ∙ p.at k key n }

    pub Frame-OnlyKind :
        (k : Kind) {w w' : W} → ((key : Key) → T k key) → OnlyKind api k w w' → Frame T w w'
    Frame-OnlyKind k f p = record {
      at = λ k' key n. p.at k' key (λ e. n (subst (λ x. T x key) e (f key)));
    }

    pub Frame-OnlyAt :
        (k : Kind) (key : Key) {w w' : W} → T k key → OnlyAt api k key w w' → Frame T w w'
    Frame-OnlyAt k key t p = record { at = λ k' key' n. p k' key' (λ e e'. n (subst₂ T e e' t)) }

    pub Frame-subset :
        {S : Kind → Key → Type 0} {w w' : W}
        → ((k : Kind) (key : Key) → S k key → T k key)
        → Frame S w w'
        → Frame T w w'
    Frame-subset f p = record { at = λ k key n. p.at k key (λ s. n (f k key s)) }
