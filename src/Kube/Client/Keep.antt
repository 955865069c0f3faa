-- ===== src/Kube/Client/Keep.antt =====
-- Operations that leave every object that is there as it is.
use mathlib.Core.Path.{path_j, ap₂}
use ds_operator.Prelude.{◌<◌, ◌≡◌, ◌≢◌, refl, sym, ◌∙◌, ap, inl, inr, ok, ok-injective, ok-ne-err}
use ds_operator.Kube.Meta.{Key, Key-cases}
use ds_operator.Kube.Objects.{
  Kind, Obj, Kind-discrete, meta_of, object_key, with_status, with_status_self,
}
use ds_operator.Kube.Client.{Client, Mutate}
use ds_operator.Kube.Client.Laws.{IsLawful, OnlyAt}
use ds_operator.Kube.Client.Apply.{Applied}

module _ {W : Type 0} (api : Client W) where
  -- Every object of `w` is in `w'` as it was.
  pub record Preserves (w w' : W) : Type 0 where
    pub at : (k : Kind) (key : Key) (o : Obj k) → api.get k key w ≡ ok o → api.get k key w' ≡ ok o

  -- The objects of the kinds other than `k` are the same in both.
  pub record OnlyKind (k : Kind) (w w' : W) : Type 0 where
    pub at : (k' : Kind) (key : Key) → k ≢ k' → api.get k' key w' ≡ api.get k' key w

  pub Preserves-refl : (w : W) → Preserves w w
  Preserves-refl w = record { at = λ k key o g. g }

  pub Preserves-trans : {w w' w'' : W} → Preserves w w' → Preserves w' w'' → Preserves w w''
  Preserves-trans p q = record { at = λ k key o g. q.at k key o (p.at k key o g) }

  pub OnlyKind-refl : (k : Kind) (w : W) → OnlyKind k w w
  OnlyKind-refl k w = record { at = λ k' key n. refl }

  pub OnlyKind-trans :
      {k : Kind} {w w' w'' : W} → OnlyKind k w w' → OnlyKind k w' w'' → OnlyKind k w w''
  OnlyKind-trans p q = record { at = λ k' key n. q.at k' key n ∙ p.at k' key n }

  pub OnlyAt-OnlyKind : (k : Kind) (key : Key) (w w' : W) → OnlyAt api k key w w' → OnlyKind k w w'
  OnlyAt-OnlyKind k key w w' h = record { at = λ k' key' n. h k' key' (λ p. absurd (n p)) }

  -- Where the one object that may have changed did not, none did.
  pub OnlyAt-Preserves :
      (k : Kind) (key : Key) (w w' : W)
      → OnlyAt api k key w w'
      → ((o : Obj k) → api.get k key w ≡ ok o → api.get k key w' ≡ ok o)
      → Preserves w w'
  OnlyAt-Preserves k key w w' elsewhere same = record {
    at = λ k' key' o g. elim (Kind-discrete k k') [
      | no n ↦ elsewhere k' key' (λ p. absurd (n p)) ∙ g
      | yes p ↦ same_kind k' p key' o g
    ];
  }
    where
      here : (key' : Key) (o : Obj k) → api.get k key' w ≡ ok o → api.get k key' w' ≡ ok o
      here key' o g = elim (Key-cases key key') [
        | inl e ↦ rw (← e) (same o (rw e g))
        | inr n ↦ elsewhere k key' (λ p e. n e) ∙ g
      ]

      same_kind :
          (k' : Kind)
          → k ≡ k'
          → (key' : Key) (o : Obj k') → api.get k' key' w ≡ ok o
          → api.get k' key' w' ≡ ok o
      same_kind k' p =
          path_j
            (λ k' p.
              (key' : Key) (o : Obj k') → api.get k' key' w ≡ ok o → api.get k' key' w' ≡ ok o)
            here p

module _ {W : Type 0} (api : Client W) (k : Kind) (X : Type 0) (o : Obj k) (f : Mutate W X k) where
  -- The callback leaves an object that has been created as it is.
  abbrev pub Idle : W → Type 0
  Idle w = (s : Obj k) → 0 < (meta_of k s).creation_timestamp → (x : X) × (f w s ≡ ok (s, x))

  module _ (law : IsLawful api) {w w' : W} {r : Obj k × X} where
    -- An object that was there is what an idle callback returns.
    pub Applied-old :
        Idle w
        → Applied api k X o f w r w'
        → (s : Obj k) → api.get k (object_key k o) w ≡ ok s
        → r.0 ≡ s
    Applied-old idle a s g = elim a.how [
      | inl c ↦ absurd (ok-ne-err (sym c.was_absent ∙ g))
      | inr u ↦
          let same_old = ok-injective (sym u.was_present ∙ g) in
          let (x, left) = idle s (law.get_created k (object_key k o) w s g) in
          let same_made = ok-injective (sym u.mutated ∙ ap (f w) same_old ∙ left) in
          u.content
          ∙ ap₂ (with_status k) same_old (ap (λ (t, _). t) same_made)
          ∙ with_status_self k s
    ]

    pub Applied-Preserves : Idle w → Applied api k X o f w r w' → Preserves api w w'
    Applied-Preserves idle a =
        OnlyAt-Preserves api k (object_key k o) w w' a.elsewhere
          (λ s g. rw (← Applied-old idle a s g) a.stored)
