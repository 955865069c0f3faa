-- ===== src/Claims/Loop.antt =====
-- controllers/pvc.go, reconcilePVC.
use mathlib.Core.Path.{subst}
use native.Mathlib.Decide.{ℕ_discrete}
use ds_operator.Prelude.{
  ℕ, zero, suc, pos, ℤ, ◌+◌, ◌<◌, ◌≤◌, ◌≡◌, refl, sym, ap, ◌∙◌, ◌⊎◌, inl, inr, ok, Option, some,
  none, [], ◌∷◌, arith, ok-injective, Ends, Ends-bind, Ends_mono, pure,
}
use ds_operator.Kube.Meta.{Key, Key-cases}
use ds_operator.Kube.Volumes.{PersistentVolumeClaim}
use ds_operator.Kube.Objects.{Kind}
use ds_operator.Kube.Client.{Client}
use ds_operator.Kube.Client.Laws.{IsLawful, FreshFrom}
use ds_operator.Kube.Client.Keep.{
  Preserves, Preserves-refl, Preserves-trans, OnlyKind, OnlyKind-refl, OnlyKind-trans,
  OnlyAt-OnlyKind, Idle, Applied-old, Applied-Preserves,
}
use ds_operator.Kube.Client.Apply.{Applied, Sound, create_or_update-ends}
use ds_operator.Api.Types.{DirectoryService}
use ds_operator.Labels.{create_labels}
use ds_operator.Claims.{
  empty_claim, claim_name, mutate_claim, reconcile_claim, reconcile_claims, claims_for,
  reconcile_pvc,
}
use ds_operator.Claims.Latest.{Resolves, set_volume_claim_template_from_snapshot-Resolves}

module _ {W : Type 0} (api : Client W) (ds : DirectoryService) where
  abbrev pub claim_key : ℕ → Key
  claim_key i = record { namespace = ds.meta.namespace; name = claim_name api ds i }

  -- A claim that the loop made: its metadata, and a spec that was resolved when it was made.
  pub record MadeClaim (at : W) (o : PersistentVolumeClaim) : Type 0 where
    pub labels : o.meta.labels ≡ some (create_labels ds.meta.name ds.kind none)
    pub annotations : o.meta.annotations ≡ some (("pv.beta.kubernetes.io/gid", "0") ∷ [])
    pub unowned : o.meta.owner_references ≡ []
    pub resolved : Resolves api ds at ds.spec.pod_template.volume_claim_spec o.spec

  -- A claim of `w'` is one of `w`, or was made when nothing but claims had changed since `w`.
  abbrev pub Origin : W → PersistentVolumeClaim → Key → Type 0
  Origin w o key =
      (api.get Kind.claim key w ≡ ok o) ⊎ ((at : W) × OnlyKind api Kind.claim w at × MadeClaim at o)

  -- What the loop does to the cluster on its way from `w` to `w'`, whether it fails then or not:
  -- no object is changed or removed, and only claims are added.
  pub record Careful (w w' : W) : Type 0 where
    pub kept : Preserves api w w'
    pub only : OnlyKind api Kind.claim w w'
    pub origin :
        (key : Key) (o : PersistentVolumeClaim) → api.get Kind.claim key w' ≡ ok o → Origin w o key

  abbrev pub HasClaim : ℕ → W → Type 0
  HasClaim i w = (o : PersistentVolumeClaim) × (api.get Kind.claim (claim_key i) w ≡ ok o)

  pub Careful-refl : (w : W) → Careful w w
  Careful-refl w = record {
    kept = Preserves-refl api w;
    only = OnlyKind-refl api Kind.claim w;
    origin = λ key o g. inl g;
  }

  pub Careful-trans : {w w' w'' : W} → Careful w w' → Careful w' w'' → Careful w w''
  Careful-trans p q = record {
    kept = Preserves-trans api p.kept q.kept;
    only = OnlyKind-trans api p.only q.only;
    origin = λ key o g. elim (q.origin key o g) [
      | inl g' ↦ p.origin key o g'
      | inr (at, only, made) ↦ inr (at, OnlyKind-trans api p.only only, made)
    ];
  }

  module _ (law : IsLawful api) where
    abbrev blank : ℕ → PersistentVolumeClaim
    blank i = empty_claim (claim_name api ds i) ds.meta.namespace

    mutate_claim-Sound :
        (i : ℕ) (w : W) → Sound api Kind.claim (Unit {0}) (blank i) (mutate_claim api ds) w
    unfolding mutate_claim
    mutate_claim-Sound i w = record {
      no_panic = λ s e h. ground arith;
      keeps_key = λ s s' x e h. ground arith;
    }

    mutate_claim-Idle :
        (i : ℕ) (w : W) → Idle api Kind.claim (Unit {0}) (blank i) (mutate_claim api ds) w
    unfolding mutate_claim
    mutate_claim-Idle i w s h = (tt, ground arith)

    mutate_claim_new :
        (i : ℕ) (w : W) (o : PersistentVolumeClaim) (x : Unit {0})
        → mutate_claim api ds w (blank i) ≡ ok (o, x)
        → (t : PersistentVolumeClaim) → FreshFrom Kind.claim o t
        → MadeClaim w t
    unfolding mutate_claim
    mutate_claim_new i w o x m t fresh =
        let same = ap (λ ((c, y) : PersistentVolumeClaim × Unit {0}). c) (ok-injective m) in
        rw (fresh.content, ← same)
          (record {
            labels = refl;
            annotations = refl;
            unowned = refl;
            resolved = set_volume_claim_template_from_snapshot-Resolves api ds w law;
          })

    module _ (i : ℕ) (w w' : W) (r : PersistentVolumeClaim × Unit {0})
        (a : Applied api Kind.claim (Unit {0}) (blank i) (mutate_claim api ds) w r w') where
      Origin-Applied : Origin w r.0 (claim_key i)
      Origin-Applied = elim a.how [
        | inl c ↦ inr (
          w,
          OnlyKind-refl api Kind.claim w,
          mutate_claim_new i w c.made r.1 c.mutated r.0 c.fresh,
        )
        | inr u ↦ inl (
            rw
              (Applied-old api Kind.claim (Unit {0}) (blank i) (mutate_claim api ds) law
                (mutate_claim-Idle i w) a u.old u.was_present)
              u.was_present)
      ]

      Careful-Applied : Careful w w'
      Careful-Applied = record {
        kept =
            Applied-Preserves api Kind.claim (Unit {0}) (blank i) (mutate_claim api ds) law
              (mutate_claim-Idle i w) a;
        only = OnlyAt-OnlyKind api Kind.claim (claim_key i) w w' a.elsewhere;
        origin = λ key o g. elim (Key-cases (claim_key i) key) [
          | inl e ↦
              subst (λ y. Origin w o y) e
                (subst (λ y. Origin w y (claim_key i))
                  (ok-injective (sym a.stored ∙ ap (λ y. api.get Kind.claim y w') e ∙ g))
                  Origin-Applied)
          | inr n ↦ inl (sym (a.elsewhere Kind.claim key (λ p e. n e)) ∙ g)
        ];
      }

    -- One round of the loop.
    reconcile_claim-ends :
        (i : ℕ) (w : W)
        → Ends
            (reconcile_claim api ds i)
            w
            (λ _ w'. Careful w w' × HasClaim i w')
            (λ _ w'. Careful w w')
    unfolding reconcile_claim
    reconcile_claim-ends i w =
        Ends-bind (api.create_or_update Kind.claim (Unit {0}) (blank i) (mutate_claim api ds))
          (λ (pvc, x). pure x) w
          (Ends_mono (λ r w' a. (Careful-Applied i w w' r a, (r.0, a.stored)))
            (λ e w' same. rw same (Careful-refl w))
            (create_or_update-ends api Kind.claim (Unit {0}) (blank i) (mutate_claim api ds) law w
              (mutate_claim-Sound i w)))
          (λ r w' p. Ends.returns r.1 w' refl p)

    later :
        (n i : ℕ) (w w' : W)
        → HasClaim i w
        → Preserves api w w'
        → ((j : ℕ) → i + 1 ≤ j → j < i + 1 + n → HasClaim j w')
        → (j : ℕ) → i ≤ j
        → j < i + suc n
        → HasClaim j w'
    later n i w w' h kept rest j p q = elim (ℕ_discrete i j) [
      | yes e ↦ subst (λ x. HasClaim x w') e (h.0, kept.at Kind.claim (claim_key i) h.0 h.1)
      | no ne ↦ rest j (omega arith) (omega arith)
    ]

    -- The rounds from `i` on.
    reconcile_claims-ends :
        (n i : ℕ) (w : W)
        → Ends
            (reconcile_claims api ds n i)
            w
            (λ _ w'. Careful w w' × ((j : ℕ) → i ≤ j → j < i + n → HasClaim j w'))
            (λ _ w'. Careful w w')
    unfolding reconcile_claims
    reconcile_claims-ends zero i w =
        Ends.returns tt w refl (Careful-refl w, λ j p q. absurd (omega arith))
    reconcile_claims-ends (suc n) i w =
        Ends-bind (reconcile_claim api ds i) (λ x. reconcile_claims api ds n (i + 1)) w
          (reconcile_claim-ends i w)
          (λ x w' p.
            Ends_mono (λ y w'' q. (Careful-trans p.0 q.0, later n i w' w'' p.1 q.0.kept q.1))
              (λ e w'' q. Careful-trans p.0 q) (reconcile_claims-ends n (i + 1) w'))

    claims_for-ends :
        (r : Option ℤ) (n : ℕ) (w : W)
        → r ≡ some (pos n)
        → Ends
            (claims_for api ds r)
            w
            (λ _ w'. Careful w w' × ((j : ℕ) → j < n → HasClaim j w'))
            (λ _ w'. Careful w w')
    unfolding claims_for
    claims_for-ends r n w e = rw e (
        Ends_mono (λ x w' p. (p.0, λ j h. p.1 j (omega arith) (omega arith))) (λ x w' c. c)
          (reconcile_claims-ends n 0 w))

    -- reconcilePVC with `n` replicas returns or fails, and never panics. On the way no object is
    -- changed or removed, and nothing but claims is added, each made with the operator's metadata
    -- and a resolved spec. If it returns, the claims of the replicas 0 to n - 1 are there.
    pub reconcile_pvc-ends :
        (n : ℕ) (w : W)
        → ds.spec.replicas ≡ some (pos n)
        → Ends
            (reconcile_pvc api ds)
            w
            (λ _ w'. Careful w w' × ((j : ℕ) → j < n → HasClaim j w'))
            (λ _ w'. Careful w w')
    unfolding reconcile_pvc
    reconcile_pvc-ends n w e = claims_for-ends ds.spec.replicas n w e
