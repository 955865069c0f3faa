-- ===== src/Snapshots/Pruning.antt =====
-- controllers/snapshots.go: which snapshots are deleted.
use mathlib.Core.List.{Memᴰ}
use ds_operator.Prelude.{
  ℕ, zero, suc, ◌≤◌, ◌≡◌, ◌≢◌, refl, sym, ◌∙◌, ◌⊎◌, inl, inr, Result, err, List, [], ◌∷◌, All,
  arith, not_found, take, length, Ends, Ends-bind, Ends_mono, String,
}
use ds_operator.Kube.Meta.{Key, key_of}
use ds_operator.Kube.Volumes.{VolumeSnapshot}
use ds_operator.Kube.Objects.{Kind}
use ds_operator.Kube.Client.{Client}
use ds_operator.Kube.Client.Laws.{IsLawful, OnlyAt, Distinct, Refused}
use ds_operator.Kube.Client.Keep.{OnlyKind, OnlyKind-refl, OnlyKind-trans, OnlyAt-OnlyKind}
use ds_operator.Snapshots.Sorting.Members.{All-at}
use ds_operator.Snapshots.{prune, purge}

module _ {W : Type 0} (api : Client W) where
  abbrev pub snapshot_at : Key → W → Result VolumeSnapshot
  snapshot_at key w = api.get Kind.snapshot key w

  -- The key is none of those of the list.
  abbrev pub NotIn : Key → List VolumeSnapshot → Type 0
  NotIn key l = All (λ s. key_of s.meta ≢ key) l

  -- The snapshot is gone, or the server refused to delete it and it is as it was.
  abbrev pub GoneOrRefused : VolumeSnapshot → W → W → Type 0
  GoneOrRefused s w w' =
      (snapshot_at (key_of s.meta) w' ≡ err not_found)
      ⊎ ((at : W) × Refused api (api.delete Kind.snapshot s) at
          × (snapshot_at (key_of s.meta) w' ≡ snapshot_at (key_of s.meta) w))

  -- What deleting the snapshots of `gone` does: each is gone or was refused, and nothing else is
  -- touched.
  pub record Deleted (gone : List VolumeSnapshot) (w w' : W) : Type 0 where
    pub each : (s : VolumeSnapshot) → Memᴰ s gone → GoneOrRefused s w w'
    pub elsewhere : (key : Key) → NotIn key gone → snapshot_at key w' ≡ snapshot_at key w
    pub only : OnlyKind api Kind.snapshot w w'

  Deleted-nil : (w : W) → Deleted [] w w
  Deleted-nil w = record {
    each = λ s m. elim m [ ];
    elsewhere = λ key n. refl;
    only = OnlyKind-refl api Kind.snapshot w;
  }

  module _ (law : IsLawful api) where
    abbrev purged : String
    purged = "Purged Snapshot"

    pub purge-ends :
        (s : VolumeSnapshot) (w : W)
        → Ends
            (purge api s)
            w
            (λ _ w'. GoneOrRefused s w w' × OnlyAt api Kind.snapshot (key_of s.meta) w w')
            (λ _ _. ⊥)
    purge-ends s w = elim (law.delete_outcome Kind.snapshot s w) [
      | inl (e, refused) ↦ Ends.returns tt (api.record_event purged s.meta.name w) (rw refused) (
        inr (
          w,
          (e, refused),
          law.get-record_event purged s.meta.name Kind.snapshot (key_of s.meta) w,
        ),
        λ k key n. law.get-record_event purged s.meta.name k key w,
      )
      | inr (w', done, absent, elsewhere) ↦
          Ends.returns tt (api.record_event purged s.meta.name w') (rw done) (
            inl (law.get-record_event purged s.meta.name Kind.snapshot (key_of s.meta) w' ∙ absent),
            λ k key n. law.get-record_event purged s.meta.name k key w' ∙ elsewhere k key n,
          )
    ]

    Deleted-cons :
        (s : VolumeSnapshot) (gone : List VolumeSnapshot) (w w' w'' : W)
        → NotIn (key_of s.meta) gone
        → GoneOrRefused s w w' × OnlyAt api Kind.snapshot (key_of s.meta) w w'
        → Deleted gone w' w''
        → Deleted (s ∷ gone) w w''
    Deleted-cons s gone w w' w'' apart (here, at) q = record {
      each = λ t m. elim m [
        | Memᴰ.head e ↦ rw e (elim here [
          | inl gone ↦ inl (q.elsewhere (key_of s.meta) apart ∙ gone)
          | inr (v, refused, same) ↦ inr (v, refused, q.elsewhere (key_of s.meta) apart ∙ same)
        ])
        | Memᴰ.tail m' ↦
            let kept =
              at Kind.snapshot (key_of t.meta)
                (λ p e. All-at (λ u. key_of u.meta ≢ key_of s.meta) gone apart m' (sym e)) in
            elim (q.each t m') [
              | inl gone ↦ inl gone
              | inr (v, refused, same) ↦ inr (v, refused, same ∙ kept)
            ]
      ];
      elsewhere = λ key (n, rest). q.elsewhere key rest ∙ at Kind.snapshot key (λ p e. n e);
      only = OnlyKind-trans api (OnlyAt-OnlyKind api Kind.snapshot (key_of s.meta) w w' at) q.only;
    }

    All-take :
        (P : VolumeSnapshot → Type 0) (n : ℕ) (l : List VolumeSnapshot) → All P l → All P (take n l)
    All-take P zero l h = tt
    All-take P (suc n) [] h = tt
    All-take P (suc n) (x ∷ l) (p, h) = (p, All-take P n l h)

    apart :
        (s : VolumeSnapshot) (l : List VolumeSnapshot)
        → All (λ t. key_of s.meta ≢ key_of t.meta) l
        → NotIn (key_of s.meta) l
    apart s [] h = tt
    apart s (t ∷ l) (n, h) = (λ e. n (sym e), apart s l h)

    -- The loop deletes the first `n`, and does not panic as long as there are as many.
    pub prune-ends :
        (n : ℕ) (items : List VolumeSnapshot) (w : W)
        → n ≤ length items
        → Distinct items
        → Ends (prune api n items) w (λ _ w'. Deleted (take n items) w w') (λ _ _. ⊥)
    unfolding prune
    prune-ends zero items w h d = Ends.returns tt w refl (Deleted-nil w)
    prune-ends (suc n) [] w h d = absurd (omega arith)
    prune-ends (suc n) (s ∷ items) w h d =
        Ends-bind (purge api s) (λ x. prune api n items) w (purge-ends s w)
          (λ x w' p.
            Ends_mono
              (λ y w'' q.
                Deleted-cons s (take n items) w w' w''
                  (All-take (λ t. key_of t.meta ≢ key_of s.meta) n items (apart s items d.0)) p q)
              (λ e w'' q. q) (prune-ends n items w' (omega arith) d.1))
