-- ===== src/Backups/Advances.antt =====
-- controllers/directorybackup_controller.go: how little the steps of a backup change.
use ds_operator.Prelude.{◌≡◌, ◌≢◌, refl, ◌∙◌, ok, Ends, Ends_mono}
use ds_operator.Kube.Meta.{Key, key_of}
use ds_operator.Kube.Volumes.{PersistentVolumeClaim, VolumeSnapshot}
use ds_operator.Kube.Objects.{Kind, Obj}
use ds_operator.Kube.Client.{Client, Mutate}
use ds_operator.Kube.Client.Laws.{IsLawful, OnlyAt}
use ds_operator.Kube.Client.Apply.{Applied, Sound, create_or_update-ends}
use ds_operator.Kube.Client.Steps.{Adds}
use ds_operator.Kube.Client.Tend.{Tended, Tended-same, Tended-trans, OwnersOnly, Applied-Tended}

module _ {W : Type 0} (api : Client W) where
  -- Every object that is no backup is there still, but for its owners, and only claims, snapshots
  -- and jobs are added.
  pub record Advances (w w' : W) : Type 0 where
    pub tended :
        (k : Kind)
        → Kind.directory_backup ≢ k
        → (key : Key) (o : Obj k) → api.get k key w ≡ ok o
        → Tended api k key w' o
    pub only :
        (k : Kind) (key : Key)
        → Kind.directory_backup ≢ k
        → Kind.claim ≢ k
        → Kind.snapshot ≢ k
        → Kind.job ≢ k
        → api.get k key w' ≡ api.get k key w

  pub Advances-refl : (w : W) → Advances w w
  Advances-refl w = record {
    tended = λ k n key o g. Tended-same api k key w o g;
    only = λ k key a b c d. refl;
  }

  pub Advances-trans : {w w' w'' : W} → Advances w w' → Advances w' w'' → Advances w w''
  Advances-trans {w} {w'} {w''} p q = record {
    tended = λ k n key o g.
        Tended-trans api k key w' w'' o (p.tended k n key o g) (λ x h. q.tended k n key x h);
    only = λ k key a b c d. q.only k key a b c d ∙ p.only k key a b c d;
  }

  pub Advances-status :
      {w w' : W} (key : Key) → OnlyAt api Kind.directory_backup key w w' → Advances w w'
  Advances-status {w} {w'} key h = record {
    tended = λ k n key' o g. Tended-same api k key' w' o (h k key' (λ p. absurd (n p)) ∙ g);
    only = λ k key' a b c d. h k key' (λ p. absurd (a p));
  }

  pub Advances-job : {w w' : W} → Adds api Kind.job w w' → Advances w w'
  Advances-job {w} {w'} p = record {
    tended = λ k n key o g. Tended-same api k key w' o (p.kept.at k key o g);
    only = λ k key a b c d. p.only.at k key d;
  }

  -- A claim or a snapshot has been made or tended.
  abbrev pub MadeAt : (k : Kind) → Key → W → Obj k → W → Type 0
  MadeAt k key w o w' =
      Advances w w'
      × (api.get k key w' ≡ ok o)
      × ((key' : Key)
          → api.get Kind.directory_backup key' w' ≡ api.get Kind.directory_backup key' w)

  module _ (law : IsLawful api) where
    pub claim_step :
        (o : PersistentVolumeClaim) (f : Mutate W (Unit {0}) Kind.claim) (w : W)
        → Sound api Kind.claim (Unit {0}) o f w
        → OwnersOnly api Kind.claim (Unit {0}) o f w
        → Ends
            (api.create_or_update Kind.claim (Unit {0}) o f)
            w
            (λ r w'.
              MadeAt Kind.claim (key_of o.meta) w r.0 w'
              × Applied api Kind.claim (Unit {0}) o f w r w')
            (λ _ w'. w' ≡ w)
    claim_step o f w sound tend =
        Ends_mono
          (λ r w' a. (
            (
              record {
                tended = λ k n key s g.
                    Applied-Tended api Kind.claim (Unit {0}) o f law w w' r tend a k key s g;
                only = λ k key b c d e. a.elsewhere k key (λ p. absurd (c p));
              },
              a.stored,
              λ key. a.elsewhere Kind.directory_backup key (λ p. absurd cc),
            ),
            a,
          ))
          (λ e w' same. same) (create_or_update-ends api Kind.claim (Unit {0}) o f law w sound)

    pub snapshot_step :
        (o : VolumeSnapshot) (f : Mutate W (Unit {0}) Kind.snapshot) (w : W)
        → Sound api Kind.snapshot (Unit {0}) o f w
        → OwnersOnly api Kind.snapshot (Unit {0}) o f w
        → Ends
            (api.create_or_update Kind.snapshot (Unit {0}) o f)
            w
            (λ r w'.
              MadeAt Kind.snapshot (key_of o.meta) w r.0 w'
              × Applied api Kind.snapshot (Unit {0}) o f w r w')
            (λ _ w'. w' ≡ w)
    snapshot_step o f w sound tend =
        Ends_mono
          (λ r w' a. (
            (
              record {
                tended = λ k n key s g.
                    Applied-Tended api Kind.snapshot (Unit {0}) o f law w w' r tend a k key s g;
                only = λ k key b c d e. a.elsewhere k key (λ p. absurd (d p));
              },
              a.stored,
              λ key. a.elsewhere Kind.directory_backup key (λ p. absurd cc),
            ),
            a,
          ))
          (λ e w' same. same) (create_or_update-ends api Kind.snapshot (Unit {0}) o f law w sound)
