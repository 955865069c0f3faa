-- ===== src/Snapshots/Taking.antt =====
-- controllers/snapshots.go: a snapshot is taken.
use ds_operator.Prelude.{
  panic, Error, Error-cases, Result, Action, Ends_mono, ◌≢◌, ◌<◌, ℕ, ℤ, String, ◌≡◌, refl, ap, ◌∙◌,
  inl, inr, ok, err, not_found, arith, Ends, Ends-bind, Ends-try, pure, ignore,
}
use ds_operator.Kube.Meta.{Key}
use ds_operator.Kube.Volumes.{VolumeSnapshot}
use ds_operator.Kube.Objects.{Kind}
use ds_operator.Kube.Client.{Client}
use ds_operator.Kube.Client.Laws.{IsLawful, OnlyAt}
use ds_operator.Kube.Client.Stable.{Unchanged, Apart-kind, create_or_update-Unchanged}
use ds_operator.Api.Types.{DirectoryService}
use ds_operator.Snapshots.Pruning.{snapshot_at}
use ds_operator.Snapshots.{
  new_snapshot, empty_snapshot, snapshot_name, mutate_snapshot, take_snapshot, record_event,
}

module _ {W : Type 0} (api : Client W) (now : ℤ) (ds : DirectoryService) where
  abbrev pub taken_key : Key
  taken_key = record { namespace = ds.meta.namespace; name = snapshot_name now ds }

  -- How it came out: one of the name was there and is there still; or there was none, and the
  -- server has stored the new one or refused to; or the server could not tell.
  pub data Outcome (w w' : W) : Type 0 where
    made :
        (time : ℕ) (uid : String)
        → snapshot_at api taken_key w ≡ err not_found
        → snapshot_at api taken_key w'
          ≡ ok (record (new_snapshot now ds) {
            meta = record (new_snapshot now ds).meta { creation_timestamp = time; uid = uid };
          })
        → Outcome w w'
    was_there :
        (s : VolumeSnapshot)
        → snapshot_at api taken_key w ≡ ok s
        → snapshot_at api taken_key w' ≡ ok s
        → Outcome w w'
    refused :
        (e : Error)
        → snapshot_at api taken_key w ≡ err not_found
        → api.create Kind.snapshot (new_snapshot now ds) w ≡ (err e, w)
        → snapshot_at api taken_key w' ≡ err not_found
        → Outcome w w'
    unreadable :
        (e : Error)
        → e ≢ not_found
        → snapshot_at api taken_key w ≡ err e
        → snapshot_at api taken_key w' ≡ err e
        → Outcome w w'

  pub record Taken (w w' : W) : Type 0 where
    pub elsewhere : OnlyAt api Kind.snapshot taken_key w w'
    pub how : Outcome w w'

  module _ (law : IsLawful api) where
    noted :
        (text : String) (w w1 : W)
        → Taken w w1
        → Taken w (api.record_event "Created Snapshot" text w1)
    noted text w w1 t =
        let same =
          λ (k : Kind) (key : Key). law.get-record_event "Created Snapshot" text k key w1 in
        let at = same Kind.snapshot taken_key in
        record {
          elsewhere = λ k key d. same k key ∙ t.elsewhere k key d;
          how = elim t.how [
            | Outcome.made time uid a g ↦ Outcome.made time uid a (at ∙ g)
            | Outcome.was_there s a g ↦ Outcome.was_there s a (at ∙ g)
            | Outcome.refused e a r g ↦ Outcome.refused e a r (at ∙ g)
            | Outcome.unreadable e n a g ↦ Outcome.unreadable e n a (at ∙ g)
          ];
        }

    abbrev blank : VolumeSnapshot
    blank = empty_snapshot (snapshot_name now ds) ds.meta.namespace

    abbrev creating : Action W (VolumeSnapshot × Unit {0})
    creating = api.create_or_update Kind.snapshot (Unit {0}) blank (mutate_snapshot api now ds)

    abbrev TakenAnyway : W → Type 0
    TakenAnyway w = Ends creating w (λ r w'. Taken w w') (λ e w'. Taken w w')

    blank-new : (w : W) → mutate_snapshot api now ds w blank ≡ ok (new_snapshot now ds, tt)
    unfolding mutate_snapshot
    blank-new w = refl

    old-same :
        (s : VolumeSnapshot) (w : W)
        → 0 < s.meta.creation_timestamp
        → mutate_snapshot api now ds w s ≡ ok (s, tt)
    unfolding mutate_snapshot
    old-same s w h = ground arith

    with_old : (s : VolumeSnapshot) (w : W) → snapshot_at api taken_key w ≡ ok s → TakenAnyway w
    with_old s w g =
        Ends_mono (λ r w' p. kept w' p.1) (λ e w' p. kept w' p)
          (create_or_update-Unchanged api law Kind.snapshot (Apart-kind api Kind.snapshot)
            (Unit {0}) blank s tt (mutate_snapshot api now ds) w g
            (old-same s w (law.get_created Kind.snapshot taken_key w s g)))
      where
        kept : (w' : W) → Unchanged api w w' → Taken w w'
        kept w' same = record {
          elsewhere = λ k key d. same.at k key;
          how = Outcome.was_there s g (same.at Kind.snapshot taken_key ∙ g);
        }

    with_none : (w : W) → snapshot_at api taken_key w ≡ err not_found → TakenAnyway w
    unfolding new_snapshot
    with_none w g =
        let run = law.absent Kind.snapshot (Unit {0}) blank (mutate_snapshot api now ds) w g in
        elim (law.create_outcome Kind.snapshot (new_snapshot now ds) w) [
          | inl (e, r) ↦
              Ends.fails e w (run ∙ rw (blank-new w, r) refl)
                (record { elsewhere = λ k key d. refl; how = Outcome.refused e g r g })
          | inr c ↦
              Ends.returns (c.object, tt) c.after (run ∙ rw (blank-new w, c.returns) refl)
                (record {
                  elsewhere = c.elsewhere;
                  how =
                      Outcome.made c.content.time c.content.uid g
                        (c.stored ∙ ap (λ o. ok o) c.content.content);
                })
        ]

    by_get : (r : Result VolumeSnapshot) (w : W) → snapshot_at api taken_key w ≡ r → TakenAnyway w
    by_get (ok s) w g = with_old s w g
    by_get panic w g = absurd (law.get_no_panic Kind.snapshot taken_key w g)
    by_get (err e) w g = elim (Error-cases e) [
      | inl absent ↦ with_none w (g ∙ ap (λ x. err x) absent)
      | inr n ↦
          Ends.fails e w
            (law.unreadable Kind.snapshot (Unit {0}) blank (mutate_snapshot api now ds) w e g n)
            (record { elsewhere = λ k key d. refl; how = Outcome.unreadable e n g g })
    ]

    -- A snapshot is taken, or nothing is done; an error is not passed on.
    pub take_snapshot-Taken :
        (w : W) → Ends (take_snapshot api now ds) w (λ x w'. Taken w w') (λ e w'. ⊥)
    unfolding take_snapshot
    take_snapshot-Taken w =
        Ends-bind (ignore creating)
          (λ x. record_event api "Created Snapshot" (snapshot_name now ds)) w
          (Ends-try creating (λ r. pure tt) (λ e. pure tt) w
            (by_get (snapshot_at api taken_key w) w refl) (λ r w' t. Ends.returns tt w' refl t)
            (λ e w' t. Ends.returns tt w' refl t))
          (λ x w1 t. Ends.returns tt _ refl (noted (snapshot_name now ds) w w1 t))
