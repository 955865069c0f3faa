-- ===== src/Snapshots/Live.antt =====
-- controllers/snapshots.go, reconcileSnapshots, where the server refuses nothing without a reason.
use ds_operator.Prelude.{
  String, ◌≡◌, ◌≢◌, refl, sym, ap, ◌∙◌, ℕ, zero, suc, ℤ, inl, inr, ◌⊎◌, Bool, true, false, List, [],
  ◌∷◌, Error, ok, ltb, ltb_ℤ, arith, ok-ne-err, ok-injective, pure, ignore, ◌>>=◌, if◌then◌else◌,
  Finishes, Finishes-Ends, Finishes-bind, Finishes-and,
}
use ds_operator.Kube.Meta.{key_of}
use ds_operator.Kube.Volumes.{VolumeSnapshot}
use ds_operator.Kube.Objects.{Kind, Obj}
use ds_operator.Kube.Client.{Client}
use ds_operator.Kube.Client.Laws.{IsLawful}
use ds_operator.Kube.Client.Live.{
  Lively, LivelyAt, Lively-bind, Lively-try, Lively-pure, Lively-ignore, Brisk, Brisk-Lively,
  Accepting, Passes, Obliging, create_or_update-Lively, if-fine,
}
use ds_operator.Api.Types.{DirectoryService}
use ds_operator.Snapshots.Listing.{get_snapshot_list, sorted_reply}
use ds_operator.Snapshots.Taking.{take_snapshot-Taken}
use ds_operator.Snapshots.{
  empty_snapshot, new_snapshot, snapshot_name, stamp, last_snapshot, deadline, is_zero,
  num_to_delete, mutate_snapshot, record_event, purge, prune, prune_listed, prune_snapshots,
  take_snapshot, snapshot_and_prune, reconcile_snapshots,
}

sorted_reply-inl :
    (r : Error ⊎ List VolumeSnapshot) (e : Error) → sorted_reply r ≡ inl e → r ≡ inl e
unfolding sorted_reply
sorted_reply-inl (inl x) e h = h
sorted_reply-inl (inr l) e h = absurd cc

module _ {W : Type 0} (Open : W → Type 0) (Admits : (k : Kind) → W → Obj k → Type 0)
    (api : Client W) (law : IsLawful api) (accepting : Accepting Open Admits api) where
  record_event-Lively : (reason text : String) → Lively Open (record_event api reason text)
  record_event-Lively reason text w open' =
      ((λ e h. ok-ne-err (sym h)), accepting.events reason text w open')

  purge-Lively : (s : VolumeSnapshot) → Lively Open (purge api s)
  purge-Lively s =
      Lively-bind Open (ignore (api.delete Kind.snapshot s))
        (λ x. record_event api "Purged Snapshot" s.meta.name)
        (Lively-ignore Open (api.delete Kind.snapshot s) (accepting.after_delete Kind.snapshot s))
        (λ x. record_event-Lively "Purged Snapshot" s.meta.name)

  prune-Lively : (n : ℕ) (items : List VolumeSnapshot) → Lively Open (prune api n items)
  unfolding prune
  prune-Lively zero items w open' = Lively-pure Open tt w open'
  prune-Lively (suc n) [] w open' = ((λ e h. cc), open')
  prune-Lively (suc n) (s ∷ items) w open' =
      Lively-bind Open (purge api s) (λ x. prune api n items) (purge-Lively s)
        (λ x. prune-Lively n items) w open'

  prune_listed-Lively :
      (ds : DirectoryService) (r : Error ⊎ List VolumeSnapshot) (w : W)
      → Open w
      → ((e : Error) → r ≢ inl e)
      → LivelyAt Open (prune_listed api ds r w)
  unfolding prune_listed
  prune_listed-Lively ds (inl e) w open' read = absurd (read e refl)
  prune_listed-Lively ds (inr items) w open' read =
      prune-Lively (num_to_delete items ds) items w open'

  prune_snapshots-Lively : (ds : DirectoryService) → Lively Open (prune_snapshots api ds)
  unfolding prune_snapshots get_snapshot_list
  prune_snapshots-Lively ds w open' =
      prune_listed-Lively ds (get_snapshot_list api ds w) w open'
        (λ e h. accepting.lists _ _ w e open' (sorted_reply-inl _ e h))

  module _ (now : ℤ) (ds : DirectoryService)
      (passes : Passes Open Admits api Kind.snapshot
        (Unit {0})
        (empty_snapshot (snapshot_name now ds) ds.meta.namespace)
        (mutate_snapshot api now ds)) where
    mutate-Obliging :
        Obliging Open Admits api Kind.snapshot
          (Unit {0})
          (empty_snapshot (snapshot_name now ds) ds.meta.namespace)
          (mutate_snapshot api now ds)
    unfolding mutate_snapshot new_snapshot
    mutate-Obliging = record {
      passes = passes;
      fine = λ w s e h.
          if-fine (ltb 0 s.meta.creation_timestamp) (ok (s, tt)) (ok (new_snapshot now ds, tt)) e
            (λ g. ok-ne-err (sym g)) (λ g. ok-ne-err (sym g)) h;
      names = λ w n x h.
          ap (λ ((m, y) : VolumeSnapshot × Unit {0}). key_of m.meta)
            (ok-injective {A = VolumeSnapshot × Unit {0}} (sym h));
      keeps = λ w s n x t h.
          let kept : mutate_snapshot api now ds w s ≡ ok (s, tt) = ground arith in
          let same =
            ap (λ ((m, y) : VolumeSnapshot × Unit {0}). m.meta)
              (ok-injective {A = VolumeSnapshot × Unit {0}} (sym h ∙ kept)) in
          (ap key_of same, rw same t);
    }

    take_snapshot-Lively : Lively Open (take_snapshot api now ds)
    unfolding take_snapshot
    take_snapshot-Lively =
        let creating =
          api.create_or_update Kind.snapshot (Unit {0})
            (empty_snapshot (snapshot_name now ds) ds.meta.namespace)
            (mutate_snapshot api now ds) in
        Lively-bind Open (ignore creating)
          (λ x. record_event api "Created Snapshot" (snapshot_name now ds))
          (Lively-try Open creating (λ r. pure tt) (λ e. pure tt)
            (create_or_update-Lively Open Admits api Kind.snapshot (Unit {0})
              (empty_snapshot (snapshot_name now ds) ds.meta.namespace) (mutate_snapshot api now ds)
              law accepting mutate-Obliging)
            (λ r. Lively-pure Open tt))
          (λ x. record_event-Lively "Created Snapshot" (snapshot_name now ds))

    module _ (s : DirectoryService) (w : W) (open' : Open w)
        (there : api.get Kind.directory_service (key_of ds.meta) w ≡ ok s)
        (stamps : (v : W) → Open v → Admits Kind.directory_service v (stamp now ds)) where
      stamp-Brisk :
          (v : W)
          → Open v
          → api.get Kind.directory_service (key_of ds.meta) v ≡ ok s
          → Brisk Open (api.update_status Kind.directory_service (stamp now ds)) v
      stamp-Brisk v o g =
          Brisk-Lively Open (api.update_status Kind.directory_service (stamp now ds)) v
            (accepting.updates_status Kind.directory_service (stamp now ds) s v o g (stamps v o))

      rotating : Brisk Open (snapshot_and_prune api now ds) w
      unfolding snapshot_and_prune
      rotating =
          Finishes-bind (take_snapshot api now ds) w
            (λ x.
              api.update_status Kind.directory_service (stamp now ds)
              >>= (λ ds'. prune_snapshots api ds' >>= (λ y. pure ds')))
            (Finishes-and (Finishes-Ends {R = λ w'. ⊥} (take_snapshot-Taken api now ds law w))
              (Brisk-Lively Open (take_snapshot api now ds) w (take_snapshot-Lively w open')))
            (λ x w1 (t, o1).
              Finishes-bind (api.update_status Kind.directory_service (stamp now ds)) w1
                (λ ds'. prune_snapshots api ds' >>= (λ y. pure ds'))
                (stamp-Brisk w1 o1
                  (t.elsewhere Kind.directory_service (key_of ds.meta) (λ p e. absurd cc) ∙ there))
                (λ ds' w2 o2. Brisk-Lively Open (prune_snapshots api ds' >>= (λ y. pure ds')) w2 (
                  Lively-bind Open (prune_snapshots api ds') (λ y. pure ds')
                    (prune_snapshots-Lively ds') (λ y. Lively-pure Open ds') w2 o2))
                (λ e w2 b. b) (λ w2 b. b))
            (λ e w1 b. b.0) (λ w1 b. absurd b.0)

      by_tests :
          (on first early : Bool)
          → Brisk Open
              (if on
                then if first
                  then api.update_status Kind.directory_service (stamp now ds)
                  else if early
                  then pure ds
                  else snapshot_and_prune api now ds
                else pure ds)
              w
      by_tests false first early = Finishes.returns ds w refl open'
      by_tests true true early = stamp-Brisk w open' there
      by_tests true false true = Finishes.returns ds w refl open'
      by_tests true false false = rotating

      pub reconcile_snapshots-Brisk : Brisk Open (reconcile_snapshots api now ds) w
      unfolding reconcile_snapshots
      reconcile_snapshots-Brisk =
          by_tests ds.spec.snapshots.enabled (is_zero (last_snapshot ds)) (ltb_ℤ now (deadline ds))
