-- ===== src/Kube/Client/Steps.antt =====
-- Operations that add an object, or leave the one that is there.
use ds_operator.Prelude.{◌≡◌, ok, Ends, Ends_mono}
use ds_operator.Kube.Meta.{Key}
use ds_operator.Kube.Objects.{Kind, Obj, object_key}
use ds_operator.Kube.Client.{Client, Mutate}
use ds_operator.Kube.Client.Laws.{IsLawful}
use ds_operator.Kube.Client.Apply.{Applied, Sound, create_or_update-ends}
use ds_operator.Kube.Client.Keep.{Preserves, OnlyKind, OnlyAt-OnlyKind, Idle, Applied-Preserves}

module _ {W : Type 0} (api : Client W) where
  -- No object is changed or removed, and only objects of the kind `k` are added.
  pub record Adds (k : Kind) (w w' : W) : Type 0 where
    pub kept : Preserves api w w'
    pub only : OnlyKind api k w w'

  pub record Ensures (k : Kind) (key : Key) (w w' : W) : Type 0 where
    pub adds : Adds k w w'
    pub object : Obj k
    pub stored : api.get k key w' ≡ ok object

  module _ (law : IsLawful api) (k : Kind) (X : Type 0) (o : Obj k) (f : Mutate W X k) (w : W)
      (idle : Idle api k X o f w) where
    Ensures-Applied :
        (w' : W) (r : Obj k × X) → Applied api k X o f w r w' → Ensures k (object_key k o) w w'
    Ensures-Applied w' r a = record {
      adds = record {
        kept = Applied-Preserves api k X o f law idle a;
        only = OnlyAt-OnlyKind api k (object_key k o) w w' a.elsewhere;
      };
      object = r.0;
      stored = a.stored;
    }

    -- CreateOrUpdate with a callback that leaves an existing object as it is.
    pub create_or_update-Ensures :
        Sound api k X o f w
        → Ends
            (api.create_or_update k X o f)
            w
            (λ r w'. Ensures k (object_key k o) w w' × (api.get k (object_key k o) w' ≡ ok r.0))
            (λ _ w'. w' ≡ w)
    create_or_update-Ensures sound =
        Ends_mono (λ r w' a. (Ensures-Applied w' r a, a.stored)) (λ e w' same. same)
          (create_or_update-ends api k X o f law w sound)
