-- ===== src/Settings/Live.antt =====
-- controllers/proxy.go and proxy_service.go, the branch where the proxy is not enabled, where the
-- server refuses nothing without a reason.
use ds_operator.Prelude.{
  ◌≡◌, refl, sym, ap, ◌∙◌, Bool, true, false, Option, some, none, Error, Result, ok, err, panic,
  not_found, ok-ne-err, if◌then◌else◌, pure,
}
use ds_operator.Kube.Meta.{Key, OwnerReference}
use ds_operator.Kube.Objects.{Kind, Obj, object_key}
use ds_operator.Kube.Client.{Client}
use ds_operator.Kube.Client.Laws.{IsLawful}
use ds_operator.Kube.Client.Live.{Lively, LivelyAt, Lively-pure, Accepting}
use ds_operator.Api.Types.{DirectoryService}
use ds_operator.Settings.{is_ours}
use ds_operator.Settings.Removal.{remove_controlled, remove_found, remove_owned}

module _ {W : Type 0} (Open : W → Type 0) (Admits : (k : Kind) → W → Obj k → Type 0)
    (api : Client W) (law : IsLawful api) (accepting : Accepting Open Admits api)
    (ds : DirectoryService) (k : Kind) where
  if_ours-Lively :
      (o : Obj k) (ours : Bool) (w : W)
      → Open w
      → api.get k (object_key k o) w ≡ ok o
      → LivelyAt Open ((if ours then api.delete k o else pure tt) w)
  if_ours-Lively o true w open' there = accepting.deletes k o o w open' there
  if_ours-Lively o false w open' there = Lively-pure Open tt w open'

  remove_controlled-Lively :
      (o : Obj k) (c : Option OwnerReference) (w : W)
      → Open w
      → api.get k (object_key k o) w ≡ ok o
      → LivelyAt Open (remove_controlled api ds k o c w)
  unfolding remove_controlled
  remove_controlled-Lively o none w open' there = ((λ e h. cc), open')
  remove_controlled-Lively o (some owner) w open' there =
      if_ours-Lively o (is_ours ds owner) w open' there

  remove_found-Lively :
      (r : Result (Obj k)) (w : W)
      → Open w
      → ((o : Obj k) → r ≡ ok o → api.get k (object_key k o) w ≡ ok o)
      → ((e : Error) → r ≡ err e → e ≡ not_found)
      → LivelyAt Open (remove_found api ds k r w)
  unfolding remove_found
  remove_found-Lively (ok o) w open' there absent =
      remove_controlled-Lively o _ w open' (there o refl)
  remove_found-Lively (err e) w open' there absent =
      rw (absent e refl) ((λ e h. ok-ne-err (sym h)), open')
  remove_found-Lively panic w open' there absent = ((λ e h. cc), open')

  pub remove_owned-Lively : (key : Key) → Lively Open (remove_owned api ds k key)
  unfolding remove_owned
  remove_owned-Lively key w open' =
      remove_found-Lively (api.get k key w) w open'
        (λ o g. ap (λ y. api.get k y w) (law.get_named k key w o g) ∙ g)
        (λ e h. accepting.reads k key w e open' h)
