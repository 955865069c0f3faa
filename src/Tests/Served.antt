-- ===== src/Tests/Served.antt =====
-- Whole runs: the directory server, the proxies, snapshots, and Reconcile.
use ds_operator.Prelude.{
  ◌-◌, ℕ, suc, ◌<◌, pos, String, true, false, ◌≡◌, refl, ◌⊎◌, some, none, [], ◌∷◌, ok, err, arith,
  Ends, Finishes, panic, ok-ne-err, NodupKeys, lookup,
}
use ds_operator.Kube.Meta.{named, key_of}
use ds_operator.Kube.Workloads.{Secret, StatefulSet, Deployment}
use ds_operator.Kube.Objects.{Kind}
use ds_operator.Kube.Client.Laws.{OnlyAt}
use ds_operator.Kube.Memory.{Server, memory, running}
use ds_operator.Kube.Memory.Lawful.{memory-IsLawful}
use ds_operator.Kube.Memory.Beside.{local-IsAside}
use ds_operator.Api.Types.{DirectoryService, secret_name_for_dn}
use ds_operator.Secrets.Keep.{Writable, secret_key}
use ds_operator.Ldap.{DsConnection, connect}
use ds_operator.Ldap.Laws.{Still, Moved, Nobody, NilClose}
use ds_operator.Ldap.Memory.{local, local_view, local-IsLawful}
use ds_operator.Ldap.Closing.{Closed, connect-ends}
use ds_operator.Passwords.{update_passwords}
use ds_operator.Passwords.Accounts.{Partly, Blamed}
use ds_operator.Passwords.Outcome.{Checked, update_passwords-Checked}
use ds_operator.Settings.Removal.{Removed}
use ds_operator.Services.{proxy_key}
use ds_operator.Proxies.{reconcile_proxy}
use ds_operator.Proxies.Updates.{Deployed, reconcile_proxy-Settled}
use ds_operator.Proxies.Alignment.{HasProxyContainers}
use ds_operator.Snapshots.{snapshot_and_prune}
use ds_operator.Snapshots.Rotation.{Rotated, Unrotated, snapshot_and_prune-Rotated}
use ds_operator.StatefulSets.Alignment.{HasContainers}
use ds_operator.Reconcile.{store_service, with_directory}
use ds_operator.Reconcile.Stored.{StatusKept, service_at, old_status, store_service-old_status}
use ds_operator.Reconcile.Serving.{Served, Updated, Broken, with_directory-Served}
use ds_operator.Reconcile.Reach.{Reach}
use ds_operator.Reconcile.Preparing.{Fit}
use ds_operator.Tests.Data.{idrepo, empty_server}

abbrev pub draw : Server → ℕ → ℕ → ℕ
draw w m i = m - 1

pub draw-below : (w : Server) (m j : ℕ) → 0 < m → draw w m j < m
draw-below w m j h = omega arith

-- A directory service with a service account, as the server stores it.
abbrev pub served : DirectoryService
served = record idrepo {
  meta = record idrepo.meta { creation_timestamp = 6; uid = "5" };
  spec = record idrepo.spec {
    passwords =
        ("uid=admin", record { secret_name = "admin"; key = "dirmanager.pw"; create = true })
        ∷ ("uid=app", record { secret_name = "app"; key = "app.pw"; create = false })
        ∷ [];
  };
}

abbrev secret : String → String → String → Secret
secret name key password = record {
  meta = named name "prod";
  payload = some ((key, password) ∷ []);
}

-- It is there with its secrets.
unfoldable pub server : Server
unfolding running
server =
    let w1 = running.create Kind.directory_service served empty_server in
    let w2 = running.create Kind.secret (secret "admin" "dirmanager.pw" "x") w1.1 in
    (running.create Kind.secret (secret "app" "app.pw" "s3cret") w2.1).1

abbrev connected : Server
connected = record server { connections = 1 }

abbrev conn : DsConnection local
unfolding local
conn = record { url = "ldaps://localhost:1636"; dn = "uid=admin"; password = "x"; ldap = tt }

pub passwords-nodup : NodupKeys served.spec.passwords
unfolding lookup
passwords-nodup = (refl, (refl, tt))

pub is_there : memory.get Kind.directory_service (key_of served.meta) server ≡ ok served
unfolding server running
is_there = refl

is_there_connected : memory.get Kind.directory_service (key_of served.meta) connected ≡ ok served
unfolding server running
is_there_connected = refl

no_set :
    (s : StatefulSet)
    → memory.get Kind.stateful_set (key_of served.meta) server ≡ ok s
    → HasContainers s
unfolding server running
no_set s h = absurd (ok-ne-err h)

no_deployment :
    (d : Deployment)
    → memory.get Kind.deployment (proxy_key memory served) server ≡ ok d
    → HasProxyContainers d
unfolding server running
no_deployment d h = absurd (ok-ne-err h)

admin-Writable : Writable memory (secret_key memory served "uid=admin") server
unfolding server running lookup secret_name_for_dn
admin-Writable = record {
  secret = record (secret "admin" "dirmanager.pw" "x") {
    meta = record (named "admin" "prod") { creation_timestamp = 7; uid = "6" };
  };
  there = refl;
  entries = ("dirmanager.pw", "x") ∷ [];
  payload = refl;
}

pub server-Fit : Fit memory local false false draw memory-IsLawful draw-below served 2 server
server-Fit = record {
  replicas = refl;
  secrets = ((λ c. admin-Writable), ((λ c. absurd cc), tt));
  set = no_set;
  deployment = no_deployment;
}

connect-ends_example :
    Ends
      (connect local "ldaps://localhost:1636" "uid=admin" "x")
      server
      (λ c w'.
        Still memory local local_view server w'
        × (w'.connections ≡ suc server.connections)
        × (lookup "uid=admin" server.directory ≡ some "x"))
      (λ e w'. Moved memory local local_view Nobody server w')
connect-ends_example =
    connect-ends memory local local_view local-IsLawful "ldaps://localhost:1636" "uid=admin" "x"
      server

update_passwords-Checked_example :
    Finishes
      (update_passwords memory local served conn (pos 2_000))
      connected
      (Checked memory local served conn local_view (pos 2_000) connected)
      (λ e w'.
        Partly memory local served conn local_view served.spec.passwords connected w'
        × Blamed memory local served conn local_view served.spec.passwords connected e)
      (λ w'.
        Partly memory local served conn local_view served.spec.passwords connected w'
        × ((served.meta.annotations ≡ none) ⊎ NilClose memory local local_view))
update_passwords-Checked_example =
    update_passwords-Checked memory local served conn local_view memory-IsLawful local-IsLawful
      (pos 2_000) connected passwords-nodup

store_service-old_status_example :
    Ends
      (store_service memory local false false draw served)
      server
      (λ t w'.
        (t ≡ 60)
        × OnlyAt memory Kind.directory_service (key_of served.meta) server w'
        × (service_at memory served served w' ≡ ok (old_status memory served served)))
      (λ e w'. StatusKept memory served served server w')
store_service-old_status_example =
    store_service-old_status memory local false false draw memory-IsLawful served served server
      is_there

with_directory-Served_example :
    Finishes
      (with_directory memory local false false draw (pos 2_000) served conn)
      connected
      (λ t w'.
        (v : Server) × Served memory local local_view (pos 2_000) served served conn connected t v
        × Closed memory local local_view 0 v w')
      (λ e w'.
        (v : Server) × Updated memory local local_view (pos 2_000) served served conn connected v
        × Closed memory local local_view 0 v w')
      (λ w'.
        (v : Server) × Broken memory local local_view (pos 2_000) served served conn connected v
        × Closed memory local local_view 0 v w')
with_directory-Served_example =
    with_directory-Served memory local false false draw local_view memory-IsLawful local-IsLawful
      local-IsAside (pos 2_000) served served conn connected passwords-nodup is_there_connected 0
      refl

reconcile_proxy-Settled_example :
    Finishes
      (reconcile_proxy memory served)
      server
      (λ ds' w'.
        ((served.spec.proxy.enabled ≡ true) × Deployed memory served server ds' w')
        ⊎ ((served.spec.proxy.enabled ≡ false)
            × (ds' ≡ served)
            × Removed memory served Kind.deployment (proxy_key memory served) server (ok tt) w'))
      (λ e w'.
        ((served.spec.proxy.enabled ≡ true) × (w' ≡ server))
        ⊎ ((served.spec.proxy.enabled ≡ false)
            × Removed memory served Kind.deployment (proxy_key memory served) server (err e) w'))
      (λ w'.
        (served.spec.proxy.enabled ≡ false)
        × Removed memory served Kind.deployment (proxy_key memory served) server panic w')
reconcile_proxy-Settled_example =
    reconcile_proxy-Settled memory served memory-IsLawful server no_deployment

snapshot_and_prune-Rotated_example :
    Ends
      (snapshot_and_prune memory (pos 3_000) served)
      server
      (Rotated memory (pos 3_000) served served 1 server)
      (Unrotated memory (pos 3_000) served served server)
snapshot_and_prune-Rotated_example =
    snapshot_and_prune-Rotated memory (pos 3_000) served memory-IsLawful served 1 server is_there
      refl
