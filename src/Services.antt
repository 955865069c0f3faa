-- ===== src/Services.antt =====
-- controllers/service.go, proxy_service.go: the services before the servers and the proxies.

pub mod Creation
pub mod Live
use ds_operator.Prelude.{
  ℕ, String, ◌<>◌, Bool, true, false, Option, some, none, List, [], ◌∷◌, Error, Result, ok, err,
  panic, not_found, external, message, wrap, ltb, if◌then◌else◌, ◌==◌, ◌&&◌, Action, pure, raise,
  crash, handle, ◌>>=◌, Dict, lookup,
}
use ds_operator.Kube.Meta.{Key, ObjectMeta, OwnerReference, named}
use ds_operator.Kube.Workloads.{Service, ServicePort}
use ds_operator.Kube.Objects.{Kind}
use ds_operator.Kube.Client.{Client, Mutate}
use ds_operator.Api.Types.{DirectoryService, group_version}
use ds_operator.Labels.{create_labels, label_application_name}
use ds_operator.Settings.{owned}
use ds_operator.Settings.Removal.{remove_owned}

abbrev pub port : String → ℕ → ServicePort
port name number = record { name = name; port = number }

abbrev pub service_ports : List ServicePort
service_ports =
    port "tcp-admin" 4444
    ∷ port "tcp-ldap" 1389
    ∷ port "tcp-ldaps" 1636
    ∷ port "tcp-replication" 8989
    ∷ port "http" 8080
    ∷ []

-- createService
abbrev pub create_service : DirectoryService → Service → Service
create_service ds svc = record {
  meta = record {
    name = svc.meta.name;
    namespace = ds.meta.namespace;
    uid = "";
    labels = some (create_labels ds.meta.name ds.kind none);
    annotations = some [];
    owner_references = [];
    creation_timestamp = 0;
  };
  cluster_ip = "None";
  selector =
      ("app.kubernetes.io/name", label_application_name)
      ∷ ("app.kubernetes.io/instance", ds.meta.name)
      ∷ [];
  ports = service_ports;
}

abbrev pub proxy_name : DirectoryService → String
proxy_name ds = ds.meta.name <> "-proxy"

abbrev pub proxy_labels : DirectoryService → Dict String
proxy_labels ds =
    create_labels (proxy_name ds) ds.kind (some (("app.kubernetes.io/component", "ds-proxy") ∷ []))

abbrev pub proxy_ports : List ServicePort
proxy_ports =
    port "tcp-admin" 4444
    ∷ port "tcp-ldap" 1389
    ∷ port "tcp-ldaps" 1636
    ∷ port "https" 8443
    ∷ port "http" 8080
    ∷ []

-- What Go reads from a map of texts at a key that is not there: the empty text.
abbrev pub or_empty : Option String → String
or_empty none = ""
or_empty (some v) = v

-- The name and the instance, as they are in the labels of a proxy.
unfoldable pub proxy_selector : DirectoryService → Dict String
unfolding lookup
proxy_selector ds =
    ("app.kubernetes.io/name", or_empty (lookup "app.kubernetes.io/name" (proxy_labels ds)))
    ∷ (
      "app.kubernetes.io/instance",
      or_empty (lookup "app.kubernetes.io/instance" (proxy_labels ds)),
    )
    ∷ []

-- createProxyService
abbrev pub create_proxy_service : DirectoryService → Service
create_proxy_service ds = record {
  meta = record {
    name = proxy_name ds;
    namespace = ds.meta.namespace;
    uid = "";
    labels = some (proxy_labels ds);
    annotations = some [];
    owner_references = [];
    creation_timestamp = 0;
  };
  cluster_ip = "";
  selector = proxy_selector ds;
  ports = proxy_ports;
}

abbrev pub empty_service : String → String → Service
empty_service name namespace = record {
  meta = named name namespace;
  cluster_ip = "";
  selector = [];
  ports = [];
}

abbrev pub with_owner : Service → Result ObjectMeta → Result (Service × Unit {0})
with_owner svc (ok m) = ok (record svc { meta = m }, tt)
with_owner svc (err e) = err e
with_owner svc panic = panic

module _ {W : Type 0} (api : Client W) (ds : DirectoryService) where
  -- An existing service stays as it is.
  abbrev pub mutate_with : (Service → Service) → Mutate W (Unit {0}) Kind.service
  mutate_with make w svc =
      if ltb 0 svc.meta.creation_timestamp
      then ok (svc, tt)
      else let made = make svc in
        with_owner made (owned (api.set_controller_reference ds.kind ds.meta made.meta) made.meta)

  unfoldable pub mutate_service : Mutate W (Unit {0}) Kind.service
  mutate_service = mutate_with (create_service ds)

  unfoldable pub reconcile_service : String → Action W Service
  reconcile_service svc_name = do
    (svc, x) ←
        api.create_or_update Kind.service (Unit {0}) (empty_service svc_name ds.meta.namespace)
          mutate_service
    pure svc

  unfoldable pub mutate_proxy_service : Mutate W (Unit {0}) Kind.service
  mutate_proxy_service = mutate_with (λ svc. create_proxy_service ds)

  abbrev pub no_service : Service
  no_service = empty_service "" ""

  abbrev pub proxy_key : Key
  proxy_key = record { namespace = ds.meta.namespace; name = proxy_name ds }

  -- Where the proxy is enabled.
  unfoldable pub apply_proxy_service : Action W Service
  apply_proxy_service = do
    (svc, x) ←
        api.create_or_update Kind.service (Unit {0})
          (empty_service (proxy_name ds) ds.meta.namespace) mutate_proxy_service
    pure svc

  unfoldable pub reconcile_proxy_service : Action W Service
  reconcile_proxy_service w =
      if ds.spec.proxy.enabled
      then apply_proxy_service w
      else (remove_owned api ds Kind.service proxy_key >>= (λ x. pure no_service)) w
