-- ===== src/Ldap.antt =====
-- pkg/ldap/client.go: the connection to the directory server, over the operations of go-ldap that
-- it calls, which are parameters.
pub mod Laws
pub mod Closing
pub mod Memory
pub mod Times
pub mod Live
pub mod Calm
use ds_operator.Prelude.{
  ℕ, ℤ, Bool, false, Option, some, none, ok, panic, String, ◌<>◌, ◌==◌, if◌then◌else◌, List, [],
  ◌∷◌, ◌++◌, Error, Result, err, message, Action, pure, raise, try_else, ignore, ◌>>=◌, decimal_ℤ,
}

pub record Entry : Type 0 where
  pub dn : String
  pub attributes : List (String × List String)

-- ldap.SearchRequest; the scope is the whole subtree and aliases are not followed.
pub record SearchRequest : Type 0 where
  pub base_dn : String
  pub size_limit : ℕ
  pub time_limit : ℕ
  pub types_only : Bool
  pub filter : String
  pub attributes : List String

-- What a search returns: a result that may be nil, and an error.
pub record SearchReply : Type 0 where
  pub entries : Option (List Entry)
  pub error : Option Error

-- go-ldap. A connection is a value of `Conn`; `close_unopened` is `Close` on the nil connection that
-- a failed dial returns; `error_text` is the text of an error.
pub record Directory (W : Type 0) : Type 1 where
  pub Conn : Type 0
  pub dial : String → Action W Conn
  pub bind : Conn → String → String → Action W (Unit {0})
  pub close : Conn → Action W (Unit {0})
  pub close_unopened : Action W (Unit {0})
  pub password_modify : Conn → String → String → Action W (Unit {0})
  pub add : Conn → String → List (String × List String) → Action W (Unit {0})
  pub search : Conn → SearchRequest → W → SearchReply × W
  pub error_text : Error → String

abbrev pub purge_task_dn : String → String
purge_task_dn id = "ds-recurring-task-id=" <> id <> "-purge,cn=Recurring Tasks,cn=Tasks"

abbrev pub backup_task_dn : String → String
backup_task_dn id = "ds-recurring-task-id=" <> id <> "-backup,cn=Recurring Tasks,cn=Tasks"

-- The attributes of the request that adds a task, in order.
unfoldable pub task_attributes : String → String → String → String → ℤ → List (String × List String)
task_attributes task_id cron backup_path task_obj_class purge_hours =
    (("objectclass", "top" ∷ "ds-task" ∷ "ds-recurring-task" ∷ task_obj_class ∷ [])
      ∷ ("description", "task auto scheduled by ds-operator" ∷ [])
      ∷ ("ds-backup-location", backup_path ∷ [])
      ∷ ("ds-task-id", task_id ∷ [])
      ∷ ("ds-task-state", "RECURRING" ∷ [])
      ∷ ("ds-recurring-task-schedule", cron ∷ [])
      ∷ [])
    ++ (if task_obj_class == "ds-task-purge"
        then ("ds-task-class-name", "org.opends.server.tasks.BackupPurgeTask" ∷ [])
          ∷ ("ds-task-purge-older-than", (decimal_ℤ purge_hours <> "h") ∷ [])
          ∷ []
        else ("ds-task-class-name", "org.opends.server.tasks.BackupTask" ∷ []) ∷ [])
    ++ (
      "ds-task-backup-storage-property",
      "gs.credentials.path:/var/run/secrets/cloud-credentials-cache/gcp-credentials.json"
          ∷ "s3.keyId.env.var:AWS_ACCESS_KEY_ID" ∷ "s3.secret.env.var:AWS_SECRET_ACCESS_KEY"
          ∷ "az.accountName.env.var:AZURE_ACCOUNT_NAME" ∷ "az.accountKey.env.var:AZURE_ACCOUNT_KEY"
          ∷ [],
    )
      ∷ []

abbrev pub uid_request : String → SearchRequest
uid_request dn = record {
  base_dn = "ou=admins,ou=identities";
  size_limit = 0;
  time_limit = 0;
  types_only = false;
  filter = "(uid=" <> dn <> ")";
  attributes = "dn" ∷ "cn" ∷ "uid" ∷ [];
}

abbrev pub monitor_request : SearchRequest
monitor_request = record {
  base_dn = "cn=monitor";
  size_limit = 100;
  time_limit = 0;
  types_only = false;
  filter = "(objectclass=*)";
  attributes = [];
}

-- A nil result and an empty list of entries are both a panic.
abbrev pub first_of : Option Error → Option (List Entry) → Result Entry
first_of (some e) entries = err e
first_of none none = panic
first_of none (some []) = panic
first_of none (some (entry ∷ entries)) = ok entry

-- PrettyPrint of a nil result is a panic.
abbrev pub printed : Option (List Entry) → Option Error → Result (Unit {0})
printed none error = panic
printed (some entries) none = ok tt
printed (some entries) (some e) = err e

abbrev pub cant_bind : String → String → String → Error
cant_bind url dn reason =
    message ("Cant bind ldap connection to " <> url <> " wiht " <> dn <> ": " <> reason <> " ")

abbrev pub cant_open : String → String → String → Error
cant_open url dn reason =
    message ("Cant open ldap connection to " <> url <> " using dn " <> dn <> " :  " <> reason)

module _ {W : Type 0} (dir : Directory W) where
  -- DSConnection, connected
  pub record DsConnection : Type 0 where
    pub url : String
    pub dn : String
    pub password : String
    pub ldap : dir.Conn

  -- The bind as the administrator; where it fails the connection is closed.
  unfoldable pub bind_admin : String → String → String → dir.Conn → Action W DsConnection
  bind_admin url dn password l =
      try_else (dir.bind l dn password)
        (λ x. pure (record { url = url; dn = dn; password = password; ldap = l }))
        (λ e. ignore (dir.close l) >>= (λ x. raise (cant_bind url dn (dir.error_text e))))

  unfoldable pub connect : String → String → String → Action W DsConnection
  connect url dn password =
      try_else (dir.dial url) (bind_admin url dn password)
        (λ e. raise (cant_open url dn (dir.error_text e)))

  -- The result of `f`, after the deferred `Close`, whose own result is dropped.
  abbrev pub closing : {A : Type 0} → Action W (Unit {0}) → Result A → Action W A
  closing c r = try_else c (λ x w. (r, w)) (λ e w. (r, w))

  -- A connection of its own, since a bind would end the administrator's. The deferred `Close` is
  -- called on the nil connection too.
  unfoldable pub bind_password : DsConnection → String → String → Action W (Unit {0})
  bind_password ds dn password =
      try_else (dir.dial ds.url)
        (λ t w. let done = dir.bind t dn password w in closing (dir.close t) done.0 done.1)
        (λ e. closing dir.close_unopened (err e))

  unfoldable pub update_password : DsConnection → String → String → Action W (Unit {0})
  update_password ds dn new_password = dir.password_modify ds.ldap dn new_password

  unfoldable pub create_task :
      DsConnection → String → String → String → String → String → ℤ → Action W (Unit {0})
  create_task ds task_id task_dn cron backup_path task_obj_class purge_hours =
      dir.add ds.ldap task_dn (task_attributes task_id cron backup_path task_obj_class purge_hours)

  unfoldable pub close_connection : DsConnection → Action W (Unit {0})
  close_connection ds = dir.close ds.ldap

  -- `res.Entries[0]`, where there was no error; the loop before it only prints.
  unfoldable pub get_entry : DsConnection → String → Action W Entry
  get_entry ds dn w =
      let (reply, w') = dir.search ds.ldap (uid_request dn) w in
      (first_of reply.error reply.entries, w')

  -- The result is printed before the error is looked at.
  unfoldable pub get_monitor_data : DsConnection → Action W (Unit {0})
  get_monitor_data ds w =
      let (reply, w') = dir.search ds.ldap monitor_request w in
      (printed reply.entries reply.error, w')
