-- ===== src/Tests/Accounts.antt =====
-- Secrets, passwords and admission.
use mathlib.Core.Path.{subst}
use ds_operator.Prelude.{
  ◌-◌, List, ℕ, ◌<◌, ℤ, pos, String, true, false, decimal_ℤ, ltb, ◌≡◌, ◌≢◌, refl, ◌↔◌, ◌⊎◌, ◌≤ℤ◌,
  some, none, [], ◌∷◌, ok, panic, arith, Ends, lookup, ok-injective, ok-ne-err,
}
use ds_operator.Kube.Meta.{named, key_of}
use ds_operator.Kube.Workloads.{Secret, StatefulSet}
use ds_operator.Kube.Objects.{Kind}
use ds_operator.Kube.Memory.{Server, memory, running}
use ds_operator.Kube.Memory.Lawful.{memory-IsLawful}
use ds_operator.Api.Types.{DirectoryService, DirectoryPasswords, secret_name_for_dn}
use ds_operator.Secrets.{reconcile_secrets, rand_password}
use ds_operator.Secrets.Keep.{Keeps, Writable, secret_key, Picked, spelled, rand_password-ok}
use ds_operator.Secrets.Outcome.{Done, reconcile_secrets-Keeps, reconcile_secrets_new}
use ds_operator.Webhook.{default, validate_create}
use ds_operator.Webhook.Validation.{validate_create-default}
use ds_operator.Ldap.{Directory, DsConnection}
use ds_operator.Passwords.{update_passwords, too_soon}
use ds_operator.Passwords.Schedule.{too_soon-decimal_ℤ}
use ds_operator.Passwords.Annotations.{update_passwords_unannotated}
use ds_operator.StatefulSets.Template.{stateful_set, with_debug}
use ds_operator.StatefulSets.Alignment.{HasContainers}
use ds_operator.StatefulSets.Updates.{Reconciled}
use ds_operator.Reconcile.{prepare_pods}
use ds_operator.Reconcile.Pods.{AllClaims, InOrder, prepare_pods-InOrder}
use ds_operator.Reconcile.Stable.{Again, prepare_pods-Again}
use ds_operator.Reconcile.Histories.{Consistent, History, History-Consistent}
use ds_operator.Tests.Data.{idrepo, pod_template, empty_server}

abbrev draw : Server → ℕ → ℕ → ℕ
draw w m i = m - 1

draw-below : (w : Server) (m j : ℕ) → 0 < m → draw w m j < m
draw-below w m j h = omega arith

rand_password-ok_example :
    (picks : List String) × Picked (λ m i. m - 1) 24 0 picks
    × (rand_password (λ m i. m - 1) 24 0 ≡ ok (spelled picks))
rand_password-ok_example = rand_password-ok (λ m i. m - 1) 24 0 (λ m j h. omega arith)

abbrev admin : DirectoryPasswords
admin = record { secret_name = "admin"; key = "dirmanager.pw"; create = true }

abbrev one_account : DirectoryService
one_account = record idrepo { spec = record idrepo.spec { passwords = ("uid=admin", admin) ∷ [] } }

-- A secret of the account's name with another password.
abbrev stored : Secret
stored = record {
  meta = record (named "admin" "prod") { creation_timestamp = 6; uid = "5" };
  payload = some (("other.pw", "x") ∷ []);
}

secret_server : Server
unfolding running
secret_server = (running.create Kind.secret stored empty_server).1

secret_server-Writable : Writable memory (secret_key memory one_account "uid=admin") secret_server
unfolding secret_server running lookup secret_name_for_dn
secret_server-Writable = record {
  secret = stored;
  there = refl;
  entries = ("other.pw", "x") ∷ [];
  payload = refl;
}

reconcile_secrets-Keeps_example :
    Ends
      (reconcile_secrets memory draw one_account)
      secret_server
      (λ _ w'.
        Keeps memory secret_server w'
        × Done memory draw one_account memory-IsLawful draw-below one_account.spec.passwords w')
      (λ _ w'. Keeps memory secret_server w')
reconcile_secrets-Keeps_example =
    reconcile_secrets-Keeps memory draw one_account memory-IsLawful draw-below secret_server
      ((λ c. secret_server-Writable), tt)

reconcile_secrets_new_example : (reconcile_secrets memory draw one_account empty_server).0 ≡ panic
unfolding running
reconcile_secrets_new_example =
    reconcile_secrets_new memory draw one_account memory-IsLawful draw-below "uid=admin" admin []
      empty_server refl refl refl

validate_create-default_example :
    (validate_create (default idrepo) ≡ ok tt)
    ↔ ((idrepo.spec.replicas ≡ none) ⊎ ((r : ℤ) × (idrepo.spec.replicas ≡ some r) × (r ≤ℤ pos 6)))
validate_create-default_example = validate_create-default idrepo

-- A directory server that accepts everything.
abbrev open_directory : Directory Server
open_directory = record {
  Conn = Unit {0};
  dial = λ url w. (ok tt, w);
  bind = λ c dn pw w. (ok tt, w);
  close = λ c w. (ok tt, w);
  close_unopened = λ w. (panic, w);
  password_modify = λ c dn pw w. (ok tt, w);
  add = λ c dn attributes w. (ok tt, w);
  search = λ c request w. (record { entries = some []; error = none }, w);
  error_text = λ e. "refused";
}

abbrev admin_connection : DsConnection open_directory
admin_connection = record {
  url = "ldaps://localhost:1636";
  dn = "uid=admin";
  password = "x";
  ldap = tt;
}

abbrev bare : DirectoryService
bare = record idrepo { meta = record idrepo.meta { annotations = none } }

update_passwords_unannotated_example :
    (update_passwords memory open_directory bare admin_connection (pos 2_000) empty_server).0
    ≢ ok bare
update_passwords_unannotated_example =
    update_passwords_unannotated memory open_directory bare admin_connection (pos 2_000)
      empty_server bare refl

-- The account's secret, and a stateful set that was made before.
abbrev old_set : StatefulSet
old_set = stateful_set false one_account "ds-idrepo" pod_template.volume_claim_spec

pods_server : Server
unfolding secret_server running
pods_server = (running.create Kind.stateful_set old_set secret_server).1

pods_server-Writable : Writable memory (secret_key memory one_account "uid=admin") pods_server
unfolding pods_server secret_server running lookup secret_name_for_dn
pods_server-Writable = record {
  secret = stored;
  there = refl;
  entries = ("other.pw", "x") ∷ [];
  payload = refl;
}

pods_server-HasContainers :
    (s : StatefulSet)
    → memory.get Kind.stateful_set (key_of one_account.meta) pods_server ≡ ok s
    → HasContainers s
unfolding pods_server secret_server running with_debug
pods_server-HasContainers s g = subst HasContainers (ok-injective g) (omega arith, omega arith)

prepare_pods-InOrder_example :
    Ends
      (prepare_pods memory open_directory false false draw one_account)
      pods_server
      (λ ds' w'.
        AllClaims memory open_directory false false draw memory-IsLawful draw-below one_account 2 w'
        × ((at : Server) × Reconciled memory false one_account "ds-idrepo" at ds' w'))
      (λ _ w'.
        InOrder memory open_directory false false draw memory-IsLawful draw-below one_account 2
          pods_server w')
prepare_pods-InOrder_example =
    prepare_pods-InOrder memory open_directory false false draw memory-IsLawful draw-below
      one_account 2 pods_server refl ((λ c. pods_server-Writable), tt) pods_server-HasContainers

prepare_pods-Again_example :
    Ends
      (prepare_pods memory open_directory false false draw one_account)
      pods_server
      (λ ds' w'.
        Again memory open_directory false false draw memory-IsLawful draw-below one_account 2 w')
      (λ e w'. Unit)
prepare_pods-Again_example =
    prepare_pods-Again memory open_directory false false draw memory-IsLawful draw-below one_account
      2 pods_server refl ((λ c. pods_server-Writable), tt) pods_server-HasContainers

no_set :
    (s : StatefulSet)
    → memory.get Kind.stateful_set (key_of one_account.meta) secret_server ≡ ok s
    → ⊥
unfolding secret_server running
no_set s g = ok-ne-err g

secret_server-Consistent :
    Consistent memory open_directory false false draw memory-IsLawful draw-below one_account 2
      secret_server
secret_server-Consistent = record {
  secrets = ((λ c. secret_server-Writable), tt);
  containers = λ s g. absurd (no_set s g);
  claims = λ s g. absurd (no_set s g);
}

-- Twice in succession.
abbrev after_call : Server → Server
after_call w = (prepare_pods memory open_directory false false draw one_account w).1

History-Consistent_example :
    Consistent memory open_directory false false draw memory-IsLawful draw-below one_account 2
      (after_call (after_call secret_server))
    × ((prepare_pods memory open_directory false false draw one_account
          (after_call (after_call secret_server))).0
        ≢ panic)
History-Consistent_example =
    History-Consistent memory open_directory false false draw memory-IsLawful draw-below one_account
      2 secret_server (after_call (after_call secret_server)) refl secret_server-Consistent
      (History.call (after_call secret_server) (History.call secret_server History.begin))

too_soon-decimal_ℤ_example :
    too_soon (pos 1_700_000_200) (decimal_ℤ (pos 1_700_000_059)) ≡ ltb 1_700_000_200 1_700_000_359
unfolding too_soon
too_soon-decimal_ℤ_example =
    too_soon-decimal_ℤ 1_700_000_200 1_700_000_059 (omega arith) (omega arith)
