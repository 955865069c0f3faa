-- ===== src/Tests/Runs.antt =====
-- Backups and restores.
use ds_operator.Prelude.{ℤ, pos, false, refl, some, none, Ends}
use ds_operator.Kube.Meta.{Key, ObjectMeta, named}
use ds_operator.Kube.Workloads.{Job}
use ds_operator.Kube.Objects.{Kind}
use ds_operator.Kube.Memory.{Server, memory, running}
use ds_operator.Kube.Memory.Lawful.{memory-IsLawful}
use ds_operator.Api.Types.{DirectoryBackup, DirectoryRestore}
use ds_operator.Jobs.{empty_job}
use ds_operator.Backups.{reconcile_backup}
use ds_operator.Backups.Advances.{Advances}
use ds_operator.Backups.Outcome.{BackedUp, reconcile_backup-BackedUp}
use ds_operator.Restores.{reconcile_restore}
use ds_operator.Restores.Safety.{Gentle}
use ds_operator.Restores.Outcome.{Restored, reconcile_restore-Restored}
use ds_operator.Restores.Telling.{Told, Refuses, reconcile_restore-Tells}
use ds_operator.Tests.Data.{pod_template, empty_server}

abbrev nightly_key : Key
nightly_key = record { namespace = "prod"; name = "nightly" }

-- Objects as the server stores them at the times 6 and 7.
abbrev nightly : ObjectMeta
nightly = record (named "nightly" "prod") { creation_timestamp = 6; uid = "5" }

abbrev backup : DirectoryBackup
backup = record {
  kind = "DirectoryBackup";
  meta = nightly;
  pod_template = pod_template;
  claim_to_backup = "data-ds-idrepo-0";
  status = record { start_timestamp = none; completion_timestamp = none };
}

abbrev restore : DirectoryRestore
restore = record {
  kind = "DirectoryRestore";
  meta = nightly;
  pod_template = pod_template;
  source_pvc_name = "nightly";
  status = record { start_timestamp = none; completion_timestamp = none };
}

abbrev job_with : ℤ → ℤ → Job
job_with failed succeeded = record (empty_job "nightly" "prod") {
  meta = record (named "nightly" "prod") { creation_timestamp = 7; uid = "6" };
  status = record { completion_time = some 60; failed = failed; succeeded = succeeded };
}

backup_server : Server
unfolding running
backup_server =
    (running.create Kind.job (job_with (pos 0) (pos 1))
      (running.create Kind.directory_backup backup empty_server).1).1

reconcile_backup-BackedUp_example :
    Ends
      (reconcile_backup memory false nightly_key)
      backup_server
      (λ _ w'.
        BackedUp memory memory-IsLawful false backup
          (some (job_with (pos 0) (pos 1)))
          backup_server
          w')
      (λ _ w'. Advances memory backup_server w')
unfolding backup_server running
reconcile_backup-BackedUp_example =
    reconcile_backup-BackedUp memory memory-IsLawful false nightly_key backup
      (some (job_with (pos 0) (pos 1))) backup_server refl refl

restore_server : ℤ → ℤ → Server
unfolding running
restore_server failed succeeded =
    (running.create Kind.job (job_with failed succeeded)
      (running.create Kind.directory_restore restore empty_server).1).1

reconcile_restore-Restored_example :
    Ends
      (reconcile_restore memory false nightly_key)
      (restore_server (pos 0) (pos 1))
      (Restored memory false nightly_key restore
        (some (job_with (pos 0) (pos 1)))
        (restore_server (pos 0) (pos 1)))
      (λ _ w'. Gentle memory (restore_server (pos 0) (pos 1)) w')
unfolding restore_server running
reconcile_restore-Restored_example =
    reconcile_restore-Restored memory false nightly_key memory-IsLawful restore
      (some (job_with (pos 0) (pos 1))) (restore_server (pos 0) (pos 1)) refl refl

reconcile_restore-Tells_example :
    Ends
      (reconcile_restore memory false nightly_key)
      (restore_server (pos 1) (pos 0))
      (Told memory false nightly_key restore
        (job_with (pos 1) (pos 0))
        (restore_server (pos 1) (pos 0)))
      (Refuses memory false nightly_key restore
        (job_with (pos 1) (pos 0))
        (restore_server (pos 1) (pos 0)))
unfolding restore_server running
reconcile_restore-Tells_example =
    reconcile_restore-Tells memory false nightly_key restore (job_with (pos 1) (pos 0))
      (restore_server (pos 1) (pos 0)) memory-IsLawful refl refl
