-- ===== src/Startup.antt =====
-- main.go, and the SetupWithManager functions: the manager is made, the controllers and the webhook
-- are registered with it, and it is started.
pub mod Order
use ds_operator.Prelude.{
  String, ◌==◌, Bool, true, false, List, [], ◌∷◌, Error, Result, ok, err, panic, Action, pure,
  if◌then◌else◌, ◌>>=◌,
}
use ds_operator.Kube.Objects.{Kind}

-- ctrl.Options; the scheme is that of all three APIs.
pub record Options : Type 0 where
  pub bind_address : String
  pub leader_election : Bool
  pub leader_election_id : String

-- What a builder is given before `Complete`: the kind that is reconciled, and the kinds that are
-- owned, or the kind whose admission is checked.
pub data Registration : Type 0 where
  controller : Kind → List Kind → Registration
  webhook : Kind → Registration

-- The manager of controller-runtime. `recorder` is GetEventRecorderFor.
pub record Manager (W : Type 0) : Type 1 where
  pub Handle : Type 0
  pub new_manager : Options → Action W Handle
  pub recorder : Handle → String → W → W
  pub complete : Handle → Registration → Action W (Unit {0})
  pub start : Handle → Action W (Unit {0})

abbrev pub service_controller : Registration
service_controller =
    Registration.controller Kind.directory_service (Kind.secret ∷ Kind.stateful_set ∷ [])

abbrev pub backup_controller : Registration
backup_controller =
    Registration.controller Kind.directory_backup (Kind.claim ∷ Kind.snapshot ∷ Kind.job ∷ [])

abbrev pub restore_controller : Registration
restore_controller = Registration.controller Kind.directory_restore []

-- How the process ends.
pub data Exit : Type 0 where
  returned : Exit
  exit_1 : Exit
  crashed : Exit

abbrev pub finish : {W A : Type 0} → Result A → (A → W → Exit × W) → W → Exit × W
finish (ok a) f w = f a w
finish (err e) f w = (Exit.exit_1, w)
finish panic f w = (Exit.crashed, w)

-- `if err != nil { os.Exit(1) }`
abbrev pub or_exit : {W A : Type 0} → Action W A → (A → W → Exit × W) → W → Exit × W
or_exit m f w = finish (m w).0 f (m w).1

module _ {W : Type 0} (mgr : Manager W) where
  unfoldable pub setup_service : mgr.Handle → Action W (Unit {0})
  setup_service m w = mgr.complete m service_controller (mgr.recorder m "DirectoryService" w)

  unfoldable pub setup_webhook : mgr.Handle → Action W (Unit {0})
  setup_webhook m = mgr.complete m (Registration.webhook Kind.directory_service)

  unfoldable pub setup_backup : mgr.Handle → Action W (Unit {0})
  setup_backup m = mgr.complete m backup_controller

  unfoldable pub setup_restore : mgr.Handle → Action W (Unit {0})
  setup_restore m = mgr.complete m restore_controller

  abbrev pub options_of : String → Bool → Options
  options_of metrics_addr leader_election = record {
    bind_address = metrics_addr;
    leader_election = leader_election;
    leader_election_id = "5bca1d4b.forgerock.io";
  }

  -- `webhooks` is the variable ENABLE_WEBHOOKS.
  unfoldable pub run_manager : String → mgr.Handle → W → Exit × W
  run_manager webhooks m = or_exit (setup_service m) (λ x.
      or_exit (if webhooks == "true" then setup_webhook m else pure tt) (λ x.
        or_exit (setup_backup m) (λ x.
          or_exit (setup_restore m) (λ x. or_exit (mgr.start m) (λ x w. (Exit.returned, w))))))

  unfoldable pub main : String → Bool → String → W → Exit × W
  main metrics_addr leader_election webhooks =
      or_exit (mgr.new_manager (options_of metrics_addr leader_election)) (run_manager webhooks)
