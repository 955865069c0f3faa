-- ===== src/Startup/Order.antt =====
-- main.go: what has been registered when the manager is started.
use ds_operator.Prelude.{
  ◌≡◌, refl, ap, ◌∙◌, ◌⊎◌, inl, inr, String, ◌==◌, Bool, true, false, List, [], ◌∷◌, Action, pure,
  if◌then◌else◌, Finishes, Finishes_mono, Finishes_at,
}
use ds_operator.Kube.Objects.{Kind}
use ds_operator.Startup.{
  Options, Registration, Manager, Exit, service_controller, backup_controller, restore_controller,
  or_exit, options_of, setup_service, setup_webhook, setup_backup, setup_restore, run_manager, main,
}

-- What can be told of a world: what has been registered, the last first, and whether a manager has
-- been started.
pub record Log (W : Type 0) : Type 0 where
  pub registered : W → List Registration
  pub started : W → Bool

-- In order, the last first.
abbrev pub wanted : Bool → List Registration
wanted webhooks =
    restore_controller
    ∷ backup_controller
    ∷ (if webhooks
        then Registration.webhook Kind.directory_service ∷ service_controller ∷ []
        else service_controller ∷ [])

module _ {W : Type 0} (mgr : Manager W) (log : Log W) where
  abbrev Same : W → W → Type 0
  Same w w' = (log.registered w' ≡ log.registered w) × (log.started w' ≡ log.started w)

  -- As controller-runtime documents it: Complete registers or fails, and only Start starts.
  pub record IsOrderly : Type 0 where
    pub makes :
        (o : Options) (w : W)
        → Finishes (mgr.new_manager o) w (λ m w'. Same w w') (λ e w'. Same w w') (λ w'. Same w w')
    pub records : (m : mgr.Handle) (name : String) (w : W) → Same w (mgr.recorder m name w)
    pub completes :
        (m : mgr.Handle) (r : Registration) (w : W)
        → Finishes
            (mgr.complete m r)
            w
            (λ x w'. (log.registered w' ≡ r ∷ log.registered w) × (log.started w' ≡ log.started w))
            (λ e w'. Same w w')
            (λ w'. Same w w')
    pub starts :
        (m : mgr.Handle) (w : W)
        → Finishes
            (mgr.start m)
            w
            (λ x w'. (log.registered w' ≡ log.registered w) × (log.started w' ≡ true))
            (λ e w'. log.registered w' ≡ log.registered w)
            (λ w'. log.registered w' ≡ log.registered w)

  -- A manager has been started with all that was wanted; or none has, and the process has failed.
  abbrev pub Ordered : Bool → Exit × W → Type 0
  Ordered webhooks done =
      ((log.registered done.1 ≡ wanted webhooks)
        × (done.0 ≡ Exit.returned → log.started done.1 ≡ true))
      ⊎ ((log.started done.1 ≡ false) × (done.0 ≡ Exit.returned → ⊥))

  module _ (orderly : IsOrderly) (webhooks : String) where
    abbrev Unstarted : List Registration → W → Type 0
    Unstarted l w = (log.registered w ≡ l) × (log.started w ≡ false)

    -- A step that does not start the manager.
    step :
        {A : Type 0} (m : Action W A) (f : A → W → Exit × W) (w : W) (l : List Registration)
        → Finishes m w
            (λ a w'. Unstarted l w')
            (λ e w'. log.started w' ≡ false)
            (λ w'. log.started w' ≡ false)
        → ((a : A) (w' : W) → Unstarted l w' → Ordered (webhooks == "true") (f a w'))
        → Ordered (webhooks == "true") (or_exit m f w)
    step m f w l (Finishes.returns a w' run u) next = rw run (next a w' u)
    step m f w l (Finishes.fails e w' run s) next = rw run (inr (s, (λ e. cc)))
    step m f w l (Finishes.panics w' run s) next = rw run (inr (s, (λ e. cc)))

    registers :
        (m : mgr.Handle) (r : Registration) (l : List Registration) (w v : W)
        → Same v w
        → Unstarted l v
        → Finishes
            (mgr.complete m r)
            w
            (λ x w'. Unstarted (r ∷ l) w')
            (λ e w'. log.started w' ≡ false)
            (λ w'. log.started w' ≡ false)
    registers m r l w v (same, still) (u, s) =
        Finishes_mono (λ x w' (g, h). (g ∙ ap (λ k. r ∷ k) (same ∙ u), h ∙ still ∙ s))
          (λ e w' (g, h). h ∙ still ∙ s) (λ w' (g, h). h ∙ still ∙ s) (orderly.completes m r w)

    -- The registrations after the webhook's turn.
    abbrev after_webhook : Bool → List Registration
    after_webhook b =
        if b
        then Registration.webhook Kind.directory_service ∷ service_controller ∷ []
        else service_controller ∷ []

    webhook_turn :
        (b : Bool) (m : mgr.Handle) (w : W)
        → Unstarted (service_controller ∷ []) w
        → Finishes
            (if b then setup_webhook mgr m else pure tt)
            w
            (λ x w'. Unstarted (after_webhook b) w')
            (λ e w'. log.started w' ≡ false)
            (λ w'. log.started w' ≡ false)
    unfolding setup_webhook
    webhook_turn true m w u =
        registers m (Registration.webhook Kind.directory_service) (service_controller ∷ []) w w
          (refl, refl) u
    webhook_turn false m w u = Finishes.returns tt w refl u

    starting :
        (m : mgr.Handle) (w : W)
        → Unstarted (wanted (webhooks == "true")) w
        → Ordered (webhooks == "true") (or_exit (mgr.start m) (λ x w. (Exit.returned, w)) w)
    starting m w (u, s) = elim (orderly.starts m w) [
      | Finishes.returns x w' run (g, h) ↦ rw run (inl (g ∙ u, (λ e. h)))
      | Finishes.fails e w' run g ↦ rw run (inl (g ∙ u, (λ e. absurd cc)))
      | Finishes.panics w' run g ↦ rw run (inl (g ∙ u, (λ e. absurd cc)))
    ]

    run_manager-Ordered :
        (m : mgr.Handle) (w : W)
        → Unstarted [] w
        → Ordered (webhooks == "true") (run_manager mgr webhooks m w)
    unfolding run_manager setup_service setup_backup setup_restore
    run_manager-Ordered m w u =
        step (setup_service mgr m) _ w (service_controller ∷ [])
          (Finishes_at (mgr.complete m service_controller) (mgr.recorder m "DirectoryService" w)
            refl
            (registers m service_controller [] (mgr.recorder m "DirectoryService" w) w
              (orderly.records m "DirectoryService" w) u))
          (λ x w1 u1.
            step (if webhooks == "true" then setup_webhook mgr m else pure tt) _ w1
              (after_webhook (webhooks == "true")) (webhook_turn (webhooks == "true") m w1 u1)
              (λ x w2 u2.
                step (setup_backup mgr m) _ w2
                  (backup_controller ∷ after_webhook (webhooks == "true"))
                  (registers m backup_controller _ w2 w2 (refl, refl) u2)
                  (λ x w3 u3.
                    step (setup_restore mgr m) _ w3 (wanted (webhooks == "true"))
                      (registers m restore_controller _ w3 w3 (refl, refl) u3)
                      (λ x w4 u4. starting m w4 u4))))

    -- From a world where nothing is registered and no manager started, main starts the manager only
    -- when the three controllers are registered, and the webhook of DirectoryService between them
    -- exactly if it is asked for: the service's first, the restore's last. If the manager is never
    -- started, main does not end as if all went well.
    pub main-Ordered :
        (metrics_addr : String) (leader_election : Bool) (w : W)
        → log.registered w ≡ []
        → log.started w ≡ false
        → Ordered (webhooks == "true") (main mgr metrics_addr leader_election webhooks w)
    unfolding main
    main-Ordered metrics_addr leader_election w none_yet stopped =
        step (mgr.new_manager (options_of mgr metrics_addr leader_election))
          (run_manager mgr webhooks) w []
          (Finishes_mono (λ m w' (g, h). (g ∙ none_yet, h ∙ stopped)) (λ e w' (g, h). h ∙ stopped)
            (λ w' (g, h). h ∙ stopped)
            (orderly.makes (options_of mgr metrics_addr leader_election) w))
          (λ m w1 u1. run_manager-Ordered m w1 u1)
