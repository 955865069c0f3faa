-- ===== src/Tests/Startup.antt =====
-- The program is started with a manager that keeps a list.
use ds_operator.Prelude.{
  ◌≡◌, refl, inl, inr, ◌==◌, Bool, true, false, List, [], ◌∷◌, Result, ok, err, external,
  if◌then◌else◌, Bool-cases, Finishes,
}
use ds_operator.Startup.{
  Registration, Manager, Exit, main, run_manager, setup_service, setup_webhook, setup_backup,
  setup_restore,
}
use ds_operator.Startup.Order.{Log, IsOrderly, wanted, Ordered, main-Ordered}

record Desk : Type 0 where
  register : List Registration
  running : Bool
  denied : Bool

abbrev note : Registration → Desk → Result (Unit {0}) × Desk
note r w =
    if w.denied
    then (err (external "denied"), w)
    else (ok tt, record w { register = r ∷ w.register })

desk_manager : Manager Desk
desk_manager = record {
  Handle = Unit {0};
  new_manager = λ o w. (ok tt, w);
  recorder = λ m name w. w;
  complete = λ m. note;
  start = λ m w. (ok tt, record w { running = true });
}

abbrev desk_log : Log Desk
desk_log = record { registered = λ w. w.register; started = λ w. w.running }

note-ends :
    (r : Registration) (w : Desk)
    → Finishes
        (note r)
        w
        (λ x w'. (w'.register ≡ r ∷ w.register) × (w'.running ≡ w.running))
        (λ e w'. (w'.register ≡ w.register) × (w'.running ≡ w.running))
        (λ w'. (w'.register ≡ w.register) × (w'.running ≡ w.running))
note-ends r w = elim (Bool-cases w.denied) [
  | inl d ↦ Finishes.fails (external "denied") w (rw d refl) (refl, refl)
  | inr d ↦ Finishes.returns tt (record w { register = r ∷ w.register }) (rw d refl) (refl, refl)
]

desk_manager-IsOrderly : IsOrderly desk_manager desk_log
unfolding desk_manager
desk_manager-IsOrderly = record {
  makes = λ o w. Finishes.returns tt w refl (refl, refl);
  records = λ m name w. (refl, refl);
  completes = λ m r w. note-ends r w;
  starts = λ m w. Finishes.returns tt (record w { running = true }) refl (refl, refl);
}

abbrev empty_desk : Desk
empty_desk = record { register = []; running = false; denied = false }

-- With the webhook four registrations.
main_run :
    main desk_manager ":8080" false "true" empty_desk
    ≡ (Exit.returned, record empty_desk { register = wanted true; running = true })
unfolding main run_manager setup_service setup_webhook setup_backup setup_restore desk_manager
main_run = refl

main-Ordered_example :
    Ordered desk_manager desk_log
      ("false" == "true")
      (main desk_manager ":8080" false "false" empty_desk)
main-Ordered_example =
    main-Ordered desk_manager desk_log desk_manager-IsOrderly "false" ":8080" false empty_desk refl
      refl
