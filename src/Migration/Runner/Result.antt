-- ===== src/Migration/Runner/Result.antt =====
-- What `RunMigration` does as a whole, once its logger is there and if no dependency panics in the clean-up.
use ces_importer.Base.{
  String, ◌≡◌, ◌∙◌, ◌↔◌, Bool, false, ◌&&◌, ◌||◌, Option, none, some, [], ◌++◌, Error, join, arith,
  if◌then◌else◌,
}
use ces_importer.Migration.Context.{Context, is_final_migration}
use ces_importer.Migration.Runner.{
  Call, returns, fails, panics, disable, start_all, start_blueprint, Migrator, Run, is_failure,
  is_some, run_error_of, run_panic_of, replaced, migrate, run_migration,
}
use ces_importer.Migration.Runner.Cleanup.{
  NoPanic, reopened, reopening, restarting, answer, mail, after_dogus, after_blueprint, cleanup_lem,
  end_of, last_error, reopen_error, is_panic,
}

-- No error is left exactly if neither the run nor a call of the clean-up gave one.
end_of-returns :
    (r : Call (Unit {0})) (is_final : Bool) (disabled dogus blueprint mailed : Option Error)
    → let e = run_error_of r in
      (end_of (run_panic_of r) (
          replaced e
            (replaced e
              (replaced e (if is_failure r && is_final then replaced e e disabled else e) dogus)
              blueprint)
            mailed)
        ≡ returns tt)
      ↔ ((r ≡ returns tt) × (dogus ≡ none) × (blueprint ≡ none) × (mailed ≡ none))
unfolding join
end_of-returns (returns tt) is_final disabled dogus blueprint mailed = ground arith
end_of-returns (fails e) is_final disabled dogus blueprint mailed = ground arith
end_of-returns (panics p) is_final disabled dogus blueprint mailed = ground arith

module _ {W : Type 0} (m : Migrator W) (ctx : Context) (w : W) where
  abbrev logged : W
  logged = (m.initialize_logger w).1

  abbrev pub body : Call (Unit {0}) × Run W
  body = migrate m (is_final_migration ctx) (record { world = logged; calls = [] })

  abbrev pub whole : Call (Unit {0}) × Run W
  whole = run_migration m ctx (record { world = w; calls = [] })

  abbrev pub failed_final : Bool
  failed_final = is_failure body.0 && is_final_migration ctx

  -- The world in which the dogus are started again.
  abbrev pub restart_world : W
  restart_world = reopened m failed_final body.1.world

  abbrev run_error : Option Error
  run_error = run_error_of body.0

  is_failure-parts :
      (r : Call (Unit {0})) → (is_some (run_error_of r) || is_some (run_panic_of r)) ≡ is_failure r
  is_failure-parts r = ground arith

  module _ (logger_ready : (m.initialize_logger w).0 ≡ returns tt) (no_panic : NoPanic m) where
    -- The run ends as its clean-up does.
    whole_lem :
        (whole.0
          ≡ end_of (run_panic_of body.0) (
              last_error m
                (m.now logged)
                (is_final_migration ctx)
                run_error
                restart_world
                (reopen_error m failed_final run_error body.1.world)))
        × (whole.1.calls
            ≡ body.1.calls
              ++ (reopening failed_final
                  ++ restarting m (m.now logged) (is_final_migration ctx) run_error restart_world))
    unfolding run_migration
    whole_lem =
        let parts =
          cleanup_lem m no_panic (m.now logged) (is_final_migration ctx) run_error
            (run_panic_of body.0) body.1 in
        rw (logger_ready, run_migration) (rw (is_failure-parts body.0) at parts)

    -- If the logger is ready and no dependency panics in the clean-up, a migration makes the calls of its
    -- body and then opens the exporter again exactly if a final migration failed or panicked, starts
    -- the dogus, starts the blueprint and sends the mail, whichever of these calls fail.
    pub run_migration-calls :
        whole.1.calls
        ≡ body.1.calls
          ++ (reopening failed_final
              ++ restarting m (m.now logged) (is_final_migration ctx) run_error restart_world)
    run_migration-calls = whole_lem.1

    -- If the logger is ready and no dependency panics in the clean-up, a migration ends with no error exactly if its body and each of the
    -- calls that start the dogus and the blueprint again and send the mail do.
    pub run_migration-returns : (whole.0 ≡ returns tt) ↔ (
        (body.0 ≡ returns tt)
        × (answer m start_all restart_world ≡ none)
        × (answer m start_blueprint (after_dogus m restart_world) ≡ none)
        × (answer m
              (mail m (is_final_migration ctx) run_error (m.now logged) restart_world)
              (after_blueprint m restart_world)
            ≡ none))
    run_migration-returns = rw whole_lem.0 (
        end_of-returns body.0 (is_final_migration ctx) (answer m disable body.1.world)
          (answer m start_all restart_world)
          (answer m start_blueprint (after_dogus m restart_world))
          (answer m (mail m (is_final_migration ctx) run_error (m.now logged) restart_world)
            (after_blueprint m restart_world)))

    -- If the logger is ready and no dependency panics in the clean-up, a migration that panicked panics again after the clean-up, with the
    -- same value.
    run_migration-panics : (p : String) → body.0 ≡ panics p → whole.0 ≡ panics p
    run_migration-panics p h = whole_lem.0 ∙ rw h

    -- If the logger is ready, no dependency panics in the clean-up, the body does not panic and the mail is not sent, the result is the
    -- body's error joined with the mail's. Errors of the other calls of the clean-up are in it nowhere.
    pub run_migration-mail_error :
        (e : Error)
        → is_panic body.0 ≡ false
        → answer m
            (mail m (is_final_migration ctx) run_error (m.now logged) restart_world)
            (after_blueprint m restart_world)
          ≡ some e
        → whole.0 ≡ end_of none (join run_error (some e))
    run_migration-mail_error e calm failed = whole_lem.0 ∙ rw failed (ground arith)
