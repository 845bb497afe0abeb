-- ===== src/Tests/Runner.antt =====
-- A final migration whose import job fails, one that panics, and one in which nothing fails. The world counts the calls.
use ces_importer.Base.{
  arith, wrap, ℕ, suc, ◌≡◌, ◌↔◌, refl, true, false, none, some, [], ◌++◌, plain, join,
}
use ces_importer.Migration.Types.{SystemInfo}
use ces_importer.Migration.Context.{Context, is_final_migration}
use ces_importer.Migration.Runner.{
  Call, returns, fails, panics, run_job, start_all, start_blueprint, send, Migrator, run_error_of,
  migrate, ◌>>=◌, call, enable_if_final,
}
use ces_importer.Migration.Runner.Cleanup.{
  is_panic, NoPanic, reopening, restarting, answer, mail, after_dogus, after_blueprint, end_of,
}
use ces_importer.Migration.Runner.Result.{
  body, whole, failed_final, restart_world, run_migration-calls, run_migration-returns,
  run_migration-mail_error,
}

abbrev empty_system : SystemInfo
empty_system = record { fqdn = "ces.example"; is_multinode = true; dogus = []; components = [] }

-- The import job answers with `job` and the mail with `letter`.
abbrev migrator : Call (Unit {0}) → Call (Unit {0}) → Migrator ℕ
migrator job letter = record {
  initialize_logger = λ w. (returns tt, suc w);
  now = λ w. w;
  perform = λ op w. (
    elim op as (λ _. Call (Unit {0})) [ run_job ↦ job | send _ _ _ _ ↦ letter | _ ↦ returns tt ],
    suc w,
  );
  query = λ op w. (returns empty_system, suc w);
}

abbrev failing : Migrator ℕ
failing = migrator (fails (plain "rsync exited with error")) (fails (plain "no mail server"))

abbrev panicking : Migrator ℕ
panicking = migrator (panics "nil pointer") (returns tt)

abbrev fine : Migrator ℕ
fine = migrator (returns tt) (returns tt)

abbrev final_ctx : Context
final_ctx = record { final_migration = some true; trigger_fqdn_change = none }

calm : (job letter : Call (Unit {0})) → is_panic letter ≡ false → NoPanic (migrator job letter)
calm job letter h op w c = ground arith

failing_calm : NoPanic failing
failing_calm = calm _ _ refl

run_migration-calls_example :
    (whole failing final_ctx 0).1.calls
    ≡ (body failing final_ctx 0).1.calls
      ++ (reopening (failed_final failing final_ctx 0)
          ++ restarting failing 1
              (is_final_migration final_ctx)
              (run_error_of (body failing final_ctx 0).0)
              (restart_world failing final_ctx 0))
run_migration-calls_example = run_migration-calls failing final_ctx 0 refl failing_calm

run_migration-returns_example :
    let w = restart_world fine final_ctx 0 in
    ((whole fine final_ctx 0).0 ≡ returns tt) ↔ (
      ((body fine final_ctx 0).0 ≡ returns tt)
      × (answer fine start_all w ≡ none)
      × (answer fine start_blueprint (after_dogus fine w) ≡ none)
      × (answer fine
            (mail fine (is_final_migration final_ctx) (run_error_of (body fine final_ctx 0).0) 1 w)
            (after_blueprint fine w)
          ≡ none))
run_migration-returns_example = run_migration-returns fine final_ctx 0 refl (calm _ _ refl)

body-panics : (body panicking final_ctx 0).0 ≡ panics "nil pointer"
unfolding migrate ◌>>=◌ call enable_if_final is_final_migration
body-panics = refl

body-fails :
    (body failing final_ctx 0).0
    ≡ fails (wrap "failed to run migration job" (plain "rsync exited with error"))
unfolding migrate ◌>>=◌ call enable_if_final is_final_migration
body-fails = refl

run_migration-mail_error_example :
    (whole failing final_ctx 0).0
    ≡ end_of none (join (run_error_of (body failing final_ctx 0).0) (some (plain "no mail server")))
run_migration-mail_error_example =
    run_migration-mail_error failing final_ctx 0 refl failing_calm (plain "no mail server")
      (rw body-fails refl) refl
