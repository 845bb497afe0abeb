-- ===== src/Tests/Migrator/Whole.antt =====
-- The whole run of the migration, its job and its clean-up.
use ces_importer.Base.{◌≡◌, ◌↔◌, refl, true}
use ces_importer.Migration.Context.{is_final_migration}
use ces_importer.Migration.Runner
use ces_importer.Migration.Runner.{Migrator, returns}
use ces_importer.Migration.Runner.Chain.{has_job, Prepared, run_migration-Prepared}
use ces_importer.Migration.Runner.Result.{whole}
use ces_importer.Migration.Runner.Cleanup.{mail as mail_op}
use ces_importer.Programs.Migrator.Completed.{Completed}
use ces_importer.Migration.Job.Service
use ces_importer.Migration.Job.Provider
use ces_importer.Migration.Job.Volumes
use ces_importer.Importer.Blueprints
use ces_importer.Importer.Blueprints.{BlueprintInterface}
use ces_importer.Importer.Dogus
use ces_importer.Mail.Sender.{send as mail_send}
use ces_importer.Programs.Migrator.{migrator}
use ces_importer.Programs.Migrator.Cleared.{Cleared, migrator-NoPanic}
use ces_importer.Tests.Jobs.{final_ctx}
use ces_importer.Tests.Migrator.{parts, m, start}

logged : (m.initialize_logger start).0 ≡ returns tt
unfolding migrator
logged = refl

run_migration-Prepared_example :
    (has_job (whole m final_ctx start).1.calls ≡ true)
    ↔ Prepared m (is_final_migration final_ctx) (m.initialize_logger start).1
run_migration-Prepared_example =
    run_migration-Prepared m final_ctx start logged (migrator-NoPanic parts final_ctx)
