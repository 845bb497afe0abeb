-- ===== src/Programs/Migrator/Completed.antt =====
-- What the composed migrator has done when a migration ends with no error.
use ces_importer.Base.{◌≡◌, none}
use ces_importer.Migration.Context.{Context, is_final_migration}
use ces_importer.Migration.Runner.Result.{restart_world}
use ces_importer.Importer.Blueprints.{BlueprintControl, start_blueprint}
use ces_importer.Importer.Dogus.{start_all}
use ces_importer.Migration.Job.Service.Watching.{Ran}
use ces_importer.Programs.Migrator.{Parts, migrator, job_service, lifted}
use ces_importer.Programs.Migrator.Cleared.{Cleared}

module _ {W Q B : Type 0} (p : Parts W Q B) (ctx : Context) (s : BlueprintControl W) where
  -- The world of the clean-up, in which the dogus are started again.
  abbrev pub cleaning : BlueprintControl W
  cleaning = restart_world (migrator p ctx) ctx s

  pub record Completed : Type 0 where
    pub cleared : Cleared p ctx (is_final_migration ctx) (lifted p.init_log s).1
    pub after_job : W
    pub ran : Ran (job_service p ctx) cleared.steps.ready.world after_job
    pub dogus_started : (start_all p.dogus cleaning.world).0 ≡ none
    pub blueprints_started :
        (start_blueprint p.blueprints (lifted (start_all p.dogus) cleaning).1).0 ≡ none
