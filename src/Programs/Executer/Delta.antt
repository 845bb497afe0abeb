-- ===== src/Programs/Executer/Delta.antt =====
-- The importer and its import job together: which migrations can change the fqdn.
use ces_importer.Base.{
  String, ◌≡◌, ◌∙◌, ◌&&◌, false, Option, List, ok, arith, Result-cases, inl, inr,
}
use ces_importer.Base.Dict.{Dict}
use ces_importer.Migration.Context.{
  Context, background, is_final_migration, trigger_fqdn_change, set_trigger_fqdn_change_from_env,
}
use ces_importer.Migration.Executer.{start}
use ces_importer.Migration.Job.Provider.{
  Env, JobProvider, JobProviderDependencies, new_job_provider, create_job_spec, import_job,
}
use ces_importer.Migration.Job.Provider.Trigger.{getenv_of, import_job-trigger}
use ces_importer.Migration.Job.Volumes.{DoguPvc}
use ces_importer.Programs.Executer.{Parts, new_import_executer}
use ces_importer.Programs.Executer.Kept.{Laws, live, start-live}

module _ {V Q : Type 0} (env : Env V Q) where
  new_job_provider-spec :
      (deps : JobProviderDependencies) (j : JobProvider Q)
      → new_job_provider env deps ≡ ok j
      → create_job_spec env deps.job_container_config deps.api_key ≡ ok j.job_spec
  unfolding new_job_provider
  new_job_provider-spec deps j h =
      elim (Result-cases (create_job_spec env deps.job_container_config deps.api_key)) [
        | inr (e, p) ↦ ground (arith, p, h)
        | inl (spec, p) ↦ ground (arith, p, h)
      ]

  -- The context of the import job that the importer creates in a context, with the variables of its container.
  abbrev pub job_context : JobProvider Q → Context → List DoguPvc → String → Context
  job_context j ctx pvcs time =
      set_trigger_fqdn_change_from_env (getenv_of (import_job env j ctx pvcs time).env) background

  -- In a cluster that stores the global configuration, the certificate and all else that the job writes apart from each other, the import job that the importer creates, with a provider from its
  -- configuration, leaves the importer's fqdn with its settings and its certificate as they were, whether it succeeds or fails, unless the migration is final and its
  -- context asks for the change of the fqdn.
  pub job-live :
      {W G D C : Type 0} (p : Parts W G D C) (read : G → String → Option String)
      (global : W → String → Option String) (config_map secret : W → String → Option (Dict String))
      → Laws p read global config_map secret
      → (deps : JobProviderDependencies) (j : JobProvider Q) (ctx : Context) (pvcs : List DoguPvc)
        (time : String) (w : W)
      → new_job_provider env deps ≡ ok j
      → (is_final_migration ctx && trigger_fqdn_change ctx) ≡ false
      → live p read global config_map secret
          (start (new_import_executer p) (job_context j ctx pvcs time) w).1
        ≡ live p read global config_map secret w
  job-live p read global config_map secret laws deps j ctx pvcs time w made untriggered =
      (start-live p read global config_map secret laws (job_context j ctx pvcs time) w).0 (
        import_job-trigger env deps.job_container_config deps.api_key j ctx pvcs time
          (new_job_provider-spec deps j made)
        ∙ untriggered)
