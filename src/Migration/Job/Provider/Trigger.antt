-- ===== src/Migration/Job/Provider/Trigger.antt =====
-- What the import job gets from the importer: its volumes and the environment that triggers the fqdn change.
use ces_importer.Base.{
  Bool-cases, inl, inr, sym, String, ◌==◌, str_dec, ◌≡◌, refl, ◌&&◌, List, [], ◌∷◌, ok, arith,
  if◌then◌else◌,
}
use ces_importer.Configuration.Types.{JobContainer}
use ces_importer.Migration.Context.{
  Context, background, is_final_migration, trigger_fqdn_change, set_trigger_fqdn_change_from_env,
  set_trigger_fqdn_change,
}
use ces_importer.Migration.Job.Volumes.{
  DoguPvc, create_config_volume_mount, create_ssh_private_key_mount, create_api_tls_ca_mount,
}
use ces_importer.Migration.Job.Volumes.Mounting.{
  volume_names, mount_names, collect_volume_mounts-Matched, create_dogu_volume_mounts-Matched,
}
use ces_importer.Migration.Job.Provider.{
  EnvVar, Env, JobSpec, JobProvider, add_fqdn_change_trigger_as_env, create_container_env,
  create_job_spec, import_job,
}

-- `os.Getenv` in a container with these variables
abbrev pub getenv_of : List EnvVar → String → String
getenv_of [] name = ""
getenv_of (v ∷ vs) name = if v.name == name then v.value else getenv_of vs name

module _ {W Q : Type 0} (e : Env W Q) where
  -- Each volume of the import job is mounted in its container, and nothing else is: the names of the mounts are those
  -- of the volumes, in their order.
  import_job-mounts :
      (j : JobProvider Q) (ctx : Context) (pvcs : List DoguPvc) (time : String)
      → mount_names (import_job e j ctx pvcs time).volume_mounts
        ≡ volume_names (import_job e j ctx pvcs time).volumes
  unfolding import_job create_config_volume_mount create_ssh_private_key_mount
      create_api_tls_ca_mount
  import_job-mounts j ctx pvcs time = sym (
      collect_volume_mounts-Matched _ (
        refl,
        (
          create_dogu_volume_mounts-Matched e.paths j.dogu_volume_base_path pvcs,
          (refl, (refl, tt)),
        ),
      ))

  create_job_spec-env :
      (cfg : JobContainer) (api_key : String) (spec : JobSpec Q)
      → create_job_spec e cfg api_key ≡ ok spec
      → spec.env ≡ create_container_env e api_key
  unfolding create_job_spec
  create_job_spec-env cfg api_key spec h = ground arith

  trigger_of :
      (api_key : String) (ctx : Context)
      → trigger_fqdn_change (
          set_trigger_fqdn_change_from_env
            (getenv_of (add_fqdn_change_trigger_as_env ctx (create_container_env e api_key)))
            background)
        ≡ (is_final_migration ctx && trigger_fqdn_change ctx)
  unfolding add_fqdn_change_trigger_as_env create_container_env set_trigger_fqdn_change_from_env
      set_trigger_fqdn_change str_dec trigger_fqdn_change is_final_migration
  trigger_of api_key ctx = elim (Bool-cases (is_final_migration ctx && trigger_fqdn_change ctx)) [
    | inl p ↦ rw (p, add_fqdn_change_trigger_as_env) refl
    | inr p ↦ rw (p, add_fqdn_change_trigger_as_env) refl
  ]

  -- The job of a provider that has its specification from `createJobSpec` finds the trigger of the fqdn change in its
  -- environment exactly if the migration is final and the importer's context has the trigger.
  pub import_job-trigger :
      (cfg : JobContainer) (api_key : String) (j : JobProvider Q) (ctx : Context)
      (pvcs : List DoguPvc) (time : String)
      → create_job_spec e cfg api_key ≡ ok j.job_spec
      → trigger_fqdn_change (
          set_trigger_fqdn_change_from_env
            (getenv_of (import_job e j ctx pvcs time).env)
            background)
        ≡ (is_final_migration ctx && trigger_fqdn_change ctx)
  unfolding import_job
  import_job-trigger cfg api_key j ctx pvcs time h =
      rw (create_job_spec-env cfg api_key j.job_spec h) (trigger_of api_key ctx)
