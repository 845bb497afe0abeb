-- ===== src/Migration/Job/Provider.antt =====
-- migration/jobProvider.go: the specification of the import job. `ParseQuantity`, `url.Parse`, the environment,
-- the clock and the listing of the claims are parameters.

pub mod Trigger
use ces_importer.Base.{
  ℕ, String, ◌<>◌, ◌==◌, Bool, true, false, ◌&&◌, Option, none, some, List, [], ◌∷◌, ◌++◌, map,
  Error, plain, wrap, Result, ok, err, if◌then◌else◌,
}
use ces_importer.Configuration.Types.{ResourceList, JobContainer, Ssh}
use ces_importer.Migration.Context.{
  Context, is_final_migration, trigger_fqdn_change, env_trigger_fqdn_change,
}
use ces_importer.Migration.Job.Volumes.{
  PathOps, DoguPvc, PersistentVolumeClaim, Volume, VolumeMount, VolumeMounts, job_name,
  job_config_path, collect_volume_mounts, create_config_volume_mount, create_dogu_volume_mounts,
  create_ssh_private_key_mount, create_api_tls_ca_mount, get_dogu_volumes,
}

pub data PullPolicy : Type 0 where
  always never if_not_present : PullPolicy

pub record EnvVar : Type 0 where
  pub name : String
  pub value : String

-- Quantities are of a type `Q`.
pub record Requirements (Q : Type 0) : Type 0 where
  pub limit_cpu : Q
  pub limit_memory : Q
  pub request_cpu : Q
  pub request_memory : Q

-- `RestartPolicy` is `Never` in each.
pub record JobSpec (Q : Type 0) : Type 0 where
  pub image_url : String
  pub image_pull_policy : PullPolicy
  pub image_pull_secrets : List String
  pub resources : Requirements Q
  pub env : List EnvVar
  pub service_account : String
  pub job_config_map : String
  pub host_network : Bool

-- `jobProvider` without its client; of `configuration.API`, the config map of the certificates
pub record JobProvider (Q : Type 0) : Type 0 where
  pub job_spec : JobSpec Q
  pub ssh_config : Ssh
  pub tls_certificate_config_map_name : String
  pub dogu_volume_base_path : String

-- `batchv1.Job` with its one container
pub record Job : Type 0 where
  pub name : String
  pub backoff_limit : ℕ
  pub ttl_seconds_after_finished : ℕ
  pub host_network : Bool
  pub volumes : List Volume
  pub container_name : String
  pub image : String
  pub env : List EnvVar
  pub volume_mounts : List VolumeMount
  pub image_pull_policy : PullPolicy
  pub service_account_name : String
  pub image_pull_secrets : List String

-- What the code takes from outside of the repository.
pub record Env (W Q : Type 0) : Type 0 where
  pub parse_quantity : String → Result Q
  -- `url.Parse` and the text of its result
  pub parse_url : String → Result String
  pub paths : PathOps
  pub getenv : String → String
  pub list_claims : W → Result (Option (List PersistentVolumeClaim)) × W
  -- `doguv2.DoguLabelName`
  pub dogu_label_name : String
  -- `strconv.FormatInt(time.Now().Unix(), 10)`
  pub unix_time : W → String

-- Of the API's configuration only the name of the map with its certificate is kept.
pub record JobProviderDependencies : Type 0 where
  pub job_container_config : JobContainer
  pub ssh_config : Ssh
  pub tls_certificate_config_map_name : String
  pub api_key : String
  pub dogu_volume_base_path : String

infixl 5 ◌>>=◌
abbrev ◌>>=◌ : {A B : Type 0} → Result A → (A → Result B) → Result B
◌>>=◌ (ok a) f = f a
◌>>=◌ (err e) f = err e

abbrev or_wrap : {A : Type 0} → String → Result A → Result A
or_wrap message (ok a) = ok a
or_wrap message (err e) = err (wrap message e)

unfoldable pub parse_image_pull_policy : String → Result PullPolicy
parse_image_pull_policy policy =
    if policy == "Always"
    then ok always
    else if policy == "Never"
    then ok never
    else if policy == "IfNotPresent"
    then ok if_not_present
    else err (plain ("invalid image pull policy: " <> policy))

unfoldable pub add_fqdn_change_trigger_as_env : Context → List EnvVar → List EnvVar
add_fqdn_change_trigger_as_env ctx env =
    if is_final_migration ctx && trigger_fqdn_change ctx
    then env ++ record { name = env_trigger_fqdn_change; value = "true" } ∷ []
    else env

module _ {W Q : Type 0} (e : Env W Q) where
  unfoldable pub parse_requirements : JobContainer → Result (Requirements Q)
  parse_requirements cfg = do
    limit_cpu ← or_wrap "failed to parse cpu limit" (e.parse_quantity cfg.limits.cpu)
    limit_memory ← or_wrap "failed to parse memory limit" (e.parse_quantity cfg.limits.memory)
    request_cpu ← or_wrap "failed to parse cpu request" (e.parse_quantity cfg.requests.cpu)
    request_memory ← or_wrap "failed to parse memory request" (e.parse_quantity cfg.requests.memory)
    ok (record {
      limit_cpu = limit_cpu;
      limit_memory = limit_memory;
      request_cpu = request_cpu;
      request_memory = request_memory;
    })

  unfoldable pub parse_image : JobContainer → Result String
  parse_image cfg = do
    url ←
        or_wrap "failed to parse image url"
          (e.parse_url (e.paths.join cfg.image_registry cfg.image_repository))
    ok (url <> ":" <> cfg.image_tag)

  unfoldable pub create_container_env : String → List EnvVar
  create_container_env api_key =
      record { name = "API_KEY"; value = api_key }
      ∷ record { name = "CONFIG_PATH"; value = job_config_path }
      ∷ record { name = "IMPORTER_NAMESPACE"; value = e.getenv "IMPORTER_NAMESPACE" }
      ∷ record { name = "TZ"; value = e.getenv "TZ" }
      ∷ []

  unfoldable pub create_job_spec : JobContainer → String → Result (JobSpec Q)
  create_job_spec cfg api_key = do
    requirements ← or_wrap "failed to parse resource requirements" (parse_requirements cfg)
    image ← or_wrap "failed to parse image" (parse_image cfg)
    policy ←
        or_wrap "failed to parse image pull policy" (parse_image_pull_policy cfg.image_pull_policy)
    ok (record {
      image_url = image;
      image_pull_policy = policy;
      image_pull_secrets = cfg.image_pull_secrets;
      resources = requirements;
      env = create_container_env api_key;
      service_account = cfg.job_service_account;
      job_config_map = cfg.job_config_map;
      host_network = cfg.host_network;
    })

  unfoldable pub new_job_provider : JobProviderDependencies → Result (JobProvider Q)
  new_job_provider deps = do
    spec ←
        or_wrap "failed to create specification for job"
          (create_job_spec deps.job_container_config deps.api_key)
    ok (record {
      job_spec = spec;
      ssh_config = deps.ssh_config;
      tls_certificate_config_map_name = deps.tls_certificate_config_map_name;
      dogu_volume_base_path = deps.dogu_volume_base_path;
    })

  -- The job for the claims, at a time.
  unfoldable pub import_job : JobProvider Q → Context → List DoguPvc → String → Job
  import_job j ctx pvcs unix_time =
      let spec = j.job_spec in
      let mounts = collect_volume_mounts (
        create_config_volume_mount spec.job_config_map
        ∷ create_dogu_volume_mounts e.paths j.dogu_volume_base_path pvcs
        ∷ create_ssh_private_key_mount e.paths j.ssh_config.secret_name j.ssh_config.secret_data_key
            j.ssh_config.private_ssh_key_path
        ∷ create_api_tls_ca_mount j.tls_certificate_config_map_name "/etc/custom-certs/exporter"
        ∷ []) in
      record {
        name = job_name <> "-" <> unix_time;
        backoff_limit = 0;
        ttl_seconds_after_finished = 60;
        host_network = spec.host_network;
        volumes = mounts.volumes;
        container_name = job_name <> "-container";
        image = spec.image_url;
        env = add_fqdn_change_trigger_as_env ctx spec.env;
        volume_mounts = mounts.mounts;
        image_pull_policy = spec.image_pull_policy;
        service_account_name = spec.service_account;
        image_pull_secrets = spec.image_pull_secrets;
      }

  unfoldable pub create_import_job : JobProvider Q → Context → W → Result Job × W
  create_import_job j ctx w =
      let (volumes, w') = get_dogu_volumes e.list_claims e.dogu_label_name w in
      (
        elim volumes [
          | err failure ↦ err (wrap "failed to get dogu volumes" failure)
          | ok pvcs ↦ ok (import_job j ctx pvcs (e.unix_time w'))
        ],
        w',
      )
