-- ===== src/Configuration/Reading.antt =====
-- configuration/coordinator.go, job.go and types.go: the reading of the configuration. Files, the environment, `yaml.Unmarshal` and the
-- validator are parameters.
pub mod Agreement
use ces_importer.Base.{
  String, ◌<>◌, ◌==◌, Bool, true, false, Option, none, some, List, [], ◌∷◌, ◌++◌, Error, plain,
  wrap, join, Result, ok, err, if◌then◌else◌,
}
use ces_importer.Configuration.Types.{
  Logging, Api, Migration, Ssh, JobConfig, JobContainer, Smtp, General,
}

pub record Coordinator : Type 0 where
  pub logging : Logging
  pub api : Api
  pub migration : Migration
  pub ssh : Ssh
  pub job_config : JobConfig
  pub job_container : JobContainer
  pub smtp : Smtp
  pub general : General

pub record Job : Type 0 where
  pub logging : Logging
  pub api : Api
  pub ssh : Ssh
  pub job_config : JobConfig
  pub general : General

-- For one type: `yaml.Unmarshal`, and the translated errors of `validate.Struct`, none if the value is valid.
pub record Schema (T : Type 0) : Type 0 where
  pub unmarshal : String → Result T
  pub validate : T → List String

pub record Environment : Type 0 where
  -- `newValidator`
  pub new_validator : Option Error
  pub getenv : String → String
  pub path_join : String → String → String
  pub read_file : String → Result String
  pub expand_env : String → String
  pub error_text : Option Error → String
  pub logging : Schema Logging
  pub api : Schema Api
  pub migration : Schema Migration
  pub ssh : Schema Ssh
  pub job_config : Schema JobConfig
  pub job_container : Schema JobContainer
  pub smtp : Schema Smtp

abbrev pub globally_excluded_dogus : List String
globally_excluded_dogus = "premium/monitoring" ∷ "premium/backup" ∷ "official/registrator" ∷ []

unfoldable pub join_validation_errors : List String → Option Error → Option Error
join_validation_errors [] all = all
join_validation_errors (v ∷ errors) all = join_validation_errors errors (join all (some (plain v)))

-- A part of the configuration, and what is done with it.
unfoldable pub and_read : {T A : Type 0} → String → Result T → (T → Result A) → Result A
and_read what (err e) k = err (wrap ("failed to read " <> what <> " configuration") e)
and_read what (ok t) k = k t

module _ (env : Environment) where
  unfoldable pub read_config_yaml : {T : Type 0} → Schema T → String → Result T
  read_config_yaml schema config_path = elim (env.read_file config_path) [
    | err e ↦ err (wrap ("failed to read config file " <> config_path) e)
    | ok content ↦ elim (schema.unmarshal (env.expand_env content)) [
      | err e ↦ err (wrap ("failed to unmarshal config file " <> config_path) e)
      | ok config ↦ elim (schema.validate config) [
        | [] ↦ ok config
        | ◌∷◌ v errors ↦ err (
            plain (
              "failed to validate config file "
              <> config_path
              <> ": "
              <> env.error_text (join_validation_errors (v ∷ errors) none)))
      ]
    ]
  ]

  -- The validator, the base path and the namespace, with which both programs begin.
  unfoldable pub with_base : {A : Type 0} → (String → String → Result A) → Result A
  with_base k = elim env.new_validator [
    | some e ↦ err (wrap "failed to initialize validator" e)
    | none ↦
        if env.getenv "CONFIG_PATH" == ""
        then err (plain "environment variable CONFIG_PATH is not set")
        else if env.getenv "IMPORTER_NAMESPACE" == ""
        then err (plain "environment variable IMPORTER_NAMESPACE is not set")
        else k (env.getenv "CONFIG_PATH") (env.getenv "IMPORTER_NAMESPACE")
  ]

  abbrev pub part : {T : Type 0} → Schema T → String → String → Result T
  part schema base file = read_config_yaml schema (env.path_join base file)

  abbrev pub general_of : String → JobConfig → General
  general_of namespace job_config = record {
    excluded_dogus = globally_excluded_dogus ++ job_config.additional_excluded_dogus;
    namespace = namespace;
  }

  unfoldable pub read_coordinator_config : Result Coordinator
  read_coordinator_config = with_base (λ base namespace.
      and_read "logging" (part env.logging base "logging.yaml") (λ logging.
        and_read "API" (part env.api base "api.yaml") (λ api.
          and_read "migration" (part env.migration base "migration.yaml") (λ migration.
            and_read "ssh" (part env.ssh base "ssh.yaml") (λ ssh.
              and_read "job" (part env.job_config base "job.yaml") (λ job_config.
                and_read "job container" (part env.job_container base "job-container.yaml")
                  (λ job_container. and_read "smtp" (part env.smtp base "smtp.yaml") (λ smtp.
                    ok (record {
                      logging = logging;
                      api = api;
                      migration = migration;
                      ssh = ssh;
                      job_config = job_config;
                      job_container = job_container;
                      smtp = smtp;
                      general = general_of namespace job_config;
                    })))))))))

  unfoldable pub read_job_config : Result Job
  read_job_config = with_base (λ base namespace.
      and_read "logging" (part env.logging base "logging.yaml") (λ logging.
        and_read "API" (part env.api base "api.yaml") (λ api.
          and_read "ssh" (part env.ssh base "ssh.yaml") (λ ssh.
            and_read "job" (part env.job_config base "job.yaml") (λ job_config. ok (record {
              logging = logging;
              api = api;
              ssh = ssh;
              job_config = job_config;
              general = general_of namespace job_config;
            }))))))
