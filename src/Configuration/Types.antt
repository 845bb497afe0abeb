-- ===== src/Configuration/Types.antt =====
-- configuration/types.go: the configuration's data.
use ces_importer.Base.{ℕ, String, Bool, Option, List}

pub record Logging : Type 0 where
  pub level : String

pub record Api : Type 0 where
  pub exporter_host : String
  pub exporter_api_key : String
  pub skip_tls_verify : Bool
  pub secret_name : String
  pub secret_data_key : String
  pub tls_certificate_name : String
  pub tls_certificate_config_map_name : String

pub record MaintenanceModeMessage : Type 0 where
  pub title : String
  pub text : String

pub record Migration : Type 0 where
  pub regular_cron : String
  pub final_timestamp : String
  pub change_fqdn : Bool
  pub maintenance_mode_message : Option MaintenanceModeMessage
  pub execute_preflight_check : Bool

pub record Ssh : Type 0 where
  pub user : String
  pub private_ssh_key_path : String
  pub secret_name : String
  pub secret_data_key : String

pub record ResourceList : Type 0 where
  pub cpu : String
  pub memory : String

-- With the fields of `ContainerImage`, `ImagePullSecret` and `ResourceRequirements`.
pub record JobContainer : Type 0 where
  pub job_config_map : String
  pub job_service_account : String
  pub image_registry : String
  pub image_repository : String
  pub image_tag : String
  pub image_pull_policy : String
  pub image_pull_secrets : List String
  pub limits : ResourceList
  pub requests : ResourceList
  pub host_network : Bool

pub record ExcludePattern : Type 0 where
  pub dogu_name : String
  pub pattern : List String

pub record DoguConfigurationKeys : Type 0 where
  pub dogu_name : String
  pub keys : List String

pub record JobConfig : Type 0 where
  pub additional_excluded_dogus : List String
  pub checksum_dogus : List String
  pub additional_excluded_global_configuration_keys : List String
  pub excluded_dogu_configurations : List DoguConfigurationKeys
  pub dogu_volume_base_path : String
  pub exclude : List ExcludePattern
  pub verbose : Bool

-- `port` is an uint16.
pub record Smtp : Type 0 where
  pub enabled : Bool
  pub server : String
  pub port : ℕ
  pub username : String
  pub password : String
  pub from : String
  pub to : List String
  pub secret_name : String
  pub secret_data_key : String
  pub tls_mode : String
  pub skip_tls_verify : Bool
  pub tls_certificate_name : String

pub record General : Type 0 where
  pub excluded_dogus : List String
  pub namespace : String
