-- ===== src/Programs/Executer.antt =====
-- cmd/import-job/executer.go: NewImportExecuter, which puts the import job together from its components.
pub mod Kept
pub mod Delta
use ces_importer.Base.{String, Bool, List, [], Result}
use ces_importer.Configuration.Types.{DoguConfigurationKeys}
use ces_importer.Exporter.Client.{Http, Client, ApiClient, api_client}
use ces_importer.Exporter.Data.{DoguExport, SystemInfo, Configuration}
use ces_importer.Exporter.Services.{get_config, get_system_info, set_export_dogu}
use ces_importer.Migration.Types
use ces_importer.Migration.Config.{ConfigImporter, sync_config}
use ces_importer.Migration.Config.Backups.{BackupScheduleClient}
use ces_importer.Migration.Config.Dogus.{DoguConfigImporter}
use ces_importer.Migration.Config.Global.{Registry, GlobalConfigRepo}
use ces_importer.Migration.Config.Wiring.{group_keys, new_config_importer}
use ces_importer.Migration.Executer.{ImportExecuter}
use ces_importer.Migration.Fqdn.{Service, change_fqdn}
use ces_importer.Migration.Fqdn.Cluster.{Repositories}
use ces_importer.Migration.Fqdn.Managers.Refinement.{service_of}
use ces_importer.Migration.Sync.{System, RsyncSyncer, sync_data}

-- The exporter's client and its codecs, the configuration, the file system and the cluster's clients. `G` and `C` are the global configurations
-- of the import and of the change of the fqdn, `D` the dogus'.
pub record Parts (W G D C : Type 0) : Type 0 where
  pub http : Http W
  pub client : Client
  pub quote : String → String
  pub path_join : String → String → String
  pub config_json : String → Result Configuration
  pub info_json : String → Result SystemInfo
  pub dogu_json : String → Result DoguExport
  pub system : System W
  pub rsync : RsyncSyncer
  pub match : String → String → Result Bool
  pub registry : Registry G
  pub global_repo : GlobalConfigRepo W G
  pub dogus : DoguConfigImporter W D
  pub schedules : BackupScheduleClient W
  pub excluded_global : List String
  pub excluded_dogu : List DoguConfigurationKeys
  pub repositories : Repositories W C

module _ {W G D C : Type 0} (p : Parts W G D C) where
  abbrev pub api : ApiClient W
  api = api_client p.http p.client

  abbrev pub config_service : W → Result Types.Configuration × W
  config_service = get_config api p.quote p.config_json

  abbrev pub system : System W
  system = record p.system {
    get_system_info = get_system_info api p.quote p.info_json;
    set_export_dogu = set_export_dogu api p.quote p.path_join p.dogu_json;
  }

  -- What `NewConfigImporter` makes of the importer of the dogus' configurations.
  abbrev pub dogu_importer : DoguConfigImporter W D
  dogu_importer = record p.dogus { excluded_dogu_config_keys = group_keys p.excluded_dogu [] }

  abbrev pub importer : ConfigImporter W
  importer =
      new_config_importer config_service p.match p.registry p.excluded_global p.global_repo p.dogus
        p.schedules p.excluded_dogu

  abbrev pub fqdn_service : Service W
  fqdn_service = service_of p.repositories config_service

  unfoldable pub new_import_executer : ImportExecuter W
  new_import_executer = record {
    sync_data = sync_data system p.rsync;
    sync_config = sync_config importer;
    change_fqdn = change_fqdn fqdn_service;
  }
