-- ===== src/Programs/Migrator.antt =====
-- The migrator that createMigrator of cmd/ces-importer/main.go puts together from the components. Its world is that of the blueprint control,
-- which keeps the blueprints that it has stopped. The stop of all dogus
-- gets 151 rounds for each dogu; one that takes more counts as a panic.
pub mod Cleared
pub mod Completed
use ces_importer.Base.{ℕ, String, Option, none, some, List, Error, Result, ok, err}
use ces_importer.Migration.Types
use ces_importer.Migration.Context.{Context}
use ces_importer.Migration.ExportMode.{validate_export_mode}
use ces_importer.Migration.Runner
use ces_importer.Migration.Runner.{Call, returns, fails, panics, Op, Migrator}
use ces_importer.Migration.Job.Provider.{Env, JobProvider, create_import_job}
use ces_importer.Migration.Job.Service.{JobService, run}
use ces_importer.SystemInfo.Names.{NameParser}
use ces_importer.SystemInfo.Provider.{
  Provider, InstalledDogu, InstalledComponent, get_exporter_system_info, get_importer_system_info,
}
use ces_importer.SystemInfo.Resizer.{DoguVolumeResizer, resize_dogus_if_needed}
use ces_importer.SystemInfo.Validator.{validate}
use ces_importer.Exporter.Client.{Http, Client, api_client}
use ces_importer.Exporter.Data.{ExportMode, SystemInfo}
use ces_importer.Exporter.Maintenance.{
  Codec, Message, MaintenanceModeService, set_message, enable, disable,
}
use ces_importer.Exporter.Services.{get_export_mode, get_system_info}
use ces_importer.Importer.Blueprints.{
  BlueprintInterface, BlueprintControl, stop_blueprint, start_blueprint,
}
use ces_importer.Importer.Dogus.{DoguControl, stop_all, start_all}
use ces_importer.Mail.Sender.{Sender, send}

-- The clients, the configuration and the libraries that the components stand on.
pub record Parts (W Q B : Type 0) : Type 0 where
  pub http : Http W
  pub client : Client
  pub quote : String → String
  pub mode_json : String → Result ExportMode
  pub info_json : String → Result SystemInfo
  pub maintenance_json : Codec
  pub message : Message
  pub list_components : W → Result (List InstalledComponent) × W
  pub list_dogus : W → Result (List InstalledDogu) × W
  pub error_text : Error → String
  pub parse : NameParser
  pub excluded_dogus : List String
  pub resizer : DoguVolumeResizer W
  pub blueprints : BlueprintInterface W
  pub dogus : DoguControl W
  pub job_env : Env W Q
  pub job_provider : JobProvider Q
  -- the clients of the job service
  pub jobs : JobService W
  pub mail : Sender W B
  pub init_log : W → Option Error × W
  pub now : W → ℕ

-- A function on the cluster's world leaves the list of stopped blueprints as it is.
abbrev pub lifted : {W A : Type 0} → (W → A × W) → BlueprintControl W → A × BlueprintControl W
lifted f s = let (a, w) = f s.world in (a, record s { world = w })

abbrev pub ended : Option Error → Call (Unit {0})
ended none = returns tt
ended (some e) = fails e

abbrev pub answered : {A : Type 0} → Result A → Call A
answered (ok a) = returns a
answered (err e) = fails e

abbrev pub done : {S : Type 0} → Option Error × S → Call (Unit {0}) × S
done (e, s) = (ended e, s)

abbrev pub asked : {A S : Type 0} → Result A × S → Call A × S
asked (r, s) = (answered r, s)

module _ {W Q B : Type 0} (p : Parts W Q B) where
  abbrev pub maintenance : MaintenanceModeService W
  maintenance =
      set_message p.maintenance_json
        (record { api_client = api_client p.http p.client; message = none }) p.message.title
        p.message.text

  abbrev pub system_infos : Provider W
  system_infos = record {
    list_components = p.list_components;
    list_dogus = p.list_dogus;
    get_system_info = get_system_info (api_client p.http p.client) p.quote p.info_json;
    error_text = p.error_text;
  }

  abbrev pub job_service : Context → JobService W
  job_service ctx = record p.jobs {
    create_import_job = create_import_job p.job_env p.job_provider ctx;
  }

  abbrev pub check_mode : W → Option Error × W
  check_mode w =
      let (mode, w') = get_export_mode (api_client p.http p.client) p.quote p.mode_json w in
      (validate_export_mode mode, w')

  abbrev pub perform : Context → Op → BlueprintControl W → Call (Unit {0}) × BlueprintControl W
  perform ctx Runner.validate_export_mode s = done (lifted check_mode s)
  perform ctx (Runner.validate_system_info ex im) s =
      (ended (validate p.parse p.excluded_dogus ex im), s)
  perform ctx Runner.stop_blueprint s = done (stop_blueprint p.blueprints s)
  perform ctx (Runner.resize_dogus_if_needed ex im) s =
      done (lifted (resize_dogus_if_needed p.resizer ex im) s)
  perform ctx Runner.stop_all s = elim (stop_all p.dogus 151 s.world) [
    | none ↦ (panics "out of fuel", s)
    | some (e, w) ↦ (ended e, record s { world = w })
  ]
  perform ctx Runner.enable s = done (lifted (enable p.maintenance_json maintenance) s)
  perform ctx Runner.run_job s = done (lifted (run (job_service ctx)) s)
  perform ctx Runner.disable s = done (lifted (disable p.maintenance_json maintenance) s)
  perform ctx Runner.start_all s = done (lifted (start_all p.dogus) s)
  perform ctx Runner.start_blueprint s = done (start_blueprint p.blueprints s)
  perform ctx (Runner.send is_final result start_time end_time) s =
      done (lifted (send p.mail is_final result start_time end_time) s)
  perform ctx Runner.get_exporter_system_info s = (returns tt, s)
  perform ctx Runner.get_importer_system_info s = (returns tt, s)

  abbrev pub query : Op → BlueprintControl W → Call Types.SystemInfo × BlueprintControl W
  query Runner.get_exporter_system_info s = asked (lifted (get_exporter_system_info system_infos) s)
  query _ s = asked (lifted (get_importer_system_info system_infos) s)

  unfoldable pub migrator : Context → Migrator (BlueprintControl W)
  migrator ctx = record {
    initialize_logger = λ s. done (lifted p.init_log s);
    now = λ s. p.now s.world;
    perform = perform ctx;
    query = query;
  }
