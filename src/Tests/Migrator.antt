-- ===== src/Tests/Migrator.antt =====
-- A whole final migration with the components put together: one dogu, whose claim is resized, on a small cluster. The world is a clock.
mod Whole
use ces_importer.Base.{
  ℕ, String, ◌<>◌, join, ◌≡◌, refl, true, false, none, some, [], ◌∷◌, ok, str_dec,
}
use ces_importer.Migration.Runner
use ces_importer.Migration.Runner.{Migrator, returns}
use ces_importer.Migration.Types
use ces_importer.Base.Dict
use ces_importer.Migration.Runner.Chain.{Prepared}
use ces_importer.Exporter.Client
use ces_importer.Exporter.Client.{Http, Client}
use ces_importer.Exporter.Data
use ces_importer.Exporter.Maintenance
use ces_importer.Exporter.Services
use ces_importer.Importer.{found}
use ces_importer.Importer.Blueprints
use ces_importer.Importer.Blueprints.{BlueprintInterface, BlueprintControl}
use ces_importer.Importer.Dogus
use ces_importer.Mail.Report.{Multipart, Formats}
use ces_importer.Mail.Sender.{Sender}
use ces_importer.Migration.ExportMode
use ces_importer.SystemInfo.Names
use ces_importer.SystemInfo.Provider as SystemProvider
use ces_importer.SystemInfo.Resizer
use ces_importer.SystemInfo.Validator
use ces_importer.Programs.Migrator.{Parts, migrator}
use ces_importer.Tests.Cluster.{dogus}
use ces_importer.Tests.Jobs.{env, provider, jobs, final_ctx}
use ces_importer.Tests.Settings.{smtp}
use ces_importer.Tests.Systems.{parse, resizer, redmine, k8s_core}

abbrev http : Http ℕ
http = record {
  join_path = λ base path. ok (base <> path);
  new_request = λ method url. none;
  execute = λ r w. (ok (record { status_code = 200; body = ok "body" }), w);
  decimal = λ n. "n";
}

abbrev old_system : Data.SystemInfo
old_system = record {
  fqdn = "old.example";
  is_multinode = false;
  dogus =
      record {
        name = "official/redmine";
        version = "5.1.3-1";
        volume = record { size_in_bytes = 15 };
      }
      ∷ [];
  components = record { name = "k8s-dogu-operator"; version = "3.0.0" } ∷ [];
}

abbrev blueprints : BlueprintInterface ℕ
blueprints = record {
  list = λ w. (ok ("core" ∷ []), w);
  get = λ n w. (found (some false), w);
  patch = λ n b w. (none, w);
}

abbrev text : Multipart String
text = record {
  empty = "";
  boundary = "b";
  write_string = λ s b. b <> s;
  create_part = λ h b. (none, b);
  write = λ s b. (none, b <> s);
  write_quoted = λ s b. (none, b <> s);
  close_quoted = λ b. (none, b);
  close = λ b. (none, b);
  bytes = λ b. b;
}

abbrev formats : Formats
formats = record {
  decimal = λ n. "n";
  error_text = λ e. "error";
  time_text = λ t. "time";
  base64 = λ s. s;
  base_name = λ s. s;
  identifier = "id";
  date = "date";
}

-- Mail is switched off.
abbrev mail : Sender ℕ String
mail = record {
  config = smtp;
  source_instance = "old.example";
  sender_service = λ a b c d e w. (none, w);
  read_file = λ f. ok "log";
  attachments = [];
  get_global_config = λ w. (ok (λ k. some "new.example"), w);
  multipart = text;
  formats = formats;
}

abbrev parts : Parts ℕ ℕ String
parts = record {
  http = http;
  client = record { base_url = "https://old.example/ces-exporter"; api_key = "secret-key" };
  quote = λ s. s;
  mode_json = λ s. ok (record { is_active = true });
  info_json = λ s. ok old_system;
  maintenance_json = record {
    encode = λ m. ok "mode";
    decode = λ s. ok (record { is_active = true });
  };
  message = record { title = "Migration"; text = "Back soon" };
  list_components =
      λ w. (ok (record { name = "k8s-dogu-operator"; installed_version = "3.0.0" } ∷ []), w);
  list_dogus = λ w. (
    ok (
        record {
          name = "official/redmine";
          installed_version = "5.1.3-1";
          min_data_volume_size = ok 10;
        }
        ∷ []),
    w,
  );
  error_text = λ e. "error";
  parse = parse;
  excluded_dogus = [];
  resizer = resizer;
  blueprints = blueprints;
  dogus = dogus;
  job_env = record env {
    list_claims = λ w.
        (ok (some (record { name = "redmine"; labels = ("dogu.name", "redmine") ∷ [] } ∷ [])), w);
  };
  job_provider = provider;
  jobs = jobs;
  mail = mail;
  init_log = λ w. (none, w);
  now = λ w. w;
}

abbrev start : BlueprintControl ℕ
start = record { world = 0; stopped_blueprints = [] }

abbrev m : Migrator (BlueprintControl ℕ)
m = migrator parts final_ctx

-- The one blueprint is stopped.
abbrev stopped_at : ℕ → BlueprintControl ℕ
stopped_at time = record { world = time; stopped_blueprints = "core" ∷ [] }

abbrev old_info : Types.SystemInfo
old_info = record {
  fqdn = "old.example";
  is_multinode = false;
  dogus = redmine 15 ∷ [];
  components = k8s_core ∷ [];
}

abbrev new_info : Types.SystemInfo
new_info = record {
  fqdn = "";
  is_multinode = false;
  dogus = redmine 10 ∷ [];
  components = k8s_core ∷ [];
}

mode_checked : m.perform Runner.validate_export_mode start ≡ (returns tt, start)
unfolding migrator Client.do_get_request Client.exchange Client.receive Services.get_export_mode
    Services.decoded ExportMode.validate_export_mode str_dec
mode_checked = refl

exporter_asked : m.query Runner.get_exporter_system_info start ≡ (returns old_info, start)
unfolding migrator Client.do_get_request Client.exchange Client.receive Services.get_system_info
    Services.decoded Data.to_migration_system_info Data.map_slice
    SystemProvider.get_exporter_system_info str_dec
exporter_asked = refl

importer_asked : m.query Runner.get_importer_system_info start ≡ (returns new_info, start)
unfolding migrator SystemProvider.get_importer_system_info SystemProvider.collect_dogus
    SystemProvider.collect_components
importer_asked = refl

compared : m.perform (Runner.validate_system_info old_info new_info) start ≡ (returns tt, start)
unfolding migrator Validator.validate Validator.do_validate_system_info Validator.validate_dogus
    Validator.report_extra Validator.remove_excluded Names.get_excluded_dogu_names
    Validator.validate_loop Validator.validate_regular_dogu Dict.lookup Validator.index_dogus
    Dict.insert Names.get_dogu_name_without_namespace Dict.erase join Validator.validate_components
    Validator.validate_components_loop Validator.validate_component Validator.index_components
    Validator.component_at str_dec
compared = refl

blueprint_stopped : m.perform Runner.stop_blueprint start ≡ (returns tt, stopped_at 0)
unfolding migrator Blueprints.stop_blueprint Blueprints.stop_loop Blueprints.start_stop
blueprint_stopped = refl

resized :
    m.perform (Runner.resize_dogus_if_needed (redmine 15 ∷ []) (redmine 10 ∷ [])) (stopped_at 0)
    ≡ (returns tt, stopped_at 3)
unfolding migrator Resizer.resize_dogus_if_needed Resizer.resize_all Resizer.collect Resizer.decide
    Resizer.resize Resizer.wait_for_pvc_resize Resizer.has_volume_with_backup Resizer.any_true
    Resizer.find_dogu Resizer.excluded_dogus Names.get_excluded_dogu_names
    Names.get_dogu_name_without_namespace str_dec
resized = refl

dogus_stopped : m.perform Runner.stop_all (stopped_at 3) ≡ (returns tt, stopped_at 3)
unfolding migrator Dogus.stop_all Dogus.stop_each Dogus.stop_dogu Dogus.start_stop Dogus.wait_each
    Dogus.wait_for_dogu_pods_terminated Dogus.poll_pods Dogus.count_not_terminated_pods
dogus_stopped = refl

closed : m.perform Runner.enable (stopped_at 3) ≡ (returns tt, stopped_at 3)
unfolding migrator Maintenance.enable Maintenance.set_message Maintenance.enable_with_message
    Maintenance.set_maintenance_mode Maintenance.decode_maintenance_mode_status
    Client.do_post_request Client.exchange Client.receive str_dec
closed = refl

prepared : Prepared m true start
prepared = record {
  exporter_info = old_info;
  importer_info = new_info;
  mode_checked = start;
  exporter_asked = start;
  importer_asked = start;
  compared = start;
  blueprint_stopped = stopped_at 0;
  resized = stopped_at 3;
  dogus_stopped = stopped_at 3;
  ready = stopped_at 3;
  checks_mode = mode_checked;
  asks_exporter = exporter_asked;
  asks_importer = importer_asked;
  compares = compared;
  stops_blueprint = blueprint_stopped;
  resizes = resized;
  stops_dogus = dogus_stopped;
  closes = closed;
}
