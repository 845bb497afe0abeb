-- ===== src/Tests/Executer.antt =====
-- An import job on the cluster in memory. The exporter and the file system are empty.
use ces_importer.Base.{
  String, ◌<>◌, ◌==◌, ◌≡◌, refl, Bool, true, false, ◌&&◌, ◌||◌, Option, none, some, [], ◌∷◌, ◌++◌,
  Error, Result, ok, arith, str_dec, inr,
}
use ces_importer.Base.Dict
use ces_importer.Base.Dict.{Dict}
use ces_importer.Importer.{found}
use ces_importer.Migration.Context.{Context, background, is_final_migration, trigger_fqdn_change}
use ces_importer.Migration.Executer.{start}
use ces_importer.Migration.Fqdn.{is_restore_error}
use ces_importer.Migration.Config.Backups.{BackupScheduleClient}
use ces_importer.Migration.Config.Dogus.{DoguConfigRepo, DoguConfigImporter}
use ces_importer.Migration.Config.Global.{Registry, GlobalConfigRepo}
use ces_importer.Migration.Config.Global.Kept.{IsRepo}
use ces_importer.Migration.Config.Global.Merge.{IsLawful, last_at}
use ces_importer.Migration.Sync.{System, listing}
use ces_importer.Configuration.Reading
use ces_importer.Exporter.Client
use ces_importer.Exporter.Data
use ces_importer.Exporter.Services
use ces_importer.Migration.Sync
use ces_importer.Migration.Config.Global
use ces_importer.Migration.Config.Dogus
use ces_importer.Migration.Config.Backups
use ces_importer.Configuration.Reading.Agreement.{job_of}
use ces_importer.Programs.Job.{Steps}
use ces_importer.Programs.Job.Completed.{Completed}
use ces_importer.Tests.Settings.{coordinator}
use ces_importer.Tests.Jobs.{env, provider, pvcs, dependencies, has_provider}
use ces_importer.Programs.Executer.Delta.{job_context, job-live}
use ces_importer.Programs.Executer.{Parts, new_import_executer}
use ces_importer.Programs.Executer.Kept.{Laws, Matches, live, start-live}
use ces_importer.Tests.Config.{last_at-append}
use ces_importer.Tests.Managers.{
  World, repositories, repositories-IsCluster, global, maps, secrets, world,
}
use ces_importer.Tests.Systems.{parse}

-- The values in the order in which they were set.
abbrev reversed : Dict String → Dict String
reversed [] = []
reversed (kv ∷ c) = reversed c ++ kv ∷ []

lookup-reversed : (c : Dict String) (j : String) → Dict.lookup j c ≡ last_at j none (reversed c)
unfolding Dict.lookup
lookup-reversed [] j = refl
lookup-reversed ((k, v) ∷ c) j =
    ground (arith, lookup-reversed c j, last_at-append j k v none (reversed c))

abbrev registry : Registry (Dict String)
registry = record { empty = []; set = λ k v c. ok ((k, v) ∷ c); get_all = reversed }

abbrev read : Dict String → String → Option String
read c j = Dict.lookup j c

registry-IsLawful : IsLawful registry read
unfolding Dict.lookup
registry-IsLawful = record {
  empty_reads = λ j. refl;
  set_reads = λ k v c c' j h. ground (arith, h);
  get_all_reads = lookup-reversed;
}

abbrev global_repo : GlobalConfigRepo World (Dict String)
global_repo = record {
  get = λ w. (found w.global, w);
  create = λ c w. (ok c, record w { global = c });
  update = λ c w. (none, record w { global = c });
}

global_repo-IsRepo : IsRepo global_repo read global
global_repo-IsRepo = record {
  get_reads = λ w c j h. ground (arith, h);
  get_misses = λ w j h. ground (arith, h);
  get_keeps = λ j w. refl;
  create_reads = λ c c' w j h. ground (arith, h);
  create_keeps = λ c w j h. h;
  update_sets = λ c w j. inr refl;
}

abbrev dogu_repo : DoguConfigRepo World (Dict String)
dogu_repo = record {
  get = λ n w. (found [], w);
  create = λ n c w. (ok c, w);
  update = λ n c w. (none, w);
}

abbrev dogus : DoguConfigImporter World (Dict String)
dogus = record {
  registry = registry;
  get_value = read;
  dogu_config_repo = dogu_repo;
  sensitive_dogu_config_repo = dogu_repo;
  excluded_dogu_config_keys = [];
  open_file = λ n w. (none, w);
  write_file = λ n m w. (none, w);
  is_not_exist = λ e. false;
}

abbrev schedules : BackupScheduleClient World
schedules = record {
  create = λ s n w. (none, w);
  watch = λ n w. (ok [], w);
  delete = λ n w. (none, w);
  is_not_found = λ e. false;
}

abbrev system : System World
system = record {
  parse = parse;
  get_system_info =
      λ w. (ok (record { fqdn = ""; is_multinode = false; dogus = []; components = [] }), w);
  set_export_dogu = λ n w. (ok (record { dogu = n; volume_path = ""; exporter_port = 22 }), w);
  read_dir = λ d w. (listing [], w);
  rsync =
      λ args w. (record { stdout_pipe = none; stderr_pipe = none; start = none; wait = none }, w);
  join_path = λ a b. a <> b;
  clean_path = λ a. a;
  show_port = λ n. "22";
}

abbrev match : String → String → Result Bool
match pattern key =
    ok ((pattern == key) || ((pattern == "certificate/*") && (key == "certificate/type")))

match-Matches : Matches match
unfolding str_dec
match-Matches = record { fqdn = refl; alternative_fqdns = refl; certificate = refl }

abbrev parts : Parts World (Dict String) (Dict String) (Dict String)
parts = record {
  http = record {
    join_path = λ base path. ok (base <> path);
    new_request = λ method url. none;
    execute = λ r w. (ok (record { status_code = 200; body = ok "{}" }), w);
    decimal = λ n. "n";
  };
  client = record { base_url = "https://old.example/ces-exporter"; api_key = "secret-key" };
  quote = λ s. s;
  path_join = λ a b. a <> b;
  config_json = λ s. ok (record {
    global_config = record { key = "fqdn"; value = "exporter.example" } ∷ [];
    dogu_configs = [];
    backup_schedules = [];
  });
  info_json = λ s. ok (record { fqdn = ""; is_multinode = false; dogus = []; components = [] });
  dogu_json = λ s. ok (record { dogu = "redmine"; volume_path = ""; exporter_port = 22 });
  system = system;
  rsync = record {
    host = "old.example";
    user = "root";
    private_key_path = "/key";
    exclude_pattern = [];
    dogu_volume_base_path = "/data";
    excluded_dogus = [];
    checksum_dogus = [];
    verbose = false;
  };
  match = match;
  registry = registry;
  global_repo = global_repo;
  dogus = dogus;
  schedules = schedules;
  excluded_global = [];
  excluded_dogu = [];
  repositories = repositories;
}

parts-Laws : Laws parts read global maps secrets
parts-Laws = record {
  cluster = repositories-IsCluster;
  matches = match-Matches;
  registry = registry-IsLawful;
  repo = global_repo-IsRepo;
  get_certificate = λ w. refl;
  create_certificate = λ c w. refl;
  update_certificate = λ c w. refl;
  request_global = λ r w. refl;
  request_map = λ r w. refl;
  request_secret = λ r w. refl;
  read_dir = λ d w. refl;
  rsync = λ args w. refl;
  dogus = record {
    normal = record { get = λ n w. refl; create = λ n c w. refl; update = λ n c w. refl };
    sensitive = record { get = λ n w. refl; create = λ n c w. refl; update = λ n c w. refl };
    open_file = λ n w. refl;
    write_file = λ n m w. refl;
  };
  schedules = record { create = λ s n w. refl; watch = λ n w. refl; delete = λ n w. refl };
}

abbrev final_ctx : Context
final_ctx = record { final_migration = some true; trigger_fqdn_change = some true }

-- The exporter's configuration has no certificate, so that the change of the fqdn fails.
start-live_example :
    (trigger_fqdn_change final_ctx ≡ false
      → live parts read global maps secrets (start (new_import_executer parts) final_ctx world).1
        ≡ live parts read global maps secrets world)
    × ((e : Error)
        → (start (new_import_executer parts) final_ctx world).0 ≡ some e
        → is_restore_error e ≡ false
        → live parts read global maps secrets (start (new_import_executer parts) final_ctx world).1
          ≡ live parts read global maps secrets world)
start-live_example = start-live parts read global maps secrets parts-Laws final_ctx world

abbrev steps : Steps World
steps = record {
  read_job_config = λ w. (ok (job_of coordinator), w);
  init_log = λ job w. (none, w);
  get_cluster_config = λ w. (none, w);
  create_client_set = λ job w. (none, w);
  start = λ job ctx w. (none, w);
  context = background;
}

not_final : (is_final_migration background && trigger_fqdn_change background) ≡ false
unfolding is_final_migration trigger_fqdn_change
not_final = refl

-- A delta migration's job.
job-live_example :
    live parts read global maps secrets
      (start (new_import_executer parts) (job_context env provider background pvcs "1") world).1
    ≡ live parts read global maps secrets world
job-live_example =
    job-live env parts read global maps secrets parts-Laws dependencies provider background pvcs "1"
      world has_provider not_final
