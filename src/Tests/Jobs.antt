-- ===== src/Tests/Jobs.antt =====
-- An import job that succeeds, its volumes and its environment, and a copy of one dogu's data.
use ces_importer.Base.{
  leaves, Error, Option, zero, plain, suc, str_dec, ℕ, ◌<>◌, ◌≡◌, ◌↔◌, ◌&&◌, refl, true, false,
  none, some, List, [], ◌∷◌, ok,
}
use ces_importer.Configuration.Types.{JobContainer}
use ces_importer.Migration.Types.{Dogu, SystemInfo}
use ces_importer.Migration.Context.{
  Context, background, is_final_migration, trigger_fqdn_change, set_trigger_fqdn_change_from_env,
}
use ces_importer.Migration.Job.Volumes.{PathOps, DoguPvc}
use ces_importer.Migration.Job.Provider
use ces_importer.Migration.Job.Provider.{
  Env, JobSpec, JobProvider, JobProviderDependencies, Job, new_job_provider, import_job,
  create_job_spec,
}
use ces_importer.Migration.Job.Provider.Trigger.{getenv_of, import_job-trigger}
use ces_importer.Migration.Job.Service
use ces_importer.Migration.Job.Service.{
  Event, JobService, added, modified, watch_events, run, get_watcher, stream_logs,
}
use ces_importer.Migration.Job.Service.Watching.{Finished, watch_events-eq-none}
use ces_importer.Migration.Sync
use ces_importer.Migration.Sync.{System, RsyncSyncer, sync_data}
use ces_importer.Migration.Sync.Errors.{dogus_errors, sync_data-leaves}

abbrev paths : PathOps
paths = record { join = λ a b. a <> "/" <> b; base = λ p. "key"; dir = λ p. "/etc/ssh" }

abbrev pub env : Env ℕ ℕ
env = record {
  parse_quantity = λ s. ok 1;
  parse_url = λ s. ok s;
  paths = paths;
  getenv = λ s. "";
  list_claims = λ w. (ok none, w);
  dogu_label_name = "dogu.name";
  unix_time = λ w. "1700000000";
}

abbrev pub container : JobContainer
container = record {
  job_config_map = "job-config";
  job_service_account = "importer";
  image_registry = "registry.example";
  image_repository = "importer";
  image_tag = "1.0.0";
  image_pull_policy = "IfNotPresent";
  image_pull_secrets = [];
  limits = record { cpu = "1"; memory = "1Gi" };
  requests = record { cpu = "1"; memory = "1Gi" };
  host_network = false;
}

abbrev spec : JobSpec ℕ
spec = record {
  image_url = "registry.example/importer:1.0.0";
  image_pull_policy = Provider.if_not_present;
  image_pull_secrets = [];
  resources = record { limit_cpu = 1; limit_memory = 1; request_cpu = 1; request_memory = 1 };
  env = Provider.create_container_env env "secret";
  service_account = "importer";
  job_config_map = "job-config";
  host_network = false;
}

abbrev pub provider : JobProvider ℕ
provider = record {
  job_spec = spec;
  ssh_config = record {
    user = "root";
    private_ssh_key_path = "/etc/ssh/key";
    secret_name = "ssh";
    secret_data_key = "key";
  };
  tls_certificate_config_map_name = "tls";
  dogu_volume_base_path = "/data";
}

abbrev pub pvcs : List DoguPvc
pvcs = record { dogu_name = "redmine"; pvc_name = "redmine" } ∷ []

abbrev pub dependencies : JobProviderDependencies
dependencies = record {
  job_container_config = container;
  ssh_config = provider.ssh_config;
  tls_certificate_config_map_name = "tls";
  api_key = "secret";
  dogu_volume_base_path = "/data";
}

pub has_provider : new_job_provider env dependencies ≡ ok provider
unfolding new_job_provider create_job_spec Provider.parse_requirements Provider.parse_image
    Provider.parse_image_pull_policy str_dec
has_provider = refl

has_spec : create_job_spec env container "secret" ≡ ok spec
unfolding create_job_spec Provider.parse_requirements Provider.parse_image
    Provider.parse_image_pull_policy str_dec
has_spec = refl

abbrev pub final_ctx : Context
final_ctx = record { final_migration = some true; trigger_fqdn_change = some true }

import_job-trigger_example :
    trigger_fqdn_change (
      set_trigger_fqdn_change_from_env
        (getenv_of (import_job env provider final_ctx pvcs "1").env)
        background)
    ≡ (is_final_migration final_ctx && trigger_fqdn_change final_ctx)
import_job-trigger_example =
    import_job-trigger env container "secret" provider final_ctx pvcs "1" has_spec

abbrev events : List Event
events =
    record { type = added; object = Service.job "migration-job-1" 0 0 }
    ∷ record { type = modified; object = Service.job "migration-job-1" 1 0 }
    ∷ []

watch_events-eq-none_example :
    (watch_events events "migration-job-1" ≡ none) ↔ Finished "migration-job-1" events
watch_events-eq-none_example = watch_events-eq-none events "migration-job-1"

abbrev pub jobs : JobService ℕ
jobs = record {
  create_import_job = λ w. (ok (import_job env provider background pvcs "1"), 1);
  create = λ j w. (ok "migration-job-1", 2);
  list_jobs = λ n w. (ok ("migration-job-1" ∷ []), 3);
  watch = λ n w. (ok events, 4);
  list_pods = λ n w. (ok (record { name = "pod"; is_running = true } ∷ []), 5);
  retry = λ f w. f w;
  copy_logs = λ n w. 6;
}

job_runs : run jobs 0 ≡ (none, 6)
unfolding run get_watcher watch_events Service.judge stream_logs Service.get_streamer str_dec
job_runs = refl

abbrev redmine : Dogu
redmine = record { name = "redmine"; version = "5.1.3-1"; volume = record { size_in_bytes = 1 } }

abbrev nginx : Dogu
nginx = record { name = "nginx"; version = "1.0.0-1"; volume = record { size_in_bytes = 0 } }

abbrev info : SystemInfo
info = record {
  fqdn = "ces.example";
  is_multinode = false;
  dogus = redmine ∷ nginx ∷ [];
  components = [];
}

abbrev system : System ℕ
system = record {
  parse = λ n. ok (record { namespace = "official"; simple_name = n });
  get_system_info = λ w. (ok info, w);
  set_export_dogu =
      λ n w. (ok (record { dogu = n; volume_path = "/volumes"; exporter_port = 2222 }), w);
  read_dir = λ d w. (
    Sync.listing (
        record { name = "files"; is_dir = true }
        ∷ record { name = "lost+found"; is_dir = true }
        ∷ []),
    w,
  );
  rsync =
      λ args w. (record { stdout_pipe = none; stderr_pipe = none; start = none; wait = none }, w);
  join_path = λ a b. a <> "/" <> b;
  clean_path = λ p. p;
  show_port = λ n. "2222";
}

abbrev syncer : RsyncSyncer
syncer = record {
  host = "old.example";
  user = "root";
  private_key_path = "/etc/ssh/key";
  exclude_pattern = [];
  dogu_volume_base_path = "/data";
  excluded_dogus = "nginx" ∷ [];
  checksum_dogus = [];
  verbose = false;
}

copies : (sync_data system syncer 0).0 ≡ none
unfolding sync_data Sync.sync_dogus Sync.sync_dogu Sync.get_sub_dirs Sync.sub_dirs
    Sync.sync_sub_dirs Sync.sync_dogu_dir Sync.get_simple_dogu_names Sync.simple_name_or str_dec
copies = refl

abbrev first_fails : ℕ → Option Error
first_fails zero = some (plain "exit status 23")
first_fails (suc w) = none

-- The directory of the first dogu cannot be copied, that of the second one can.
abbrev failing : System ℕ
failing = record system {
  get_system_info = λ w. (ok (record info { dogus = redmine ∷ redmine ∷ [] }), w);
  rsync = λ args w. (
    record { stdout_pipe = none; stderr_pipe = none; start = none; wait = first_fails w },
    suc w,
  );
}

sync_data-leaves_example :
    leaves (sync_data failing syncer 0).0
    ≡ dogus_errors failing syncer (redmine ∷ redmine ∷ []) (failing.get_system_info 0).1
sync_data-leaves_example =
    sync_data-leaves failing syncer (record info { dogus = redmine ∷ redmine ∷ [] }) 0 refl
