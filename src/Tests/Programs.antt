-- ===== src/Tests/Programs.antt =====
-- The start of the importer, its preflight check, and the import of backup schedules.
use ces_importer.Base.{
  leaves, ◌++◌, ℕ, suc, String, ◌==◌, ◌≡◌, ◌↔◌, refl, true, false, none, some, List, [], ◌∷◌, plain,
  ok, err, str_dec, if◌then◌else◌,
}
use ces_importer.Base.Dict
use ces_importer.Base.Dict.{Dict}
use ces_importer.Configuration.Reading.{Coordinator}
use ces_importer.Migration.Types.{BackupSchedule}
use ces_importer.Migration.Config.Backups.{
  Event, Object, BackupScheduleClient, import_backup_schedules, delete_schedule, wait_deleted,
  ends_wait,
}
use ces_importer.Migration.Config.Backups.Deletion.{Imported, import_backup_schedules-Imported}
use ces_importer.Programs.Importer.{
  Steps, running, nil_pointer, start_up, start_with, check_first, create_migrator, make_migrator,
  step,
}
use ces_importer.Programs.Importer.Ready.{Ready, start_up-Ready}
use ces_importer.Programs.Preflight.{
  SshTest, PreflightExecuter, health_error, ssh_error, info_error, new_preflight_executer,
  run_preflight_check, ssh_connection_test, connect,
}
use ces_importer.Programs.Preflight.Passed.{Passed, after_ssh, run_preflight_check-checks}
use ces_importer.Tests.Settings.{coordinator, ssh}

abbrev ready : Coordinator
ready = record coordinator {
  migration = record coordinator.migration {
    maintenance_mode_message = some (record { title = "title"; text = "text" });
  };
}

-- Every step succeeds, and the world counts them.
abbrev steps : Coordinator → Steps ℕ ℕ
steps cfg = record {
  get_cluster_config = λ w. (none, suc w);
  read_coordinator_config = λ w. (ok cfg, suc w);
  init_log = λ c w. (none, suc w);
  create_client_set = λ c w. (none, suc w);
  create_system_info_provider = λ w. (none, suc w);
  run_preflight_check = λ c w. (none, suc w);
  set_message = λ m w. suc w;
  create_job_service = λ c w. (none, suc w);
  validate_secrets = λ c w. (none, suc w);
  create_mail_sender = λ c w. (none, suc w);
  new_migrator = λ c. 7;
}

start_runs : (start_up (steps ready) 0).0 ≡ running ready 7
unfolding start_up start_with check_first create_migrator make_migrator step
start_runs = refl

-- No final migration is configured, and no message.
start_crashes : (start_up (steps coordinator) 0).0 ≡ nil_pointer
unfolding start_up start_with check_first create_migrator make_migrator step
start_crashes = refl

start_up-Ready_example : Ready (steps ready) ready
start_up-Ready_example = start_up-Ready (steps ready) 0 ready 7 start_runs

abbrev ssh_test : SshTest ℕ String String
ssh_test = record {
  set_export_dogu = λ name w. (err (plain "no such endpoint"), suc w);
  get_secret = λ name w. (ok (("sshKey", "key") ∷ []), suc w);
  parse_private_key = λ key. ok key;
  dial = λ user key address w.
      (if address == "old.example:7022" then ok "client" else err (plain "refused"), suc w);
  new_session = λ c w. (none, suc w);
  close_session = λ w. suc w;
  close_client = λ c w. suc w;
}

abbrev preflight : PreflightExecuter ℕ
preflight =
    new_preflight_executer (λ w. (ok true, suc w))
      (λ w. (ok (record { fqdn = ""; is_multinode = false; dogus = []; components = [] }), suc w))
      ssh_test ssh "old.example"

preflight_runs : run_preflight_check preflight 0 ≡ (none, 8)
unfolding run_preflight_check new_preflight_executer ssh_connection_test connect Dict.lookup str_dec
preflight_runs = refl

run_preflight_check-checks_example :
    (leaves (run_preflight_check preflight 0).0
      ≡ leaves (health_error (preflight.get_is_healthy 0).0)
        ++ (leaves (ssh_error (preflight.test_ssh_connection (preflight.get_is_healthy 0).1).0)
            ++ leaves (info_error (preflight.get_importer_system_info (after_ssh preflight 0)).0)))
    × ((run_preflight_check preflight 0).1
        ≡ (preflight.get_importer_system_info (after_ssh preflight 0)).1)
    × (((run_preflight_check preflight 0).0 ≡ none) ↔ Passed preflight 0)
run_preflight_check-checks_example = run_preflight_check-checks preflight 0

-- The first schedule's deletion is seen, the second one's is not.
abbrev events : String → List Event
events name =
    if name == "daily"
    then record { is_deleted = false; object = Object.schedule "daily" }
      ∷ record { is_deleted = true; object = Object.schedule "daily" }
      ∷ []
    else record { is_deleted = true; object = Object.other } ∷ []

abbrev client : BackupScheduleClient ℕ
client = record {
  create = λ s provider w. (none, suc w);
  watch = λ name w. (ok (events name), w);
  delete = λ name w. (none, w);
  is_not_found = λ e. false;
}

abbrev schedules : List BackupSchedule
schedules =
    record { name = "daily"; schedule = "0 4 * * *" }
    ∷ record { name = "weekly"; schedule = "0 4 * * 0" }
    ∷ []

-- There is no error, and only one of the two was created.
import_runs : import_backup_schedules client schedules 0 ≡ (none, 1)
unfolding import_backup_schedules delete_schedule wait_deleted ends_wait str_dec
import_runs = refl

import_succeeds : (import_backup_schedules client schedules 0).0 ≡ none
unfolding import_backup_schedules delete_schedule wait_deleted ends_wait str_dec
import_succeeds = refl

import_backup_schedules-Imported_example : Imported client schedules 0
import_backup_schedules-Imported_example =
    import_backup_schedules-Imported client schedules 0 import_succeeds
