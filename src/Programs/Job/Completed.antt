-- ===== src/Programs/Job/Completed.antt =====
-- What an import job has done when it exits with 0, with the executer of NewImportExecuter in it.
use ces_importer.Base.{String, ◌≡◌, Option, none, ok, true, if◌then◌else◌}
use ces_importer.Configuration.Reading
use ces_importer.Migration.Types
use ces_importer.Migration.Context.{Context, trigger_fqdn_change}
use ces_importer.Migration.Config.{sync_config}
use ces_importer.Migration.Config.Backups.Deletion.{Imported}
use ces_importer.Migration.Config.Dogus.{import_dogu_configs}
use ces_importer.Migration.Config.Global.{is_kept, current}
use ces_importer.Migration.Config.Global.Merge.{last_at, entries}
use ces_importer.Migration.Executer.{start}
use ces_importer.Migration.Fqdn.{change_fqdn}
use ces_importer.Migration.Sync.Copies.{DogusCopied}
use ces_importer.Programs.Executer.{
  Parts, new_import_executer, system, config_service, dogu_importer, fqdn_service,
}
use ces_importer.Programs.Job.{Steps}

module _ {W G D C : Type 0} (p : Parts W G D C) (read : G → String → Option String) where
  -- The configuration was read from the exporter, and then the three imports had no error, one after the other.
  pub record ConfigImported (w : W) : Type 0 where
    pub config : Types.Configuration
    pub is_read : (config_service p w).0 ≡ ok config
    pub previous : G
    pub imported : G
    pub is_loaded :
        (current p.match p.registry p.excluded_global p.global_repo (config_service p w).1).0
        ≡ ok previous
    pub after_global : W
    pub is_saved :
        p.global_repo.update imported
          (current p.match p.registry p.excluded_global p.global_repo (config_service p w).1).1
        ≡ (none, after_global)
    pub has_values :
        (j : String)
        → read imported j ≡ (
            if is_kept p.match p.excluded_global j
            then read previous j
            else last_at j none (entries config.global_config))
    pub has_dogus :
        (import_dogu_configs (dogu_importer p) config.dogu_configs after_global).0 ≡ none
    pub has_schedules :
        Imported p.schedules config.backup_schedules
          (import_dogu_configs (dogu_importer p) config.dogu_configs after_global).1

  -- The copy, the import of the configuration, and the change of the fqdn where the context asks for it ended without an error.
  pub record Completed (ctx : Context) (w : W) : Type 0 where
    pub info : Types.SystemInfo
    pub info_read : ((system p).get_system_info w).0 ≡ ok info
    pub copied : DogusCopied (system p) p.rsync info.dogus ((system p).get_system_info w).1
    pub config_imported : ConfigImported ((new_import_executer p).sync_data w).1
    pub fqdn_changed :
        trigger_fqdn_change ctx ≡ true
        → (change_fqdn
            (fqdn_service p)
            ((new_import_executer p).sync_config ((new_import_executer p).sync_data w).1).1).0
          ≡ none

-- The program with the executer that is made from the job's configuration.
abbrev pub program : {W G D C : Type 0} → (Reading.Job → Parts W G D C) → Steps W → Steps W
program parts s = record s { start = λ job. start (new_import_executer (parts job)) }
