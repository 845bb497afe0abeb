-- ===== src/Migration/Config.antt =====
-- migration/config/importer.go: the import of the exporter's configuration. The three importers are parameters.
pub mod Backups
pub mod Wiring
pub mod Frame
pub mod Global
pub mod Dogus
use ces_importer.Base.{Option, none, some, List, Error, wrap, Result, ok, err}
use ces_importer.Migration.Types.{GlobalConfig, DoguConfig, BackupSchedule, Configuration}

pub record ConfigImporter (W : Type 0) : Type 0 where
  pub get_config : W → Result Configuration × W
  pub import_global_config : GlobalConfig → W → Option Error × W
  pub import_dogu_configs : List DoguConfig → W → Option Error × W
  pub import_backup_schedules : List BackupSchedule → W → Option Error × W

unfoldable pub sync_config : {W : Type 0} → ConfigImporter W → W → Option Error × W
sync_config ci w =
    let (answer, w1) = ci.get_config w in
    elim answer [
      | err e ↦ (some (wrap "failed to get configuration from exporter" e), w1)
      | ok config ↦
          let (global, w2) = ci.import_global_config config.global_config w1 in
          let (dogus, w3) = ci.import_dogu_configs config.dogu_configs w2 in
          let (schedules, w4) = ci.import_backup_schedules config.backup_schedules w3 in
          elim global [
            | some e ↦ (some (wrap "failed to import global configuration" e), w2)
            | none ↦ elim dogus [
              | some e ↦ (some (wrap "failed to import dogu configuration" e), w3)
              | none ↦ elim schedules [
                | some e ↦ (some (wrap "failed to import backup schedules" e), w4)
                | none ↦ (none, w4)
              ]
            ]
          ]
    ]
