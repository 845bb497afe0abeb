-- ===== src/Exporter/Data.antt =====
-- api/exporter/exporter.go and configuration.go: what the exporter answers, and how it becomes the data of migration/types.go.
-- Sizes and ports are integers that are never negative.
use ces_importer.Base.{ℕ, String, Bool, List, [], ◌∷◌}
use ces_importer.Migration.Types

pub record ExportMode : Type 0 where
  pub is_active : Bool

pub record DoguVolume : Type 0 where
  pub size_in_bytes : ℕ

pub record Dogu : Type 0 where
  pub name : String
  pub version : String
  pub volume : DoguVolume

pub record Component : Type 0 where
  pub name : String
  pub version : String

pub record SystemInfo : Type 0 where
  pub fqdn : String
  pub is_multinode : Bool
  pub dogus : List Dogu
  pub components : List Component

pub record DoguExport : Type 0 where
  pub dogu : String
  pub volume_path : String
  pub exporter_port : ℕ

pub record KeyValue : Type 0 where
  pub key : String
  pub value : String

pub record DoguConfig : Type 0 where
  pub name : String
  pub normal_config : List KeyValue
  pub local_config : List KeyValue
  pub sensitive_config : List KeyValue

pub record BackupSchedule : Type 0 where
  pub name : String
  pub schedule : String

pub record Configuration : Type 0 where
  pub global_config : List KeyValue
  pub dogu_configs : List DoguConfig
  pub backup_schedules : List BackupSchedule

unfoldable pub map_slice : {S T : Type 0} → List S → (S → T) → List T
map_slice [] map_fn = []
map_slice (v ∷ input) map_fn = map_fn v ∷ map_slice input map_fn

unfoldable pub map_key_value : KeyValue → Types.KeyValue
map_key_value kv = record { key = kv.key; value = kv.value }

unfoldable pub to_migration_configuration : Configuration → Types.Configuration
to_migration_configuration c = record {
  global_config = map_slice c.global_config map_key_value;
  dogu_configs = map_slice c.dogu_configs (λ dc. record {
    name = dc.name;
    normal_config = map_slice dc.normal_config map_key_value;
    local_config = map_slice dc.local_config map_key_value;
    sensitive_config = map_slice dc.sensitive_config map_key_value;
  });
  backup_schedules =
      map_slice c.backup_schedules (λ bs. record { name = bs.name; schedule = bs.schedule });
}

unfoldable pub to_migration_dogu_export : DoguExport → Types.DoguExport
to_migration_dogu_export e = record {
  dogu = e.dogu;
  volume_path = e.volume_path;
  exporter_port = e.exporter_port;
}

unfoldable pub to_migration_system_info : SystemInfo → Types.SystemInfo
to_migration_system_info i = record {
  fqdn = i.fqdn;
  is_multinode = i.is_multinode;
  dogus = map_slice i.dogus (λ dogu. record {
    name = dogu.name;
    version = dogu.version;
    volume = record { size_in_bytes = dogu.volume.size_in_bytes };
  });
  components = map_slice i.components (λ comp. record { name = comp.name; version = comp.version });
}
