-- ===== src/Migration/Types.antt =====
-- migration/types.go
use ces_importer.Base.{ℕ, String, Bool, List}

-- `SizeInBytes` is an int64. The sizes are those of volumes, which are never negative.
pub record DoguVolume : Type 0 where
  pub size_in_bytes : ℕ

pub record Dogu : Type 0 where
  pub name : String
  pub version : String
  pub volume : DoguVolume

pub record Component : Type 0 where
  pub name : String
  pub version : String

pub record SystemInfo : Type 0 where
  pub fqdn : String
  pub is_multinode : Bool
  pub dogus : List Dogu
  pub components : List Component

pub record DoguExport : Type 0 where
  pub dogu : String
  pub volume_path : String
  pub exporter_port : ℕ

pub record KeyValue : Type 0 where
  pub key : String
  pub value : String

abbrev pub GlobalConfig : Type 0
GlobalConfig = List KeyValue

pub record DoguConfig : Type 0 where
  pub name : String
  pub normal_config : List KeyValue
  pub local_config : List KeyValue
  pub sensitive_config : List KeyValue

pub record BackupSchedule : Type 0 where
  pub name : String
  pub schedule : String

pub record Configuration : Type 0 where
  pub global_config : GlobalConfig
  pub dogu_configs : List DoguConfig
  pub backup_schedules : List BackupSchedule
