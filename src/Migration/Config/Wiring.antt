-- ===== src/Migration/Config/Wiring.antt =====
-- migration/config/importer.go: `NewConfigImporter`, which makes the importer from its three parts.
use ces_importer.Base.{
  sym, String, ◌==◌, ◌≡◌, Bool, Option, none, some, List, [], ◌∷◌, ◌++◌, Result, arith,
  if◌then◌else◌, Bool-cases, inl, inr, of_eq,
}
use ces_importer.Base.Dict
use ces_importer.Base.Dict.{Dict}
use mathlib.Core.List.{append_assoc, append-nil}
use ces_importer.Configuration.Types.{DoguConfigurationKeys}
use ces_importer.Migration.Types.{Configuration}
use ces_importer.Migration.Config.{ConfigImporter}
use ces_importer.Migration.Config.Global.{Registry, GlobalConfigRepo, import_global_config}
use ces_importer.Migration.Config.Dogus.{DoguConfigImporter, import_dogu_configs}
use ces_importer.Migration.Config.Backups.{BackupScheduleClient, import_backup_schedules}

abbrev keys_or_nil : Option (List String) → List String
keys_or_nil none = []
keys_or_nil (some keys) = keys

-- The loop that groups the keys by the dogus' names.
unfoldable pub group_keys : List DoguConfigurationKeys → Dict (List String) → Dict (List String)
group_keys [] m = m
group_keys (c ∷ cs) m =
    group_keys cs (Dict.insert c.dogu_name (keys_or_nil (Dict.lookup c.dogu_name m) ++ c.keys) m)

unfoldable pub new_config_importer :
    {W G D : Type 0}
    → (W → Result Configuration × W)
    → (String → String → Result Bool)
    → Registry G
    → List String
    → GlobalConfigRepo W G
    → DoguConfigImporter W D
    → BackupScheduleClient W
    → List DoguConfigurationKeys
    → ConfigImporter W
new_config_importer get match reg excluded_global repo dogus schedules excluded_dogu = record {
  get_config = get;
  import_global_config = import_global_config match reg excluded_global repo;
  import_dogu_configs =
      import_dogu_configs
        (record dogus { excluded_dogu_config_keys = group_keys excluded_dogu [] });
  import_backup_schedules = import_backup_schedules schedules;
}

-- The keys that the configuration excludes for a dogu, in their order.
abbrev pub keys_for : String → List DoguConfigurationKeys → List String
keys_for name [] = []
keys_for name (c ∷ cs) =
    let rest = keys_for name cs in if c.dogu_name == name then c.keys ++ rest else rest

-- Grouping loses no key and changes no order: the importer excludes for a dogu the keys of all the entries of its name, one entry after the other.
group_keys-keys_for :
    (name : String) (cs : List DoguConfigurationKeys) (m : Dict (List String))
    → keys_or_nil (Dict.lookup name (group_keys cs m))
      ≡ keys_or_nil (Dict.lookup name m) ++ keys_for name cs
unfolding group_keys
group_keys-keys_for name [] m = sym (append-nil _)
group_keys-keys_for name (c ∷ cs) m =
    let grouped = keys_or_nil (Dict.lookup c.dogu_name m) ++ c.keys in
    let tail = group_keys-keys_for name cs (Dict.insert c.dogu_name grouped m) in
    let read = Dict.lookup-insert name c.dogu_name grouped m in
    elim (Bool-cases (c.dogu_name == name)) [
      | inr p ↦ ground (arith, tail, read, p)
      | inl p ↦ ground (
        arith,
        tail,
        read,
        p,
        of_eq p,
        append_assoc (keys_or_nil (Dict.lookup c.dogu_name m)) c.keys (keys_for name cs),
      )
    ]
