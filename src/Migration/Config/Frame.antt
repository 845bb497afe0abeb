-- ===== src/Migration/Config/Frame.antt =====
-- What the import of the dogus' configurations and of the backup schedules leaves alone.
use ces_importer.Base.{
  Keeps, ◌==◌, String, List, [], ◌∷◌, arith, refl, Result-cases, Bool-cases, inl, inr,
}
use ces_importer.Base.Dict.{Dict}
use ces_importer.Migration.Types.{KeyValue, DoguConfig, BackupSchedule}
use ces_importer.Migration.Config.Dogus.{
  DoguConfigRepo, DoguConfigImporter, current_config, values_to_set, set_values,
  import_dogu_config_with_repo, import_local_config, local_entries, excluded_keys,
  import_dogu_config, import_dogu_configs,
}
use ces_importer.Migration.Config.Backups.{
  BackupScheduleClient, delete_schedule, import_backup_schedules,
}

-- The repository of the dogus' configurations does not touch the value.
pub record Spares {W C V : Type 0} (repo : DoguConfigRepo W C) (value : W → V) : Type 0 where
  pub get : (name : String) → Keeps value (repo.get name)
  pub create : (name : String) (c : C) → Keeps value (repo.create name c)
  pub update : (name : String) (c : C) → Keeps value (repo.update name c)

-- Nothing that the importer of the dogus' configurations calls touches it.
pub record DogusSpare {W C V : Type 0} (dci : DoguConfigImporter W C) (value : W → V) : Type 0 where
  pub normal : Spares dci.dogu_config_repo value
  pub sensitive : Spares dci.sensitive_dogu_config_repo value
  pub open_file : (name : String) → Keeps value (dci.open_file name)
  pub write_file : (name : String) (m : Dict String) → Keeps value (dci.write_file name m)

pub record SchedulesSpare {W V : Type 0} (bsi : BackupScheduleClient W) (value : W → V)
    : Type 0 where
  pub create : (s : BackupSchedule) (provider : String) → Keeps value (bsi.create s provider)
  pub watch : (name : String) → Keeps value (bsi.watch name)
  pub delete : (name : String) → Keeps value (bsi.delete name)

module _ {W C V : Type 0} (dci : DoguConfigImporter W C) (value : W → V) where
  current_config-Keeps :
      (repo : DoguConfigRepo W C) (name : String)
      → Spares repo value
      → Keeps value (current_config dci repo name)
  unfolding current_config
  current_config-Keeps repo name spares w =
      ground (arith, spares.get name w, spares.create name dci.registry.empty (repo.get name w).1)

  import_dogu_config_with_repo-Keeps :
      (repo : DoguConfigRepo W C) (name : String) (config : List KeyValue) (excluded : List String)
      → Spares repo value
      → Keeps value (import_dogu_config_with_repo dci name config repo excluded)
  unfolding import_dogu_config_with_repo
  import_dogu_config_with_repo-Keeps repo name config excluded spares w =
      let loaded = current_config dci repo name w in
      let kept = current_config-Keeps repo name spares w in
      elim (Result-cases loaded.0) [
        | inr (e, p) ↦ ground (arith, p, kept)
        | inl (original, p) ↦
            elim (Result-cases
              (set_values dci (values_to_set dci excluded original config []) dci.registry.empty)) [
                | inr (e, q) ↦ ground (arith, p, q, kept)
                | inl (c, q) ↦ ground (arith, p, q, kept, spares.update name c loaded.1)
              ]
      ]

  module _ (spares : DogusSpare dci value) where
    import_local_config-Keeps :
        (name : String) (config : List KeyValue) → Keeps value (import_local_config dci name config)
    unfolding import_local_config
    import_local_config-Keeps name [] w = refl
    import_local_config-Keeps name (kv ∷ kvs) w = ground (
      arith,
      spares.open_file name w,
      spares.write_file name (local_entries dci (kv ∷ kvs) []) (dci.open_file name w).1,
    )

    import_dogu_config-Keeps : (dc : DoguConfig) → Keeps value (import_dogu_config dci dc)
    unfolding import_dogu_config
    import_dogu_config-Keeps dc w =
        let excluded = excluded_keys dci dc.name in
        let normal =
          import_dogu_config_with_repo dci dc.name dc.normal_config dci.dogu_config_repo excluded
            w in
        let sensitive =
          import_dogu_config_with_repo dci dc.name dc.sensitive_config
            dci.sensitive_dogu_config_repo excluded normal.1 in
        ground (
          arith,
          import_dogu_config_with_repo-Keeps dci.dogu_config_repo dc.name dc.normal_config excluded
              spares.normal w,
          import_dogu_config_with_repo-Keeps dci.sensitive_dogu_config_repo dc.name
              dc.sensitive_config excluded spares.sensitive normal.1,
          import_local_config-Keeps dc.name dc.local_config sensitive.1,
        )

    pub import_dogu_configs-Keeps :
        (dcs : List DoguConfig) → Keeps value (import_dogu_configs dci dcs)
    unfolding import_dogu_configs
    import_dogu_configs-Keeps [] w = refl
    import_dogu_configs-Keeps (dc ∷ dcs) w = elim (Bool-cases (dc.name == "nginx")) [
      | inl p ↦ ground (arith, p, import_dogu_configs-Keeps dcs w)
      | inr p ↦ ground (
        arith,
        p,
        import_dogu_config-Keeps dc w,
        import_dogu_configs-Keeps dcs (import_dogu_config dci dc w).1,
      )
    ]

module _ {W V : Type 0} (bsi : BackupScheduleClient W) (value : W → V)
    (spares : SchedulesSpare bsi value) where
  delete_schedule-Keeps : (name : String) → Keeps value (delete_schedule bsi name)
  unfolding delete_schedule
  delete_schedule-Keeps name w =
      ground (arith, spares.watch name w, spares.delete name (bsi.watch name w).1)

  pub import_backup_schedules-Keeps :
      (config : List BackupSchedule) → Keeps value (import_backup_schedules bsi config)
  unfolding import_backup_schedules
  import_backup_schedules-Keeps [] w = refl
  import_backup_schedules-Keeps (s ∷ config) w =
      let deleted = delete_schedule bsi s.name w in
      let created = bsi.create s "velero" deleted.1 in
      ground (
        arith,
        delete_schedule-Keeps s.name w,
        spares.create s "velero" deleted.1,
        import_backup_schedules-Keeps config deleted.1,
        import_backup_schedules-Keeps config created.1,
      )
