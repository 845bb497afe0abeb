-- ===== src/Programs/Executer/Kept.antt =====
-- What an import job leaves of the importer's fqdn and of its certificate.
use ces_importer.Base.{
  Keeps, ap, ◌∙◌, ◌≡◌, String, Bool, true, false, Option, some, List, Error, Result, ok, refl,
  arith, Result-cases, Option-cases, inl, inr, join,
}
use ces_importer.Base.Dict.{Dict}
use ces_importer.Exporter.Client.{Request}
use ces_importer.Exporter.Services.Frame.{
  get_config-Keeps, get_system_info-Keeps, set_export_dogu-Keeps,
}
use ces_importer.Migration.Types
use ces_importer.Migration.Context.{Context, trigger_fqdn_change}
use ces_importer.Migration.Config.{sync_config}
use ces_importer.Migration.Config.Frame.{
  DogusSpare, SchedulesSpare, import_dogu_configs-Keeps, import_backup_schedules-Keeps,
}
use ces_importer.Migration.Config.Dogus.{import_dogu_configs}
use ces_importer.Migration.Config.Global.{
  is_kept, matches_any, matches_any_key_by_pattern, import_global_config,
}
use ces_importer.Migration.Config.Global.Kept.{
  IsRepo, import_global_config-Keeps, import_global_config-kept,
}
use ces_importer.Migration.Config.Global.Merge.{IsLawful}
use ces_importer.Migration.Config.Wiring.{new_config_importer}
use ces_importer.Migration.Executer.{start, finish}
use ces_importer.Migration.Fqdn.{ConfigChange, SecretChange, is_restore_error, trim_slash}
use ces_importer.Migration.Fqdn.Cluster.{IsCluster}
use ces_importer.Migration.Fqdn.Managers.Refinement.{service_of-Apart}
use ces_importer.Migration.Fqdn.Managers.Views.{
  settings_of, certificate_at, live_fqdn, live_certificate, saved_fqdn, saved_certificate,
}
use ces_importer.Migration.Fqdn.Rollback.{change_fqdn-rollback}
use ces_importer.Migration.Sync.Frame.{sync_data-Keeps}
use ces_importer.Programs.Executer.{
  Parts, new_import_executer, config_service, importer, dogu_importer, system, fqdn_service,
}

-- `path.Match` on the patterns of the settings of the fqdn.
pub record Matches (match : String → String → Result Bool) : Type 0 where
  pub fqdn : match "fqdn" "fqdn" ≡ ok true
  pub alternative_fqdns : match "alternativeFQDNs" "alternativeFQDNs" ≡ ok true
  pub certificate : match "certificate/*" "certificate/type" ≡ ok true

module _ (match : String → String → Result Bool) (matches : Matches match)
    (additional : List String) where
  certificate_type-kept : is_kept match additional "certificate/type" ≡ true
  unfolding is_kept matches_any_key_by_pattern matches_any trim_slash
  certificate_type-kept = ground (arith, matches.certificate)

  fqdn-kept : is_kept match additional "fqdn" ≡ true
  unfolding is_kept matches_any_key_by_pattern matches_any trim_slash
  fqdn-kept = ground (arith, matches.fqdn)

  alternative_fqdns-kept : is_kept match additional "alternativeFQDNs" ≡ true
  unfolding is_kept matches_any_key_by_pattern matches_any trim_slash
  alternative_fqdns-kept = ground (arith, matches.alternative_fqdns)

module _ {W G D C : Type 0} (p : Parts W G D C) (read : G → String → Option String)
    (global : W → String → Option String)
    (config_map secret : W → String → Option (Dict String)) where
  abbrev pub certificate : W → Option SecretChange
  certificate = live_certificate secret

  -- The settings of the fqdn and the certificate that are in use.
  abbrev pub live : W → ConfigChange × Option SecretChange
  live w = (live_fqdn global w, certificate w)

  -- The cluster stores things apart from each other; requests to the exporter, files, rsync, the dogus' configurations and the backup schedules are
  -- apart from the global configuration and the certificate.
  pub record Laws : Type 0 where
    pub cluster : IsCluster p.repositories global config_map secret
    pub matches : Matches p.match
    pub registry : IsLawful p.registry read
    pub repo : IsRepo p.global_repo read global
    pub get_certificate : Keeps certificate p.global_repo.get
    pub create_certificate : (c : G) → Keeps certificate (p.global_repo.create c)
    pub update_certificate : (c : G) → Keeps certificate (p.global_repo.update c)
    pub request_global : (r : Request) → Keeps global (p.http.execute r)
    pub request_map : (r : Request) → Keeps config_map (p.http.execute r)
    pub request_secret : (r : Request) → Keeps secret (p.http.execute r)
    pub read_dir : (dir : String) → Keeps live (p.system.read_dir dir)
    pub rsync : (args : List String) → Keeps live (p.system.rsync args)
    pub dogus : DogusSpare p.dogus live
    pub schedules : SchedulesSpare p.schedules live

  module _ (laws : Laws) where
    live-eq :
        (w w' : W)
        → settings_of (global w') ≡ settings_of (global w)
        → certificate w' ≡ certificate w
        → live w' ≡ live w
    live-eq w w' a b = ap (λ x. (x, certificate w')) a ∙ ap (λ x. (live_fqdn global w, x)) b

    request-Keeps : (r : Request) → Keeps live (p.http.execute r)
    request-Keeps r w =
        live-eq _ _ (ap settings_of (laws.request_global r w))
          (ap certificate_at (laws.request_secret r w))

    config_service-Keeps : Keeps live (config_service p)
    config_service-Keeps = get_config-Keeps p.http p.client live request-Keeps p.quote p.config_json

    data-Keeps : Keeps live (new_import_executer p).sync_data
    unfolding new_import_executer
    data-Keeps = sync_data-Keeps (system p) p.rsync live (record {
      get_system_info =
          get_system_info-Keeps p.http p.client live request-Keeps p.quote p.info_json;
      set_export_dogu =
          set_export_dogu-Keeps p.http p.client live request-Keeps p.quote p.path_join p.dogu_json;
      read_dir = laws.read_dir;
      rsync = laws.rsync;
    })

    -- The global configuration's part: the keys of the settings are kept.
    global_config-Keeps :
        (config : Types.GlobalConfig)
        → Keeps live
            (import_global_config p.match p.registry p.excluded_global p.global_repo config)
    global_config-Keeps config w =
        let kept =
          import_global_config-kept p.match p.registry p.excluded_global read laws.registry
            p.global_repo global laws.repo config in
        let a = kept "fqdn" (fqdn-kept p.match laws.matches p.excluded_global) w in
        let b =
          kept "certificate/type" (certificate_type-kept p.match laws.matches p.excluded_global)
            w in
        let c =
          kept "alternativeFQDNs" (alternative_fqdns-kept p.match laws.matches p.excluded_global)
            w in
        live-eq _ _ (rw (a, b, c) refl) (
          import_global_config-Keeps p.match p.registry p.excluded_global read laws.registry
            p.global_repo certificate laws.get_certificate laws.create_certificate
            laws.update_certificate config w)

    dogu_configs-Keeps :
        (configs : List Types.DoguConfig)
        → Keeps live (import_dogu_configs (dogu_importer p) configs)
    dogu_configs-Keeps = import_dogu_configs-Keeps (dogu_importer p) live (record {
      normal = laws.dogus.normal;
      sensitive = laws.dogus.sensitive;
      open_file = laws.dogus.open_file;
      write_file = laws.dogus.write_file;
    })

    config-Keeps : Keeps live (new_import_executer p).sync_config
    unfolding new_import_executer new_config_importer sync_config
    config-Keeps w =
        let got = config_service p w in
        let asked = config_service-Keeps w in
        elim (Result-cases got.0) [
          | inr (e, q) ↦ ground (arith, q, asked)
          | inl (config, q) ↦
              let global_done = (importer p).import_global_config config.global_config got.1 in
              let dogus_done = (importer p).import_dogu_configs config.dogu_configs global_done.1 in
              ground (
                arith,
                q,
                asked,
                global_config-Keeps config.global_config got.1,
                dogu_configs-Keeps config.dogu_configs global_done.1,
                import_backup_schedules-Keeps p.schedules live laws.schedules
                    config.backup_schedules dogus_done.1,
              )
        ]

    -- What the import job leaves alone, in whatever world it changes the fqdn.
    fqdn-rollback :
        (w : W) (e : Error)
        → ((new_import_executer p).change_fqdn w).0 ≡ some e
        → is_restore_error e ≡ false
        → live ((new_import_executer p).change_fqdn w).1 ≡ live w
    unfolding new_import_executer
    fqdn-rollback w e h k =
        let apart =
          service_of-Apart p.repositories global config_map secret laws.cluster (config_service p)
            (λ v. (
              get_config-Keeps p.http p.client global laws.request_global p.quote p.config_json v,
              get_config-Keeps p.http p.client config_map laws.request_map p.quote p.config_json v,
              get_config-Keeps p.http p.client secret laws.request_secret p.quote p.config_json v,
            )) in
        let (a, b) =
          change_fqdn-rollback (fqdn_service p) (live_fqdn global) (saved_fqdn config_map)
            certificate (saved_certificate secret) apart w e h k in
        live-eq w _ a b

    -- In a cluster that stores the global configuration, the certificate and all else that the job writes apart from each other, an import job that has no trigger to change the fqdn leaves the importer's fqdn with its settings and its certificate as
    -- they were; so does one that fails, whatever it has copied, imported or tried to change, unless its error says that a restore failed.
    pub start-live :
        (ctx : Context) (w : W)
        → (trigger_fqdn_change ctx ≡ false → live (start (new_import_executer p) ctx w).1 ≡ live w)
          × ((e : Error)
              → (start (new_import_executer p) ctx w).0 ≡ some e
              → is_restore_error e ≡ false
              → live (start (new_import_executer p) ctx w).1 ≡ live w)
    unfolding start finish is_restore_error join
    start-live ctx w =
        let j = new_import_executer p in
        let copied = j.sync_data w in
        let config = j.sync_config copied.1 in
        let kept : live config.1 ≡ live w = config-Keeps copied.1 ∙ data-Keeps w in
        (
          λ untriggered. ground (arith, kept, untriggered),
          λ e failed restored. elim (Option-cases (j.change_fqdn config.1).0) [
            | inl q ↦ ground (arith, kept, q, failed)
            | inr (e1, q) ↦ ground (arith, kept, q, failed, restored, fqdn-rollback config.1 e1 q)
          ],
        )
