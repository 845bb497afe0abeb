-- ===== src/Migration/Config/Dogus.antt =====
-- migration/config/dogu.go: the configurations of the dogus. The registry library, the repositories and the files are
-- parameters.
pub mod Restored
use ces_importer.Base.{
  String, ◌<>◌, ◌==◌, Bool, true, false, Option, none, some, List, [], ◌∷◌, Error, wrap, Result, ok,
  err, contains, if◌then◌else◌,
}
use ces_importer.Base.Dict
use ces_importer.Base.Dict.{Dict}
use ces_importer.Importer.{Answer, found, missing, unavailable}
use ces_importer.Migration.Types.{KeyValue, DoguConfig}
use ces_importer.Migration.Fqdn.{trim_slash}
use ces_importer.Migration.Config.Global.{Registry}

-- `doguConfigRepo`, by the dogu's name
pub record DoguConfigRepo (W C : Type 0) : Type 0 where
  pub get : String → W → Answer C × W
  pub create : String → C → W → Result C × W
  pub update : String → C → W → Option Error × W

-- `cesDoguConfigImporter` and what it calls. `get_value` is `Config.Get`; `open_file` and `write_file` are those of a dogu's local
-- configuration file; `is_not_exist` is `errors.Is` with `os.ErrNotExist`.
pub record DoguConfigImporter (W C : Type 0) : Type 0 where
  pub registry : Registry C
  pub get_value : C → String → Option String
  pub dogu_config_repo : DoguConfigRepo W C
  pub sensitive_dogu_config_repo : DoguConfigRepo W C
  pub excluded_dogu_config_keys : Dict (List String)
  pub open_file : String → W → Option Error × W
  pub write_file : String → Dict String → W → Option Error × W
  pub is_not_exist : Error → Bool

module _ {W C : Type 0} (dci : DoguConfigImporter W C) where
  unfoldable pub set_original_value_for_key : C → String → Dict String → Dict String
  set_original_value_for_key original key m = elim (dci.get_value original key) [
    | some v ↦ Dict.insert key v m
    | none ↦ m
  ]

  -- `configValuesToSet` after the loop over the exporter's configuration
  unfoldable pub values_to_set : List String → C → List KeyValue → Dict String → Dict String
  values_to_set excluded original [] m = m
  values_to_set excluded original (kv ∷ kvs) m = values_to_set excluded original kvs (
      if contains excluded (trim_slash kv.key)
      then set_original_value_for_key original kv.key m
      else Dict.insert kv.key kv.value m)

  abbrev pub set_value_in_registry : C → String → String → Result C
  set_value_in_registry c key value = elim (dci.registry.set key value c) [
    | err e ↦ err (wrap ("failed to set key " <> key) e)
    | ok c' ↦ ok c'
  ]

  unfoldable pub set_values : Dict String → C → Result C
  set_values [] c = ok c
  set_values ((key, value) ∷ m) c = elim (set_value_in_registry c key value) [
    | err e ↦ err (wrap ("failed to set key " <> key) e)
    | ok c' ↦ set_values m c'
  ]

  unfoldable pub current_config : DoguConfigRepo W C → String → W → Result C × W
  current_config repo name w =
      let (answer, w1) = repo.get name w in
      let (created, w2) = repo.create name dci.registry.empty w1 in
      elim answer [
        | found c ↦ (ok c, w1)
        | unavailable e ↦ (err (wrap "failed to get original dogu config" e), w1)
        | missing ↦ elim created [
          | ok c ↦ (ok c, w2)
          | err e ↦ (err (wrap "failed to create new dogu config" e), w2)
        ]
      ]

  unfoldable pub import_dogu_config_with_repo :
      String → List KeyValue → DoguConfigRepo W C → List String → W → Option Error × W
  import_dogu_config_with_repo name config repo excluded w =
      let (loaded, w1) = current_config repo name w in
      elim loaded [
        | err e ↦ (some e, w1)
        | ok original ↦
            elim (set_values (values_to_set excluded original config []) dci.registry.empty) [
              | err e ↦ (some e, w1)
              | ok c ↦
                  let (saved, w2) = repo.update name c w1 in
                  elim saved [
                    | some e ↦ (some (wrap "failed to save dogu config" e), w2)
                    | none ↦ (none, w2)
                  ]
            ]
      ]

  abbrev pub local_entries : List KeyValue → Dict String → Dict String
  local_entries [] m = m
  local_entries (kv ∷ kvs) m = local_entries kvs (Dict.insert kv.key kv.value m)

  unfoldable pub import_local_config : String → List KeyValue → W → Option Error × W
  import_local_config name [] w = (none, w)
  import_local_config name (kv ∷ kvs) w =
      let (opened, w1) = dci.open_file name w in
      let (written, w2) = dci.write_file name (local_entries (kv ∷ kvs) []) w1 in
      elim opened [
        | some e ↦ (some (wrap "failed to open local config file" e), w1)
        | none ↦ elim written [
          | some e ↦ (some (wrap "failed to write local config file" e), w2)
          | none ↦ (none, w2)
        ]
      ]

  -- `dci.excludedDoguConfigKeys[doguConfig.Name]`
  abbrev pub excluded_keys : String → List String
  excluded_keys name = elim (Dict.lookup name dci.excluded_dogu_config_keys) [
    | some ks ↦ ks
    | none ↦ []
  ]

  unfoldable pub import_dogu_config : DoguConfig → W → Option Error × W
  import_dogu_config dc w =
      let excluded = excluded_keys dc.name in
      let (normal, w1) =
        import_dogu_config_with_repo dc.name dc.normal_config dci.dogu_config_repo excluded w in
      let (sensitive, w2) =
        import_dogu_config_with_repo dc.name dc.sensitive_config dci.sensitive_dogu_config_repo
          excluded w1 in
      let (local, w3) = import_local_config dc.name dc.local_config w2 in
      elim normal [
        | some e ↦ (some (wrap ("failed to import dogu config for dogu " <> dc.name) e), w1)
        | none ↦ elim sensitive [
          | some e ↦
              (some (wrap ("failed to import sensitive dogu config for dogu " <> dc.name) e), w2)
          | none ↦ elim local [
            | none ↦ (none, w3)
            | some e ↦
                if dci.is_not_exist e
                then (none, w3)
                else (some (wrap ("failed to import local config for dogu " <> dc.name) e), w3)
          ]
        ]
      ]

  unfoldable pub import_dogu_configs : List DoguConfig → W → Option Error × W
  import_dogu_configs [] w = (none, w)
  import_dogu_configs (dc ∷ dcs) w =
      let (failure, w1) = import_dogu_config dc w in
      elim (dc.name == "nginx") [
        | true ↦ import_dogu_configs dcs w
        | false ↦ elim failure [
          | some e ↦ (some (wrap ("failed to import dogu config for dogu " <> dc.name) e), w1)
          | none ↦ import_dogu_configs dcs w1
        ]
      ]
