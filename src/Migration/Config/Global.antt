-- ===== src/Migration/Config/Global.antt =====
-- migration/config/global.go, and the patterns of migration/config/importer.go. The configurations of the registry
-- library are of a type `C`, and its operations, the repository and Go's `path.Match` are parameters.
pub mod Merge
pub mod Kept
use ces_importer.Base.{
  String, ◌<>◌, ◌==◌, Bool, true, false, ◌||◌, Option, none, some, List, [], ◌∷◌, Error, wrap,
  Result, ok, err, contains, if◌then◌else◌,
}
use ces_importer.Base.Dict.{Dict}
use ces_importer.Importer.{Answer, found, missing, unavailable}
use ces_importer.Migration.Types.{KeyValue, GlobalConfig}
use ces_importer.Migration.Fqdn.{trim_slash}

-- `regConfig.Config`
pub record Registry (C : Type 0) : Type 0 where
  pub empty : C
  pub set : String → String → C → Result C
  -- `GetAll`, in the order in which the map is ranged over
  pub get_all : C → Dict String

-- `globalConfigRepo`
pub record GlobalConfigRepo (W C : Type 0) : Type 0 where
  pub get : W → Answer C × W
  pub create : C → W → Result C × W
  pub update : C → W → Option Error × W

-- `globalConfigKeysToKeep`
abbrev pub global_config_keys_to_keep : List String
global_config_keys_to_keep =
    "certificate/*" ∷ "k8s/*" ∷ "proxy/*" ∷ "fqdn" ∷ "alternativeFQDNs" ∷ "maintenance" ∷ []

-- `match` is `path.Match` on a pattern and a name; a bad pattern matches nothing.
unfoldable pub matches_any : (String → String → Result Bool) → String → List String → Bool
matches_any match key [] = false
matches_any match key (pattern ∷ patterns) =
    elim (match pattern key) [ ok matched ↦ matched | err _ ↦ false ]
    || matches_any match key patterns

unfoldable pub matches_any_key_by_pattern :
    (String → String → Result Bool) → String → List String → Bool
matches_any_key_by_pattern match key = matches_any match (trim_slash key)

-- The key is not taken over from the exporter. `additional` is `additionalKeysToKeep`.
unfoldable pub is_kept : (String → String → Result Bool) → List String → String → Bool
is_kept match additional key =
    matches_any_key_by_pattern match key global_config_keys_to_keep
    || contains additional (trim_slash key)

module _ {C : Type 0} (match : String → String → Result Bool) (reg : Registry C)
    (additional : List String) where
  unfoldable pub add_config_to_keep_to_registry : Dict String → C → Result C
  add_config_to_keep_to_registry [] gc = ok gc
  add_config_to_keep_to_registry ((key, value) ∷ previous) gc =
      if is_kept match additional key
      then elim (reg.set key value gc) [
        | ok gc' ↦ add_config_to_keep_to_registry previous gc'
        | err e ↦ err (wrap ("failed to set previous config key " <> key) e)
      ]
      else add_config_to_keep_to_registry previous gc

  -- The loop over the exporter's configuration.
  unfoldable pub take_over : GlobalConfig → C → Result C
  take_over [] gc = ok gc
  take_over (kv ∷ config) gc =
      if is_kept match additional kv.key
      then take_over config gc
      else elim (reg.set kv.key kv.value gc) [
        | ok gc' ↦ take_over config gc'
        | err e ↦ err (wrap ("failed to set config key " <> kv.key) e)
      ]

  -- The current configuration, which is created if there is none.
  unfoldable pub current : {W : Type 0} → GlobalConfigRepo W C → W → Result C × W
  current repo w =
      let (answer, w1) = repo.get w in
      let (created, w2) = repo.create reg.empty w1 in
      elim answer [
        | found gc ↦ (ok gc, w1)
        | unavailable e ↦ (err (wrap "failed to get global config" e), w1)
        | missing ↦ elim created [
          | ok gc ↦ (ok gc, w2)
          | err e ↦ (err (wrap "failed to create global config" e), w2)
        ]
      ]

  -- The configuration that is saved over the previous one.
  unfoldable pub new_config : C → GlobalConfig → Result C
  new_config previous config =
      elim (add_config_to_keep_to_registry (reg.get_all previous) reg.empty) [
        | err e ↦ err e
        | ok gc ↦ take_over config gc
      ]

  unfoldable pub import_global_config :
      {W : Type 0} → GlobalConfigRepo W C → GlobalConfig → W → Option Error × W
  import_global_config repo config w =
      let (loaded, w1) = current repo w in
      elim loaded [
        | err e ↦ (some e, w1)
        | ok previous ↦ elim (new_config previous config) [
          | err e ↦ (some e, w1)
          | ok gc ↦
              let (saved, w2) = repo.update gc w1 in
              elim saved [
                | some e ↦ (some (wrap "failed to save new global config" e), w2)
                | none ↦ (none, w2)
              ]
        ]
      ]
