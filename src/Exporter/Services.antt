-- ===== src/Exporter/Services.antt =====
-- api/exporter: exportmode.go, exportdogu.go, systeminfo.go, configuration.go and health.go. `json` decodes an answer, `quote` is `%q` of
-- `fmt` and `path_join` is Go's `path.Join`.
pub mod Answer
pub mod Frame
use ces_importer.Base.{
  String, ◌<>◌, Bool, true, false, Option, none, some, Error, wrap, Result, ok, err,
}
use ces_importer.Exporter.Client.{ApiClient}
use ces_importer.Exporter.Data.{
  ExportMode, SystemInfo, DoguExport, Configuration, to_migration_configuration,
  to_migration_dogu_export, to_migration_system_info,
}
use ces_importer.Migration.Types

abbrev pub path_export_mode : String
path_export_mode = "/export/mode"

abbrev path_export_dogu : String
path_export_dogu = "/export/dogu"

abbrev pub path_system_info : String
path_system_info = "/system-info"

abbrev path_configuration : String
path_configuration = "/configuration"

abbrev path_health : String
path_health = "/health"

-- An error's message goes round the error of the request; one that comes with the answer's text, round that of the decoder.
unfoldable pub decoded :
    {W A B : Type 0}
    → String
    → (String → String)
    → (String → Result A)
    → (A → B)
    → Result String × W
    → Result B × W
decoded not_got not_parsed json view (err e, w) = (err (wrap not_got e), w)
decoded not_got not_parsed json view (ok result, w) = elim (json result) [
  | err e ↦ (err (wrap (not_parsed result) e), w)
  | ok a ↦ (ok (view a), w)
]

module _ {W : Type 0} (api_client : ApiClient W) (quote : String → String) where
  unfoldable pub get_export_mode : (String → Result ExportMode) → W → Result Bool × W
  get_export_mode json w =
      decoded "failed to check whether export mode is ready"
        (λ result. "failed to parse export mode response: " <> quote result) json (λ m. m.is_active)
        (api_client.do_get_request path_export_mode w)

  unfoldable pub get_export_dogu : (String → Result DoguExport) → W → Result Types.DoguExport × W
  get_export_dogu json w =
      decoded "failed to get export dogu"
        (λ result. "failed to parse export dogu response: " <> quote result) json
        to_migration_dogu_export (api_client.do_get_request path_export_dogu w)

  unfoldable pub set_export_dogu :
      (String → String → String)
      → (String → Result DoguExport)
      → String
      → W
      → Result Types.DoguExport × W
  set_export_dogu path_join json dogu_name w =
      decoded "failed to set export dogu"
        (λ result. "failed to parse export dogu response: " <> quote result) json
        to_migration_dogu_export
        (api_client.do_post_request (path_join path_export_dogu dogu_name) none w)

  unfoldable pub get_system_info : (String → Result SystemInfo) → W → Result Types.SystemInfo × W
  get_system_info json w =
      decoded "failed to get system info"
        (λ result. "failed to parse system info response: " <> quote result) json
        to_migration_system_info (api_client.do_get_request path_system_info w)

  unfoldable pub get_config : (String → Result Configuration) → W → Result Types.Configuration × W
  get_config json w =
      decoded "error getting configuration from exporter"
        (λ result. "could not unmarshal configuration from exporter") json
        to_migration_configuration (api_client.do_get_request path_configuration w)

  unfoldable pub get_is_healthy : W → Result Bool × W
  get_is_healthy w =
      let (result, w1) = api_client.do_get_request path_health w in
      elim result [
        | err e ↦ (err (wrap "failed to get exporter health status" e), w1)
        | ok _ ↦ (ok true, w1)
      ]
