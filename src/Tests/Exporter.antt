-- ===== src/Tests/Exporter.antt =====
-- An exporter that answers every request, and the clients made for it.
use ces_importer.Base.{
  ℕ, String, ◌<>◌, ◌==◌, ◌≡◌, ◌↔◌, refl, true, false, none, some, plain, Result, ok, err, str_dec,
  if◌then◌else◌,
}
use ces_importer.Configuration.Types.{Api}
use ces_importer.Exporter.Client.{
  Http, Client, api_client, exchange, receive, do_get_request, do_post_request,
}
use ces_importer.Exporter.Data.{ExportMode}
use ces_importer.Exporter.Maintenance.{
  Codec, enable, disable, set_message, set_maintenance_mode, enable_with_message,
  decode_maintenance_mode_status,
}
use ces_importer.Exporter.Maintenance.Switching.{Switched, service, enable-Switched}
use ces_importer.Exporter.Services.{get_export_mode, decoded}
use ces_importer.Exporter.Tls.{
  Certificates, skips_verification, roots, client_from_config, new_client, apply, with_custom_cas,
  get_transport_config,
}
use ces_importer.Exporter.Tls.Verified.{Added, client_from_config-verifies}
use ces_importer.Migration.ExportMode.{validate_export_mode}

-- The world counts the requests.
abbrev http : Http ℕ
http = record {
  join_path = λ base path. ok (base <> path);
  new_request = λ method url. none;
  execute = λ r w. (
    ok (record { status_code = if r.api_key == "secret-key" then 200 else 401; body = ok r.url }),
    1,
  );
  decimal = λ n. "n";
}

abbrev client : Client
client = record { base_url = "https://old.example/ces-exporter"; api_key = "secret-key" }

abbrev json : Codec
json = record { encode = λ m. ok "mode"; decode = λ t. ok (record { is_active = true }) }

enable_runs :
    (enable json (set_message json (service http client json none) "title" "text") 0).0 ≡ none
unfolding enable set_message enable_with_message set_maintenance_mode decode_maintenance_mode_status
    do_post_request exchange receive str_dec
enable_runs = refl

-- The exporter that says that it is in maintenance does not let it be ended.
disable_fails :
    (disable json (service http client json none) 0).0
    ≡ some (plain "received unexpected mode status in response: true")
unfolding disable set_maintenance_mode decode_maintenance_mode_status do_post_request exchange
    receive str_dec
disable_fails = refl

enable-Switched_example :
    (((enable json (set_message json (service http client json none) "title" "text") 0).0 ≡ none)
      ↔ Switched http client json
          (record { activate = true; message = record { title = "title"; text = "text" } })
          0)
    × (((disable json (service http client json none) 0).0 ≡ none)
        ↔ Switched http client json
            (record { activate = false; message = record { title = ""; text = "" } })
            0)
enable-Switched_example = enable-Switched http client json none "title" "text" 0

abbrev mode_json : String → Result ExportMode
mode_json t =
    if t == "https://old.example/ces-exporter/export/mode"
    then ok (record { is_active = true })
    else err (plain "no json")

quote : String → String
quote t = t

mode_runs :
    validate_export_mode (get_export_mode (api_client http client) quote mode_json 0).0 ≡ none
unfolding validate_export_mode get_export_mode decoded do_get_request exchange receive str_dec
mode_runs = refl

-- A root store is the list of what was added to it, as a text.
abbrev certs : Certificates String
certs = record {
  read_file = λ name.
      if name == "/etc/custom-certs/exporter/ca.crt" then ok "custom" else err (plain "no file");
  system_cert_pool = ok "system";
  new_cert_pool = "";
  append_certs = λ pool ca. (true, pool <> " and " <> ca);
}

abbrev api : Api
api = record {
  exporter_host = "old.example";
  exporter_api_key = "secret-key";
  skip_tls_verify = false;
  secret_name = "exporter";
  secret_data_key = "apiKey";
  tls_certificate_name = "ca.crt";
  tls_certificate_config_map_name = "ca";
}

roots_run : roots (client_from_config certs api).1 ≡ some "system and custom"
unfolding client_from_config new_client apply with_custom_cas get_transport_config str_dec
roots_run = refl

client_from_config-verifies_example :
    (skips_verification (client_from_config certs api).1 ≡ api.skip_tls_verify)
    × ((pool : String)
        → (roots (client_from_config certs api).1 ≡ some pool)
          ↔ ((api.skip_tls_verify ≡ false) × Added certs api pool))
client_from_config-verifies_example = client_from_config-verifies certs api
