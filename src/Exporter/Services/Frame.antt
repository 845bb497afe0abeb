-- ===== src/Exporter/Services/Frame.antt =====
-- A request to the exporter leaves alone what sending it does.
use ces_importer.Base.{
  Keeps, ap, ◌∙◌, ◌≡◌, String, Option, none, Result, arith, Result-cases, inl, inr,
}
use ces_importer.Exporter.Client.{
  Http, Client, Request, api_client, exchange, do_get_request, do_post_request,
}
use ces_importer.Exporter.Data.{SystemInfo, DoguExport, Configuration}
use ces_importer.Exporter.Services.{decoded, get_system_info, set_export_dogu, get_config}

decoded-world :
    {W A B : Type 0} (a : String) (b : String → String) (json : String → Result A) (view : A → B)
    (r : Result String × W)
    → (decoded a b json view r).1 ≡ r.1
unfolding decoded
decoded-world a b json view (r, w) = ground arith

module _ {W V : Type 0} (http : Http W) (c : Client) (value : W → V)
    (spares : (r : Request) → Keeps value (http.execute r)) where
  exchange-Keeps :
      (method url : String) (body : Option String) → Keeps value (exchange http c method url body)
  unfolding exchange
  exchange-Keeps method url body w =
      ground
        (arith, spares (record { method = method; url = url; api_key = c.api_key; body = body }) w)

  do_get_request-Keeps : (path : String) → Keeps value (do_get_request http c path)
  unfolding do_get_request
  do_get_request-Keeps path w = elim (Result-cases (http.join_path c.base_url path)) [
    | inr (e, p) ↦ ground (arith, p)
    | inl (url, p) ↦ ground (arith, p, exchange-Keeps "GET" url none w)
  ]

  do_post_request-Keeps :
      (path : String) (body : Option String) → Keeps value (do_post_request http c path body)
  unfolding do_post_request
  do_post_request-Keeps path body w = elim (Result-cases (http.join_path c.base_url path)) [
    | inr (e, p) ↦ ground (arith, p)
    | inl (url, p) ↦ ground (arith, p, exchange-Keeps "POST" url body w)
  ]

  pub get_system_info-Keeps :
      (quote : String → String) (json : String → Result SystemInfo)
      → Keeps value (get_system_info (api_client http c) quote json)
  unfolding get_system_info
  get_system_info-Keeps quote json w =
      ap value (decoded-world _ _ json _ _) ∙ do_get_request-Keeps _ w

  pub set_export_dogu-Keeps :
      (quote : String → String) (path_join : String → String → String)
      (json : String → Result DoguExport) (name : String)
      → Keeps value (set_export_dogu (api_client http c) quote path_join json name)
  unfolding set_export_dogu
  set_export_dogu-Keeps quote path_join json name w =
      ap value (decoded-world _ _ json _ _) ∙ do_post_request-Keeps _ none w

  pub get_config-Keeps :
      (quote : String → String) (json : String → Result Configuration)
      → Keeps value (get_config (api_client http c) quote json)
  unfolding get_config
  get_config-Keeps quote json w = ap value (decoded-world _ _ json _ _) ∙ do_get_request-Keeps _ w
