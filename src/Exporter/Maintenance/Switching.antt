-- ===== src/Exporter/Maintenance/Switching.antt =====
-- When the exporter's maintenance mode counts as switched.
use ces_importer.Base.{
  String, ◌≡◌, ◌↔◌, true, false, Option, none, some, ok, arith, Result-cases, inl, inr,
}
use ces_importer.Exporter.Client.{Http, Client, api_client}
use ces_importer.Exporter.Client.Answers.{Answered, do_post_request-eq-ok}
use ces_importer.Exporter.Maintenance.{
  Codec, Message, MaintenanceMode, MaintenanceModeStatus, MaintenanceModeService,
  endpoint_maintenance_mode, decode_maintenance_mode_status, set_maintenance_mode,
  enable_with_message, enable, disable, set_message,
}

module _ {W : Type 0} (http : Http W) (c : Client) (json : Codec) where
  -- The mode was posted to the exporter, which answered with the status 200 and that it is in this mode.
  pub record Switched (mode : MaintenanceMode) (w : W) : Type 0 where
    pub body : String
    pub encoded : json.encode mode ≡ ok body
    pub answer : String
    pub answered : Answered http c "POST" endpoint_maintenance_mode (some body) w answer
    pub status : MaintenanceModeStatus
    pub decoded : json.decode answer ≡ ok status
    pub has_mode : status.is_active ≡ mode.activate

  abbrev pub service : Option Message → MaintenanceModeService W
  service message = record { api_client = api_client http c; message = message }

  set_maintenance_mode-Switched :
      (m : Option Message) (mode : MaintenanceMode) (w : W)
      → (set_maintenance_mode json (service m) mode w).0 ≡ none
      → Switched mode w
  unfolding set_maintenance_mode decode_maintenance_mode_status
  set_maintenance_mode-Switched m mode w h = elim (Result-cases (json.encode mode)) [
    | inr (e, p) ↦ ground (arith, p, h)
    | inl (body, p) ↦
        let post = (api_client http c).do_post_request endpoint_maintenance_mode (some body) w in
        elim (Result-cases post.0) [
          | inr (e, q) ↦ ground (arith, p, q, h)
          | inl (answer, q) ↦ elim (Result-cases (json.decode answer)) [
            | inr (e, r) ↦ ground (arith, p, q, r, h)
            | inl (status, r) ↦ record {
              body = body;
              encoded = p;
              answer = answer;
              answered =
                  (do_post_request-eq-ok http c endpoint_maintenance_mode (some body) w answer).0 q;
              status = status;
              decoded = r;
              has_mode = ground (arith, p, q, r, h);
            }
          ]
        ]
  ]

  Switched-set_maintenance_mode :
      (m : Option Message) (mode : MaintenanceMode) (w : W)
      → Switched mode w
      → (set_maintenance_mode json (service m) mode w).0 ≡ none
  unfolding set_maintenance_mode decode_maintenance_mode_status
  Switched-set_maintenance_mode m mode w s =
      let posted =
        (do_post_request-eq-ok http c endpoint_maintenance_mode (some s.body) w s.answer).1
          s.answered in
      ground (arith, s.encoded, posted, s.decoded, s.has_mode)

  -- `Enable` after `SetMessage`, and `Disable`, over the HTTP client, return no error exactly if the mode, with that title and text where it is activated, was posted with
  -- the API key, and the exporter answered with the status 200 and a body that says it is in that mode.
  pub enable-Switched :
      (message : Option Message) (title text : String) (w : W)
      → (((enable json (set_message json (service message) title text) w).0 ≡ none)
          ↔ Switched
              (record { activate = true; message = record { title = title; text = text } })
              w)
        × (((disable json (service message) w).0 ≡ none)
            ↔ Switched (record { activate = false; message = record { title = ""; text = "" } }) w)
  unfolding enable enable_with_message disable set_message
  enable-Switched message title text w = (
    (set_maintenance_mode-Switched _ _ w, Switched-set_maintenance_mode _ _ w),
    (set_maintenance_mode-Switched _ _ w, Switched-set_maintenance_mode _ _ w),
  )
