-- ===== src/Exporter/Maintenance.antt =====
-- api/exporter/maintenance.go: the maintenance mode of the exporter.
pub mod Switching
use ces_importer.Base.{
  String, ◌<>◌, Bool, true, false, Option, none, some, Error, plain, wrap, Result, ok, err,
  if◌then◌else◌,
}
use ces_importer.Exporter.Client.{ApiClient}

pub record Message : Type 0 where
  pub title : String
  pub text : String

pub record MaintenanceMode : Type 0 where
  pub activate : Bool
  pub message : Message

pub record MaintenanceModeStatus : Type 0 where
  pub is_active : Bool

-- The `encoding/json` of the two types.
pub record Codec : Type 0 where
  pub encode : MaintenanceMode → Result String
  pub decode : String → Result MaintenanceModeStatus

pub record MaintenanceModeService (W : Type 0) : Type 0 where
  pub api_client : ApiClient W
  pub message : Option Message

abbrev pub endpoint_maintenance_mode : String
endpoint_maintenance_mode = "/maintenance/mode"

-- `%t`
abbrev text_of : Bool → String
text_of true = "true"
text_of false = "false"

abbrev differs : Bool → Bool → Bool
differs true b = if b then false else true
differs false b = b

unfoldable pub decode_maintenance_mode_status : Codec → String → Result MaintenanceModeStatus
decode_maintenance_mode_status json result = elim (json.decode result) [
  | err e ↦ err (wrap "failed to decode maintenance mode status" e)
  | ok status ↦ ok status
]

module _ {W : Type 0} (json : Codec) (s : MaintenanceModeService W) where
  unfoldable pub get_maintenance_mode_status : W → Result Bool × W
  get_maintenance_mode_status w =
      let (result, w1) = s.api_client.do_get_request endpoint_maintenance_mode w in
      elim result [
        | err e ↦ (err (wrap "failed to get maintenance mode status" e), w1)
        | ok answer ↦ elim (decode_maintenance_mode_status json answer) [
          | err e ↦ (err (wrap "failed to decode maintenance mode status" e), w1)
          | ok response ↦ (ok response.is_active, w1)
        ]
      ]

  unfoldable pub set_maintenance_mode : MaintenanceMode → W → Option Error × W
  set_maintenance_mode mode w = elim (json.encode mode) [
    | err e ↦ (some (wrap "failed to encode maintenance mode" e), w)
    | ok body ↦
        let (result, w1) = s.api_client.do_post_request endpoint_maintenance_mode (some body) w in
        elim result [
          | err e ↦ (some (wrap "failed to set maintenance mode" e), w1)
          | ok answer ↦ elim (decode_maintenance_mode_status json answer) [
            | err e ↦ (some (wrap "failed to decode maintenance mode status" e), w1)
            | ok response ↦
                if differs response.is_active mode.activate
                then (
                  some (
                      plain (
                        "received unexpected mode status in response: "
                        <> text_of response.is_active)),
                  w1,
                )
                else (none, w1)
          ]
        ]
  ]

  unfoldable pub enable_with_message : String → String → W → Option Error × W
  enable_with_message title message =
      set_maintenance_mode
        (record { activate = true; message = record { title = title; text = message } })

  unfoldable pub enable : W → Option Error × W
  enable = elim s.message [
    | none ↦ enable_with_message "" ""
    | some m ↦ enable_with_message m.title m.text
  ]

  unfoldable pub disable : W → Option Error × W
  disable =
      set_maintenance_mode (record { activate = false; message = record { title = ""; text = "" } })

  unfoldable pub set_message : String → String → MaintenanceModeService W
  set_message title message = record s { message = some (record { title = title; text = message }) }
