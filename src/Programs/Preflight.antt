-- ===== src/Programs/Preflight.antt =====
-- cmd/ces-importer/preflight.go. The SSH library and the clients are parameters; keys are of a type `K`, connections of a type `S`.
pub mod Passed
use ces_importer.Base.{
  String, ◌<>◌, Bool, true, false, Option, none, some, Error, plain, wrap, join, Result, ok, err,
}
use ces_importer.Base.Dict
use ces_importer.Base.Dict.{Dict}
use ces_importer.Configuration.Types.{Ssh}
use ces_importer.Migration.Types.{SystemInfo, DoguExport}

-- `set_export_dogu` and `get_secret` are those of the clients.
pub record SshTest (W K S : Type 0) : Type 0 where
  pub set_export_dogu : String → W → Result DoguExport × W
  pub get_secret : String → W → Result (Dict String) × W
  pub parse_private_key : String → Result K
  -- `ssh.Dial` with the user, the key and the address
  pub dial : String → K → String → W → Result S × W
  pub new_session : S → W → Option Error × W
  -- the deferred `Close` of the session and of the connection
  pub close_session : W → W
  pub close_client : S → W → W

pub record PreflightExecuter (W : Type 0) : Type 0 where
  pub get_is_healthy : W → Result Bool × W
  pub test_ssh_connection : W → Option Error × W
  pub get_importer_system_info : W → Result SystemInfo × W

abbrev exporter_ssh_port : String
exporter_ssh_port = "7022"

-- A missing key is wrapped with an error that is nil there.
abbrev no_key : String → String → Error
no_key name key =
    plain ("secret '" <> name <> "' does not contain data key '" <> key <> "': %!w(<nil>)")

module _ {W K S : Type 0} (t : SshTest W K S) where
  -- From the dialling on.
  unfoldable pub connect : Ssh → String → K → W → Option Error × W
  connect ssh host signer w =
      let (client, w1) = t.dial ssh.user signer (host <> ":" <> exporter_ssh_port) w in
      elim client [
        | err e ↦ (some (wrap "could not open ssh connection to exporter" e), w1)
        | ok c ↦
            let (failure, w2) = t.new_session c w1 in
            elim failure [
              | some e ↦ (some (wrap "could not create ssh session" e), t.close_client c w2)
              | none ↦ (none, t.close_client c (t.close_session w2))
            ]
      ]

  unfoldable pub ssh_connection_test : Ssh → String → W → Option Error × W
  ssh_connection_test ssh host w =
      let (secret, w1) = t.get_secret ssh.secret_name (t.set_export_dogu "cas" w).1 in
      elim secret [
        | err e ↦ (some (wrap ("could not get secret '" <> ssh.secret_name <> "'") e), w1)
        | ok d ↦ elim (Dict.lookup ssh.secret_data_key d) [
          | none ↦ (some (no_key ssh.secret_name ssh.secret_data_key), w1)
          | some val ↦ elim (t.parse_private_key val) [
            | err e ↦ (some (wrap "could not parse private ssh key" e), w1)
            | ok signer ↦ connect ssh host signer w1
          ]
        ]
      ]

-- `newPreflightExecuter` with the configuration that `runPreflightCheck` gets
unfoldable pub new_preflight_executer :
    {W K S : Type 0}
    → (W → Result Bool × W)
    → (W → Result SystemInfo × W)
    → SshTest W K S
    → Ssh
    → String
    → PreflightExecuter W
new_preflight_executer health info t ssh host = record {
  get_is_healthy = health;
  test_ssh_connection = ssh_connection_test t ssh host;
  get_importer_system_info = info;
}

-- An error of one check, in its message.
abbrev pub health_error : Result Bool → Option Error
health_error (err e) = some (wrap "unable to determine exporter health status" e)
health_error (ok false) = some (plain "exporter health status is unhealthy")
health_error (ok true) = none

abbrev pub ssh_error : Option Error → Option Error
ssh_error none = none
ssh_error (some e) = some (wrap "unable to test ssh connection" e)

abbrev pub info_error : Result SystemInfo → Option Error
info_error (ok _) = none
info_error (err e) = some (wrap "unable to retrieve current systems system info" e)

-- `errors.Join(result, err)` where there is an error
abbrev pub joined : Option Error → Option Error → Option Error
joined result none = result
joined result (some e) = join result (some e)

unfoldable pub run_preflight_check : {W : Type 0} → PreflightExecuter W → W → Option Error × W
run_preflight_check p w =
    let (healthy, w1) = p.get_is_healthy w in
    let (ssh_failure, w2) = p.test_ssh_connection w1 in
    let (info, w3) = p.get_importer_system_info w2 in
    (
      joined (joined (joined none (health_error healthy)) (ssh_error ssh_failure))
          (info_error info),
      w3,
    )
