-- ===== src/Migration/Fqdn.antt =====
-- migration/fqdn/service.go: the change of the fqdn and the certificate. The two changers are the source's
-- interfaces `fqdnChanger` and `certificateChanger`.
pub mod Rollback
pub mod Request
pub mod Cluster
pub mod Managers
use ces_importer.Base.{
  String, ◌<>◌, ◌==◌, Bool, true, false, ◌||◌, Option, none, some, List, [], ◌∷◌, Error, plain,
  wrap, join_one, join_two, restore_failed, foreign, expired_timestamp, Result, ok, err,
  if◌then◌else◌, nat_eq,
}
use ces_importer.Migration.Types.{KeyValue, GlobalConfig, Configuration}
use Prim.Native.String
use Prim.Native.Char.{code}

pub record ConfigChange : Type 0 where
  pub fqdn : String
  pub cert_type : String
  pub alternative_fqdns : String

-- The bytes of the certificate and of its key, as texts.
pub record SecretChange : Type 0 where
  pub certificate : String
  pub certificate_key : String

pub record Change : Type 0 where
  pub config : ConfigChange
  pub secret : SecretChange

unfoldable pub is_valid : Change → Option Error
is_valid c =
    if c.config.fqdn == ""
    then some (plain "fqdn is empty")
    else if c.config.cert_type == ""
    then some (plain "certificate type is empty")
    else if c.secret.certificate == ""
    then some (plain "certificate is empty")
    else if c.secret.certificate_key == ""
    then some (plain "certificate key is empty")
    else none

-- `strings.TrimPrefix(key, "/")`
unfoldable pub trim_slash : String → String
trim_slash String.[] = String.[]
trim_slash (String.◌∷◌ c s) = if nat_eq (code c) 47 then s else String.◌∷◌ c s

-- The `switch` of the loop of `createChangeRequest`.
unfoldable pub take_over : KeyValue → Change → Change
take_over kv change =
    let key = trim_slash kv.key in
    if key == "fqdn"
    then record change { config = record change.config { fqdn = kv.value } }
    else if key == "alternativeFQDNs"
    then record change { config = record change.config { alternative_fqdns = kv.value } }
    else if key == "certificate/type"
    then record change { config = record change.config { cert_type = kv.value } }
    else if key == "certificate/server.crt"
    then record change { secret = record change.secret { certificate = kv.value } }
    else if key == "certificate/server.key"
    then record change { secret = record change.secret { certificate_key = kv.value } }
    else change

unfoldable pub take_over_all : GlobalConfig → Change → Change
take_over_all [] change = change
take_over_all (kv ∷ kvs) change = take_over_all kvs (take_over kv change)

abbrev pub empty_change : Change
empty_change = record {
  config = record { fqdn = ""; cert_type = ""; alternative_fqdns = "" };
  secret = record { certificate = ""; certificate_key = "" };
}

unfoldable pub create_change_request : GlobalConfig → Result Change
create_change_request global_cfg =
    let change = take_over_all global_cfg empty_change in
    elim (is_valid change) [ none ↦ ok change | some e ↦ err (wrap "invalid global config" e) ]

-- `fqdnChanger` and `certificateChanger`, with the change that they take
pub record Changer (W C : Type 0) : Type 0 where
  pub backup : W → Option Error × W
  pub delete_backup : W → Option Error × W
  pub restore : W → Option Error × W
  pub update : C → W → Option Error × W

pub record Service (W : Type 0) : Type 0 where
  pub get_config : W → Result Configuration × W
  pub fqdn : Changer W ConfigChange
  pub cert : Changer W SecretChange

-- `errors.As(err, &rErr)` with a `restoreError`
unfoldable pub is_restore_error : Error → Bool
is_restore_error (restore_failed _ _) = true
is_restore_error (wrap _ e) = is_restore_error e
is_restore_error (join_one e) = is_restore_error e
is_restore_error (join_two a b) = is_restore_error a || is_restore_error b
is_restore_error (plain _) = false
is_restore_error (foreign _) = false
is_restore_error expired_timestamp = false

abbrev pub needs_backup : Option Error → Bool
needs_backup none = false
needs_backup (some e) = is_restore_error e

-- Two calls, the second only if the first succeeds; the messages go round their errors.
abbrev pub both :
    {W : Type 0}
    → String
    → (W → Option Error × W)
    → String
    → (W → Option Error × W)
    → W
    → Option Error × W
both m1 f1 m2 f2 w =
    let (e1, w1) = f1 w in
    let (e2, w2) = f2 w1 in
    elim e1 [
      | some e ↦ (some (wrap m1 e), w1)
      | none ↦ elim e2 [ some e ↦ (some (wrap m2 e), w2) | none ↦ (none, w2) ]
    ]

module _ {W : Type 0} (s : Service W) where
  unfoldable pub backup : W → Option Error × W
  backup = both "failed to backup fqdn" s.fqdn.backup "failed to backup certificate" s.cert.backup

  unfoldable pub delete_backup : W → Option Error × W
  delete_backup =
      both "failed to delete backup for fqdn" s.fqdn.delete_backup
        "failed to delete backup for certificate" s.cert.delete_backup

  unfoldable pub update : Change → W → Option Error × W
  update c =
      both "failed to update fqdn" (s.fqdn.update c.config) "failed to update certificate"
        (s.cert.update c.secret)

  unfoldable pub restore : W → Option Error × W
  restore =
      both "failed to restore certificate" s.cert.restore "failed to restore fqdn" s.fqdn.restore

  -- `ChangeFQDN` between the deferred function and its end.
  unfoldable pub change : W → Option Error × W
  change w =
      let (config, w1) = s.get_config w in
      elim config [
        | err e ↦ (some (wrap "failed to get config from exporter" e), w1)
        | ok exporter_config ↦ elim (create_change_request exporter_config.global_config) [
          | err e ↦ (some (wrap "failed to create change request for fqdn" e), w1)
          | ok request ↦
              let (update_error, w2) = update request w1 in
              let (restore_error, w3) = restore w2 in
              elim update_error [
                | none ↦ (none, w2)
                | some e ↦
                    let failure = wrap "failed to update fqdn or certificate" e in
                    elim restore_error [
                      | some r ↦ (some (restore_failed r failure), w3)
                      | none ↦ (some failure, w3)
                    ]
              ]
        ]
      ]

  unfoldable pub change_fqdn : W → Option Error × W
  change_fqdn w =
      let (backup_error, w1) = backup w in
      let (failure, w2) = change w1 in
      elim backup_error [
        | some e ↦ (some (wrap "failed to create backup" e), w1)
        | none ↦ (failure, if needs_backup failure then w2 else (delete_backup w2).1)
      ]
