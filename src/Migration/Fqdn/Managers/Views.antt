-- ===== src/Migration/Fqdn/Managers/Views.antt =====
-- What is live and what is saved of the fqdn and of the certificate.
use ces_importer.Base.{String, ◌==◌, ◌≡◌, refl, Option, none, some, arith, str_dec, if◌then◌else◌}
use ces_importer.Base.Dict
use ces_importer.Base.Dict.{Dict}
use ces_importer.Migration.Fqdn.{ConfigChange, SecretChange}
use ces_importer.Migration.Fqdn.Managers.{
  value_at, with_config_change, with_secret_change, config_change_of, secret_change_of,
  create_fqdn_backup_config_map, fqdn_backup_config_map_name, ecosystem_certificate_name,
  certificate_backup_name,
}

abbrev pub text_of : Option String → String
text_of none = ""
text_of (some v) = v

abbrev pub mapped : {A B : Type 0} → (A → B) → Option A → Option B
mapped f none = none
mapped f (some a) = some (f a)

value_at-insert :
    (j k v : String) (m : Dict String)
    → value_at j (Dict.insert k v m) ≡ (if k == j then v else value_at j m)
unfolding value_at
value_at-insert j k v m = ground (arith, Dict.lookup-insert j k v m)

pub config_change_of-with_config_change :
    (b : ConfigChange) (m : Dict String) → config_change_of (with_config_change b m) ≡ b
unfolding config_change_of with_config_change str_dec
config_change_of-with_config_change b m =
    let m1 = Dict.insert "certificate-type" b.cert_type m in
    let m2 = Dict.insert "fqdn" b.fqdn m1 in
    ground (
      arith,
      value_at-insert "alternativeFQDNs" "alternativeFQDNs" b.alternative_fqdns m2,
      value_at-insert "fqdn" "alternativeFQDNs" b.alternative_fqdns m2,
      value_at-insert "fqdn" "fqdn" b.fqdn m1,
      value_at-insert "certificate-type" "alternativeFQDNs" b.alternative_fqdns m2,
      value_at-insert "certificate-type" "fqdn" b.fqdn m1,
      value_at-insert "certificate-type" "certificate-type" b.cert_type m,
    )

pub config_change_of-create_fqdn_backup_config_map :
    (b : ConfigChange) → config_change_of (create_fqdn_backup_config_map b) ≡ b
unfolding config_change_of create_fqdn_backup_config_map value_at Dict.lookup str_dec
config_change_of-create_fqdn_backup_config_map b = refl

pub secret_change_of-with_secret_change :
    (c : SecretChange) (m : Dict String) → secret_change_of (with_secret_change c m) ≡ c
unfolding secret_change_of with_secret_change str_dec
secret_change_of-with_secret_change c m =
    let m1 = Dict.insert "tls.crt" c.certificate m in
    ground (
      arith,
      value_at-insert "tls.crt" "tls.key" c.certificate_key m1,
      value_at-insert "tls.crt" "tls.crt" c.certificate m,
      value_at-insert "tls.key" "tls.key" c.certificate_key m1,
    )

abbrev pub settings_of : (String → Option String) → ConfigChange
settings_of value = record {
  fqdn = text_of (value "fqdn");
  cert_type = text_of (value "certificate/type");
  alternative_fqdns = text_of (value "alternativeFQDNs");
}

abbrev pub config_at : (String → Option (Dict String)) → Option ConfigChange
config_at config_map = mapped config_change_of (config_map fqdn_backup_config_map_name)

abbrev pub certificate_at : (String → Option (Dict String)) → Option SecretChange
certificate_at secret = mapped secret_change_of (secret ecosystem_certificate_name)

abbrev pub certificate_backup_at : (String → Option (Dict String)) → Option (Option SecretChange)
certificate_backup_at secret =
    mapped (λ m. some (secret_change_of m)) (secret certificate_backup_name)

module _ {W : Type 0} where
  -- The settings of the fqdn in the global configuration; one that is not there reads as the empty text.
  abbrev pub live_fqdn : (W → String → Option String) → W → ConfigChange
  live_fqdn global w = settings_of (global w)

  abbrev pub saved_fqdn : (W → String → Option (Dict String)) → W → Option ConfigChange
  saved_fqdn config_map w = config_at (config_map w)

  abbrev pub live_certificate : (W → String → Option (Dict String)) → W → Option SecretChange
  live_certificate secret w = certificate_at (secret w)

  -- The backup of a certificate is always that of one that is there.
  abbrev pub saved_certificate :
      (W → String → Option (Dict String)) → W → Option (Option SecretChange)
  saved_certificate secret w = certificate_backup_at (secret w)
