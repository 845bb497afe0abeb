-- ===== src/Migration/Fqdn/Managers.antt =====
-- migration/fqdn/fqdn.go and migration/fqdn/certificate.go: the managers of the fqdn and of the certificate. The
-- source's own name of a function is kept where it is exported; the tries that it repeats end in `_once`.
pub mod Frame
pub mod Views
pub mod Written
pub mod Contract
pub mod Refinement
use ces_importer.Base.{
  String, Bool, true, false, not, Option, none, some, [], ◌∷◌, Error, plain, wrap, Result, ok, err,
  if◌then◌else◌,
}
use ces_importer.Base.Dict
use ces_importer.Base.Dict.{Dict}
use ces_importer.Migration.Fqdn.{ConfigChange, SecretChange, Changer}
use ces_importer.Migration.Fqdn.Cluster.{Store, Repositories}

abbrev pub fqdn_backup_config_map_name : String
fqdn_backup_config_map_name = "ecosystem-fqdn-backup"

abbrev pub ecosystem_certificate_name : String
ecosystem_certificate_name = "ecosystem-certificate"

abbrev pub certificate_backup_name : String
certificate_backup_name = "ecosystem-certificate-backup"

-- A key that is not there reads as the empty text.
unfoldable pub value_at : String → Dict String → String
value_at key m = elim (Dict.lookup key m) [ none ↦ "" | some v ↦ v ]

unfoldable pub config_change_of : Dict String → ConfigChange
config_change_of m = record {
  fqdn = value_at "fqdn" m;
  cert_type = value_at "certificate-type" m;
  alternative_fqdns = value_at "alternativeFQDNs" m;
}

unfoldable pub secret_change_of : Dict String → SecretChange
secret_change_of m = record {
  certificate = value_at "tls.crt" m;
  certificate_key = value_at "tls.key" m;
}

unfoldable pub create_fqdn_backup_config_map : ConfigChange → Dict String
create_fqdn_backup_config_map b =
    ("fqdn", b.fqdn)
    ∷ ("alternativeFQDNs", b.alternative_fqdns)
    ∷ ("certificate-type", b.cert_type)
    ∷ []

-- The assignments of `updateBackup` and of `update`.
unfoldable pub with_config_change : ConfigChange → Dict String → Dict String
with_config_change b m =
    Dict.insert "alternativeFQDNs" b.alternative_fqdns
      (Dict.insert "fqdn" b.fqdn (Dict.insert "certificate-type" b.cert_type m))

unfoldable pub with_secret_change : SecretChange → Dict String → Dict String
with_secret_change c m =
    Dict.insert "tls.key" c.certificate_key (Dict.insert "tls.crt" c.certificate m)

abbrev or_wrap : {W : Type 0} → String → Option Error × W → Option Error × W
or_wrap message (none, w) = (none, w)
or_wrap message (some e, w) = (some (wrap message e), w)

-- Get an object, change its data and write it back.
unfoldable pub get_and_update :
    {W : Type 0}
    → Store W
    → String
    → String
    → String
    → (Dict String → Dict String)
    → W
    → Option Error × W
get_and_update store name not_got not_updated change w =
    let (got, w1) = store.get name w in
    elim got [
      | err e ↦ (some (wrap not_got e), w1)
      | ok m ↦ or_wrap not_updated (store.update name (change m) w1)
    ]

module _ {W C : Type 0} (r : Repositories W C) where
  unfoldable pub retriable : Error → Bool
  retriable e = not (r.is_not_found e)

  -- Create the backup, or update the one that is there.
  unfoldable pub create_or :
      Store W
      → String
      → String
      → String
      → Dict String
      → (W → Option Error × W)
      → W
      → Option Error × W
  create_or store name not_created not_updated m update w =
      let (created, w1) = store.create name m w in
      let updated = or_wrap not_updated (update w1) in
      elim created [
        | none ↦ (none, w1)
        | some e ↦ elim (r.is_already_exists e) [
          | true ↦ updated
          | false ↦ (some (wrap not_created e), w1)
        ]
      ]

  -- `DeleteBackup`: an object that is not there is deleted.
  unfoldable pub delete_object : Store W → String → String → W → Option Error × W
  delete_object store name message w =
      let (failure, w1) = r.on_error retriable (store.delete name) w in
      elim failure [
        | none ↦ (none, w1)
        | some e ↦ elim (r.is_not_found e) [
          | true ↦ (none, w1)
          | false ↦ (some (wrap message e), w1)
        ]
      ]

  unfoldable pub create_fqdn_backup : C → Result ConfigChange
  create_fqdn_backup c = elim (r.get_value c "fqdn") [
    | none ↦ err (plain "could not find fqdn in global config")
    | some fqdn ↦ elim (r.get_value c "certificate/type") [
      | none ↦ err (plain "could not find certificate/type in global config")
      | some cert_type ↦ ok (record {
        fqdn = fqdn;
        cert_type = cert_type;
        alternative_fqdns = elim (r.get_value c "alternativeFQDNs") [ none ↦ "" | some v ↦ v ];
      })
    ]
  ]

  unfoldable pub update_fqdn_backup : ConfigChange → W → Option Error × W
  update_fqdn_backup b = r.on_error r.is_conflict (
      get_and_update r.config_maps fqdn_backup_config_map_name
        "could not get backup config map for fqdn" "failed to update config map for fqdn"
        (with_config_change b))

  unfoldable pub backup_fqdn_once : W → Option Error × W
  backup_fqdn_once w =
      let (got, w1) = r.get_global w in
      elim got [
        | err e ↦ (some (wrap "could not get global config" e), w1)
        | ok c ↦ elim (create_fqdn_backup c) [
          | err e ↦ (some (wrap "could not create fqdn backup from global config" e), w1)
          | ok b ↦
              create_or r.config_maps fqdn_backup_config_map_name
                "failed to create config map for fqdn backup" "failed to update backup for fqdn"
                (create_fqdn_backup_config_map b) (update_fqdn_backup b) w1
        ]
      ]

  -- The three values, set one after the other.
  unfoldable pub with_fqdn : ConfigChange → C → Result C
  with_fqdn change c = elim (r.set_value "fqdn" change.fqdn c) [
    | err e ↦ err (wrap "failed to set new fqdn in global config" e)
    | ok c1 ↦ elim (r.set_value "alternativeFQDNs" change.alternative_fqdns c1) [
      | err e ↦ err (wrap "failed to set new alternativeFQDNs in global config" e)
      | ok c2 ↦ elim (r.set_value "certificate/type" change.cert_type c2) [
        | err e ↦ err (wrap "failed to set new cert type in global config" e)
        | ok c3 ↦ ok c3
      ]
    ]
  ]

  unfoldable pub update_fqdn : ConfigChange → W → Option Error × W
  update_fqdn change w =
      let (got, w1) = r.get_global w in
      elim got [
        | err e ↦ (some (wrap "could not get global config" e), w1)
        | ok c ↦ elim (with_fqdn change c) [
          | err e ↦ (some e, w1)
          | ok c' ↦
              or_wrap "failed to save global config" (r.on_error retriable (r.save_or_merge c') w1)
        ]
      ]

  unfoldable pub restore_fqdn_once : W → Option Error × W
  restore_fqdn_once w =
      let (got, w1) = r.config_maps.get fqdn_backup_config_map_name w in
      elim got [
        | err e ↦ (some (wrap "failed to get config mapo for fqdn backup" e), w1)
        | ok m ↦ or_wrap "failed to update fqdn" (update_fqdn (config_change_of m) w1)
      ]

  -- `fqdnManager`
  abbrev pub fqdn_manager : Changer W ConfigChange
  fqdn_manager = record {
    backup = r.on_error retriable backup_fqdn_once;
    delete_backup =
        delete_object r.config_maps fqdn_backup_config_map_name
          "failed to delete config map for fqdn backup";
    restore = r.on_error retriable restore_fqdn_once;
    update = update_fqdn;
  }

  -- `ecosystemCertificate.update` with `RetryOnConflict` around it, for the secret itself and for its backup
  unfoldable pub update_secret : String → SecretChange → W → Option Error × W
  update_secret name change = r.on_error r.is_conflict (
      get_and_update r.secrets name "failed to get secret for certificate"
        "failed to update secret for certificate" (with_secret_change change))

  abbrev pub update_certificate_backup : SecretChange → W → Option Error × W
  update_certificate_backup = update_secret certificate_backup_name

  -- The backup is a copy of the secret under another name.
  unfoldable pub backup_certificate_once : W → Option Error × W
  backup_certificate_once w =
      let (got, w1) = r.secrets.get ecosystem_certificate_name w in
      elim got [
        | err e ↦ (some (wrap "failed to get secret for certificate" e), w1)
        | ok m ↦
            create_or r.secrets certificate_backup_name
              "failed to create secret for backup certificate"
              "failed to update backup for certificate" m
              (update_certificate_backup (secret_change_of m)) w1
      ]

  unfoldable pub restore_certificate_once : W → Option Error × W
  restore_certificate_once w =
      let (got, w1) = r.secrets.get certificate_backup_name w in
      elim got [
        | err e ↦ (some (wrap "failed to get secret for backup certificate" e), w1)
        | ok m ↦
            or_wrap "failed to update certificate"
              (update_secret ecosystem_certificate_name (secret_change_of m) w1)
      ]

  abbrev pub restore_certificate : W → Option Error × W
  restore_certificate = r.on_error retriable restore_certificate_once

  abbrev pub delete_certificate_backup : W → Option Error × W
  delete_certificate_backup =
      delete_object r.secrets certificate_backup_name
        "failed to delete secret for certificate backup"

  -- `ecosystemCertificate`
  abbrev pub ecosystem_certificate : Changer W SecretChange
  ecosystem_certificate = record {
    backup = r.on_error retriable backup_certificate_once;
    delete_backup = delete_certificate_backup;
    restore = restore_certificate;
    update = update_secret ecosystem_certificate_name;
  }
