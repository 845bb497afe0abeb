-- ===== src/Tests/Fqdn.antt =====
-- A change of the fqdn whose second update fails, and the import job's executer.
use ces_importer.Base.{
  join, str_dec, ℕ, String, ◌≡◌, ◌≢◌, ◌↔◌, refl, true, false, Option, none, some, [], ◌∷◌, Error,
  plain, wrap, ok,
}
use ces_importer.Migration.Types.{KeyValue, GlobalConfig}
use ces_importer.Migration.Context.{Context, trigger_fqdn_change}
use ces_importer.Migration.Executer.{ImportExecuter, start, finish}
use ces_importer.Migration.Fqdn
use ces_importer.Migration.Fqdn.{
  ConfigChange, SecretChange, Change, Changer, Service, change_fqdn, create_change_request,
  is_restore_error, empty_change,
}
use ces_importer.Migration.Fqdn.Rollback.{Apart, change_fqdn-rollback}
use ces_importer.Migration.Fqdn.Request.{requested, create_change_request-requested}

-- The live texts of the two changers and their backups.
record World : Type 0 where
  fqdn : String
  cert : String
  fqdn_backup : Option String
  cert_backup : Option String

abbrev restored : Option String → String → String
restored none live = live
restored (some v) live = v

abbrev fqdn_changer : Changer World ConfigChange
fqdn_changer = record {
  backup = λ w. (none, record w { fqdn_backup = some w.fqdn });
  delete_backup = λ w. (none, record w { fqdn_backup = none });
  restore = λ w. (none, record w { fqdn = restored w.fqdn_backup w.fqdn });
  update = λ c w. (none, record w { fqdn = c.fqdn });
}

-- Its update writes and then fails.
abbrev cert_changer : Changer World SecretChange
cert_changer = record {
  backup = λ w. (none, record w { cert_backup = some w.cert });
  delete_backup = λ w. (none, record w { cert_backup = none });
  restore = λ w. (none, record w { cert = restored w.cert_backup w.cert });
  update = λ c w. (some (plain "conflict"), record w { cert = c.certificate });
}

abbrev entry : String → String → KeyValue
entry k v = record { key = k; value = v }

abbrev global_config : GlobalConfig
global_config =
    entry "/fqdn" "old.example"
    ∷ entry "fqdn" "new.example"
    ∷ entry "certificate/type" "external"
    ∷ entry "certificate/server.crt" "crt"
    ∷ entry "/certificate/server.key" "key"
    ∷ []

abbrev service : Service World
service = record {
  get_config = λ w.
      (ok (record { global_config = global_config; dogu_configs = []; backup_schedules = [] }), w);
  fqdn = fqdn_changer;
  cert = cert_changer;
}

service-Apart : Apart service (λ w. w.fqdn) (λ w. w.fqdn_backup) (λ w. w.cert) (λ w. w.cert_backup)
service-Apart = record {
  fqdn = record {
    backup_saves = λ w h. refl;
    backup_live = λ w. refl;
    update_saved = λ x w. refl;
    restore_live = λ w v h p. rw p refl;
    delete_live = λ w. refl;
  };
  cert = record {
    backup_saves = λ w h. refl;
    backup_live = λ w. refl;
    update_saved = λ x w. refl;
    restore_live = λ w v h p. rw p refl;
    delete_live = λ w. refl;
  };
  fqdn_leaves = record {
    backup_live = λ w. refl;
    backup_saved = λ w. refl;
    update_live = λ x w. refl;
    update_saved = λ x w. refl;
    restore_live = λ w. refl;
    restore_saved = λ w. refl;
    delete_live = λ w. refl;
  };
  cert_leaves = record {
    backup_live = λ w. refl;
    backup_saved = λ w. refl;
    update_live = λ x w. refl;
    update_saved = λ x w. refl;
    restore_live = λ w. refl;
    restore_saved = λ w. refl;
    delete_live = λ w. refl;
  };
  reads = λ w. (refl, refl, refl, refl);
}

abbrev world : World
world = record {
  fqdn = "ces.example";
  cert = "self-signed";
  fqdn_backup = none;
  cert_backup = none;
}

abbrev failure : Error
failure =
    wrap "failed to update fqdn or certificate"
      (wrap "failed to update certificate" (plain "conflict"))

fails : (change_fqdn service world).0 ≡ some failure
unfolding change_fqdn Fqdn.backup Fqdn.change Fqdn.create_change_request Fqdn.take_over_all
    Fqdn.take_over Fqdn.trim_slash Fqdn.is_valid Fqdn.update Fqdn.restore str_dec
fails = refl

no_restore_error : is_restore_error failure ≡ false
unfolding is_restore_error
no_restore_error = refl

change_fqdn-rollback_example :
    ((change_fqdn service world).1.fqdn ≡ "ces.example")
    × ((change_fqdn service world).1.cert ≡ "self-signed")
change_fqdn-rollback_example =
    change_fqdn-rollback service (λ w. w.fqdn) (λ w. w.fqdn_backup) (λ w. w.cert)
      (λ w. w.cert_backup) service-Apart world failure fails no_restore_error

create_change_request-requested_example :
    let c = requested global_config empty_change in
    (create_change_request global_config ≡ ok c) ↔ (
      (c ≡ requested global_config empty_change)
      × (c.config.fqdn ≢ "")
      × (c.config.cert_type ≢ "")
      × (c.secret.certificate ≢ "")
      × (c.secret.certificate_key ≢ ""))
create_change_request-requested_example =
    create_change_request-requested global_config (requested global_config empty_change)

abbrev executer : ImportExecuter ℕ
executer = record {
  sync_data = λ w. (none, 1);
  sync_config = λ w. (none, 2);
  change_fqdn = λ w. (some (plain "no backup"), 3);
}

abbrev triggered : Context
triggered = record { final_migration = none; trigger_fqdn_change = some true }

-- Both synchronisations, then the change of the fqdn, which fails.
executer_fails :
    start executer triggered 0 ≡ (some (wrap "failed to change fqdn" (plain "no backup")), 3)
unfolding start finish trigger_fqdn_change join
executer_fails = refl
