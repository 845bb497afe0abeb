-- ===== src/Migration/Fqdn/Managers/Frame.antt =====
-- What the managers leave alone.
use ces_importer.Base.{Keeps, String, ◌≡◌, Bool, Option, Error, arith, Result-cases, inl, inr}
use ces_importer.Base.Dict.{Dict}
use ces_importer.Migration.Fqdn.{ConfigChange, SecretChange}
use ces_importer.Migration.Fqdn.Cluster.{Store, Repositories, Tries, Spares, Tries-keeps}
use ces_importer.Migration.Fqdn.Managers.{
  get_and_update, create_or, delete_object, retriable, update_fqdn_backup, backup_fqdn_once,
  update_fqdn, restore_fqdn_once, update_secret, backup_certificate_once, restore_certificate_once,
  create_fqdn_backup, with_fqdn, with_config_change, with_secret_change, config_change_of,
  secret_change_of, create_fqdn_backup_config_map, fqdn_backup_config_map_name,
  ecosystem_certificate_name, certificate_backup_name,
}

module _ {W C V : Type 0} (r : Repositories W C) (value : W → V)
    (tries : (retriable : Error → Bool) (f : W → Option Error × W) (w : W)
      → Tries retriable f w (r.on_error retriable f w)) where
  pub on_error-Keeps :
      (p : Error → Bool) (f : W → Option Error × W) → Keeps value f → Keeps value (r.on_error p f)
  on_error-Keeps p f keeps w = (Tries-keeps p f value w _ keeps (tries p f w)).0

  module _ (store : Store W)
      (get_spares : (m : String) (w : W) → value (store.get m w).1 ≡ value w) where
    pub get_and_update-Keeps :
        (name a b : String) (change : Dict String → Dict String)
        → ((d : Dict String) (w : W) → value (store.update name d w).1 ≡ value w)
        → Keeps value (get_and_update store name a b change)
    unfolding get_and_update
    get_and_update-Keeps name a b change spares w = elim (Result-cases (store.get name w).0) [
      | inr (e, p) ↦ ground (arith, p, get_spares name w)
      | inl (m, p) ↦ ground (arith, p, get_spares name w, spares (change m) (store.get name w).1)
    ]

  module _ (store : Store W) (name : String) (spares : Spares store name value) where
    pub create_or-Keeps :
        (a b : String) (m : Dict String) (update : W → Option Error × W)
        → Keeps value update
        → Keeps value (create_or r store name a b m update)
    unfolding create_or
    create_or-Keeps a b m update keeps w =
        ground (arith, spares.create_spares m w, keeps (store.create name m w).1)

    pub delete_object-Keeps : (message : String) → Keeps value (delete_object r store name message)
    unfolding delete_object
    delete_object-Keeps message w =
        ground (arith, on_error-Keeps (retriable r) (store.delete name) spares.delete_spares w)

  module _ (get_global : (w : W) → value (r.get_global w).1 ≡ value w) where
    module _ (spares : Spares r.config_maps fqdn_backup_config_map_name value) where
      pub update_fqdn_backup-Keeps : (b : ConfigChange) → Keeps value (update_fqdn_backup r b)
      unfolding update_fqdn_backup
      update_fqdn_backup-Keeps b = on_error-Keeps _ _ (
          get_and_update-Keeps r.config_maps spares.get_spares _ _ _ (with_config_change b)
            spares.update_spares)

      pub backup_fqdn_once-Keeps : Keeps value (backup_fqdn_once r)
      unfolding backup_fqdn_once
      backup_fqdn_once-Keeps w = elim (Result-cases (r.get_global w).0) [
        | inr (e, p) ↦ ground (arith, p, get_global w)
        | inl (c, p) ↦ elim (Result-cases (create_fqdn_backup r c)) [
          | inr (e, q) ↦ ground (arith, p, q, get_global w)
          | inl (b, q) ↦ ground (
            arith,
            p,
            q,
            get_global w,
            create_or-Keeps r.config_maps fqdn_backup_config_map_name spares
                "failed to create config map for fqdn backup" "failed to update backup for fqdn"
                (create_fqdn_backup_config_map b) (update_fqdn_backup r b)
                (update_fqdn_backup-Keeps b) (r.get_global w).1,
          )
        ]
      ]

    module _ (save : (c : C) (w : W) → value (r.save_or_merge c w).1 ≡ value w) where
      pub update_fqdn-Keeps : (change : ConfigChange) → Keeps value (update_fqdn r change)
      unfolding update_fqdn
      update_fqdn-Keeps change w = elim (Result-cases (r.get_global w).0) [
        | inr (e, p) ↦ ground (arith, p, get_global w)
        | inl (c, p) ↦ elim (Result-cases (with_fqdn r change c)) [
          | inr (e, q) ↦ ground (arith, p, q, get_global w)
          | inl (c1, q) ↦ ground (
            arith,
            p,
            q,
            get_global w,
            on_error-Keeps (retriable r) (r.save_or_merge c1) (save c1) (r.get_global w).1,
          )
        ]
      ]

      pub restore_fqdn_once-Keeps :
          ((m : String) (w : W) → value (r.config_maps.get m w).1 ≡ value w)
          → Keeps value (restore_fqdn_once r)
      unfolding restore_fqdn_once
      restore_fqdn_once-Keeps get_spares w =
          let got = r.config_maps.get fqdn_backup_config_map_name w in
          elim (Result-cases got.0) [
            | inr (e, p) ↦ ground (arith, p, get_spares fqdn_backup_config_map_name w)
            | inl (m, p) ↦ ground (
              arith,
              p,
              get_spares fqdn_backup_config_map_name w,
              update_fqdn-Keeps (config_change_of m) got.1,
            )
          ]

  pub update_secret-Keeps :
      (name : String)
      → Spares r.secrets name value
      → (change : SecretChange) → Keeps value (update_secret r name change)
  unfolding update_secret
  update_secret-Keeps name spares change = on_error-Keeps _ _ (
      get_and_update-Keeps r.secrets spares.get_spares _ _ _ (with_secret_change change)
        spares.update_spares)

  pub backup_certificate_once-Keeps :
      Spares r.secrets certificate_backup_name value → Keeps value (backup_certificate_once r)
  unfolding backup_certificate_once
  backup_certificate_once-Keeps spares w =
      let got = r.secrets.get ecosystem_certificate_name w in
      elim (Result-cases got.0) [
        | inr (e, p) ↦ ground (arith, p, spares.get_spares ecosystem_certificate_name w)
        | inl (m, p) ↦ ground (
          arith,
          p,
          spares.get_spares ecosystem_certificate_name w,
          create_or-Keeps r.secrets certificate_backup_name spares
              "failed to create secret for backup certificate"
              "failed to update backup for certificate" m
              (update_secret r certificate_backup_name (secret_change_of m))
              (update_secret-Keeps certificate_backup_name spares (secret_change_of m)) got.1,
        )
      ]

  pub restore_certificate_once-Keeps :
      Spares r.secrets ecosystem_certificate_name value → Keeps value (restore_certificate_once r)
  unfolding restore_certificate_once
  restore_certificate_once-Keeps spares w =
      let got = r.secrets.get certificate_backup_name w in
      elim (Result-cases got.0) [
        | inr (e, p) ↦ ground (arith, p, spares.get_spares certificate_backup_name w)
        | inl (m, p) ↦ ground (
          arith,
          p,
          spares.get_spares certificate_backup_name w,
          update_secret-Keeps ecosystem_certificate_name spares (secret_change_of m) got.1,
        )
      ]
