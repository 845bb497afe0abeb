-- ===== src/Migration/Fqdn/Managers/Refinement.antt =====
-- The managers of the fqdn and of the certificate fulfil the contract that the change of the fqdn has with its changers.
use ces_importer.Base.{ap, arith, String, ◌==◌, ◌≡◌, refl, false, Option, some, Result, str_dec}
use ces_importer.Base.Dict.{Dict}
use ces_importer.Migration.Types.{Configuration}
use ces_importer.Migration.Fqdn.{SecretChange, Service}
use ces_importer.Migration.Fqdn.Rollback.{IsLawful, Leaves, Apart}
use ces_importer.Migration.Fqdn.Cluster.{Repositories, Spares, Spares-map, IsCluster, Tries-keeps}
use ces_importer.Migration.Fqdn.Managers.{
  retriable, backup_fqdn_once, restore_fqdn_once, fqdn_manager, backup_certificate_once,
  restore_certificate_once, ecosystem_certificate, secret_change_of, config_change_of,
  fqdn_backup_config_map_name, ecosystem_certificate_name, certificate_backup_name,
}
use ces_importer.Migration.Fqdn.Managers.Views.{mapped}
use ces_importer.Migration.Fqdn.Managers.Frame.{
  on_error-Keeps, delete_object-Keeps, backup_fqdn_once-Keeps, update_fqdn-Keeps,
  restore_fqdn_once-Keeps, update_secret-Keeps, backup_certificate_once-Keeps,
  restore_certificate_once-Keeps,
}
use ces_importer.Migration.Fqdn.Managers.Views.{
  settings_of, config_at, certificate_at, certificate_backup_at, live_fqdn, saved_fqdn,
  live_certificate, saved_certificate,
}
use ces_importer.Migration.Fqdn.Managers.Contract.{
  backup_fqdn_once_lem, restore_fqdn_once_lem, backup_certificate_once_lem,
  restore_certificate_once_lem,
}

live_is_not_backup : (ecosystem_certificate_name == certificate_backup_name) ≡ false
unfolding str_dec
live_is_not_backup = refl

backup_is_not_live : (certificate_backup_name == ecosystem_certificate_name) ≡ false
unfolding str_dec
backup_is_not_live = refl

-- The service of `ChangeFQDN` with the two managers of this cluster.
abbrev pub service_of :
    {W C : Type 0} → Repositories W C → (W → Result Configuration × W) → Service W
service_of r get = record {
  get_config = get;
  fqdn = fqdn_manager r;
  cert = ecosystem_certificate r;
}

module _ {W C : Type 0} (r : Repositories W C) (global : W → String → Option String)
    (config_map secret : W → String → Option (Dict String))
    (cluster : IsCluster r global config_map secret) where
  fqdn_manager-IsLawful : IsLawful (fqdn_manager r) (live_fqdn global) (saved_fqdn config_map)
  fqdn_manager-IsLawful =
      let spares = Spares-map settings_of (cluster.maps_global fqdn_backup_config_map_name) in
      let get_global : (w : W) → live_fqdn global (r.get_global w).1 ≡ live_fqdn global w =
        λ w. ap settings_of (cluster.get_global_keeps w) in
      let once = backup_fqdn_once-Keeps r (live_fqdn global) cluster.tries get_global spares in
      let restored =
        restore_fqdn_once-Keeps r (saved_fqdn config_map) cluster.tries
          (λ w. ap config_at (cluster.get_global_map w))
          (λ c w. ap config_at (cluster.save_map c w))
          (λ m w.
            ap (mapped config_change_of)
              (cluster.maps.get_keeps m w fqdn_backup_config_map_name)) in
      record {
        backup_saves = λ w h.
            let (_, w1, same, ended) =
              Tries-keeps (retriable r) (backup_fqdn_once r) (live_fqdn global) w _ once
                (cluster.tries (retriable r) (backup_fqdn_once r) w) in
            ground
              (arith, h, same, ended, backup_fqdn_once_lem r global config_map secret cluster w1);
        backup_live =
            on_error-Keeps r (live_fqdn global) cluster.tries (retriable r) (backup_fqdn_once r)
              once;
        update_saved =
            update_fqdn-Keeps r (saved_fqdn config_map) cluster.tries
              (λ w. ap config_at (cluster.get_global_map w))
              (λ c w. ap config_at (cluster.save_map c w));
        restore_live = λ w v h saved.
            let (_, w1, same, ended) =
              Tries-keeps (retriable r) (restore_fqdn_once r) (saved_fqdn config_map) w _ restored
                (cluster.tries (retriable r) (restore_fqdn_once r) w) in
            ground (
              arith,
              h,
              same,
              saved,
              ended,
              restore_fqdn_once_lem r global config_map secret cluster w1 v,
            );
        delete_live =
            delete_object-Keeps r (live_fqdn global) cluster.tries r.config_maps
              fqdn_backup_config_map_name spares "failed to delete config map for fqdn backup";
      }

  fqdn_manager-Leaves : Leaves (fqdn_manager r) (live_certificate secret) (saved_certificate secret)
  fqdn_manager-Leaves =
      let spares = cluster.maps_secret fqdn_backup_config_map_name in
      let once = backup_fqdn_once-Keeps r secret cluster.tries cluster.get_global_secret spares in
      let updated =
        update_fqdn-Keeps r secret cluster.tries cluster.get_global_secret cluster.save_secret in
      let restored = on_error-Keeps r secret cluster.tries (retriable r) (restore_fqdn_once r) (
        restore_fqdn_once-Keeps r secret cluster.tries cluster.get_global_secret cluster.save_secret
          spares.get_spares) in
      let kept = on_error-Keeps r secret cluster.tries (retriable r) (backup_fqdn_once r) once in
      record {
        backup_live = λ w. ap certificate_at (kept w);
        backup_saved = λ w. ap certificate_backup_at (kept w);
        update_live = λ x w. ap certificate_at (updated x w);
        update_saved = λ x w. ap certificate_backup_at (updated x w);
        restore_live = λ w. ap certificate_at (restored w);
        restore_saved = λ w. ap certificate_backup_at (restored w);
        delete_live = λ w. ap certificate_at (
            delete_object-Keeps r secret cluster.tries r.config_maps fqdn_backup_config_map_name
              spares "failed to delete config map for fqdn backup" w);
      }

  -- A value that no write of a secret changes.
  certificate-keeps :
      {V : Type 0} (value : W → V)
      → ((n : String) → Spares r.secrets n value)
      → ((w : W) → value ((ecosystem_certificate r).backup w).1 ≡ value w)
        × ((x : SecretChange) (w : W) → value ((ecosystem_certificate r).update x w).1 ≡ value w)
        × ((w : W) → value ((ecosystem_certificate r).restore w).1 ≡ value w)
        × ((w : W) → value ((ecosystem_certificate r).delete_backup w).1 ≡ value w)
  certificate-keeps value spares = (
    on_error-Keeps r value cluster.tries (retriable r) (backup_certificate_once r)
        (backup_certificate_once-Keeps r value cluster.tries (spares certificate_backup_name)),
    update_secret-Keeps r value cluster.tries ecosystem_certificate_name
        (spares ecosystem_certificate_name),
    on_error-Keeps r value cluster.tries (retriable r) (restore_certificate_once r)
        (restore_certificate_once-Keeps r value cluster.tries (spares ecosystem_certificate_name)),
    delete_object-Keeps r value cluster.tries r.secrets certificate_backup_name
        (spares certificate_backup_name) "failed to delete secret for certificate backup",
  )

  ecosystem_certificate-Leaves :
      Leaves (ecosystem_certificate r) (live_fqdn global) (saved_fqdn config_map)
  ecosystem_certificate-Leaves =
      let (b, u, s, d) = certificate-keeps global cluster.secrets_global in
      let (b', u', s', d') = certificate-keeps config_map cluster.secrets_map in
      record {
        backup_live = λ w. ap settings_of (b w);
        backup_saved = λ w. ap config_at (b' w);
        update_live = λ x w. ap settings_of (u x w);
        update_saved = λ x w. ap config_at (u' x w);
        restore_live = λ w. ap settings_of (s w);
        restore_saved = λ w. ap config_at (s' w);
        delete_live = λ w. ap settings_of (d w);
      }

  ecosystem_certificate-IsLawful :
      IsLawful (ecosystem_certificate r) (live_certificate secret) (saved_certificate secret)
  ecosystem_certificate-IsLawful =
      let live_spares : Spares r.secrets certificate_backup_name (live_certificate secret) =
        Spares-map (mapped secret_change_of) (
          cluster.secrets.others certificate_backup_name ecosystem_certificate_name
            backup_is_not_live) in
      let saved_spares : Spares r.secrets ecosystem_certificate_name (saved_certificate secret) =
        Spares-map (mapped (λ m. some (secret_change_of m))) (
          cluster.secrets.others ecosystem_certificate_name certificate_backup_name
            live_is_not_backup) in
      let once =
        backup_certificate_once-Keeps r (live_certificate secret) cluster.tries live_spares in
      let restored =
        restore_certificate_once-Keeps r (saved_certificate secret) cluster.tries saved_spares in
      record {
        backup_saves = λ w h.
            let (_, w1, same, ended) =
              Tries-keeps (retriable r) (backup_certificate_once r) (live_certificate secret) w _
                once (cluster.tries (retriable r) (backup_certificate_once r) w) in
            ground (
              arith,
              h,
              same,
              ended,
              backup_certificate_once_lem r global config_map secret cluster w1,
            );
        backup_live =
            on_error-Keeps r (live_certificate secret) cluster.tries (retriable r)
              (backup_certificate_once r) once;
        update_saved =
            update_secret-Keeps r (saved_certificate secret) cluster.tries
              ecosystem_certificate_name saved_spares;
        restore_live = λ w v h saved.
            let (_, w1, same, ended) =
              Tries-keeps (retriable r) (restore_certificate_once r) (saved_certificate secret) w _
                restored (cluster.tries (retriable r) (restore_certificate_once r) w) in
            ground (
              arith,
              h,
              same,
              saved,
              ended,
              restore_certificate_once_lem r global config_map secret cluster w1 v,
            );
        delete_live =
            delete_object-Keeps r (live_certificate secret) cluster.tries r.secrets
              certificate_backup_name live_spares "failed to delete secret for certificate backup";
      }

  -- In a cluster whose config maps, secrets and global configuration are stored apart, the managers of the fqdn and of the certificate implement the
  -- contract of `ChangeFQDN` with its changers: a backup that succeeds has saved what is live, a restore that succeeds has made what was saved
  -- live, an update leaves the backup alone, and neither manager changes what the other one is responsible for. It needs that asking the
  -- exporter changes nothing in the cluster. A setting that is not
  -- there counts as the empty text.
  pub service_of-Apart :
      (get : W → Result Configuration × W)
      → ((w : W)
          → (global (get w).1 ≡ global w)
            × (config_map (get w).1 ≡ config_map w)
            × (secret (get w).1 ≡ secret w))
      → Apart
          (service_of r get)
          (live_fqdn global)
          (saved_fqdn config_map)
          (live_certificate secret)
          (saved_certificate secret)
  service_of-Apart get reads = record {
    fqdn = fqdn_manager-IsLawful;
    cert = ecosystem_certificate-IsLawful;
    fqdn_leaves = fqdn_manager-Leaves;
    cert_leaves = ecosystem_certificate-Leaves;
    reads = λ w.
        let (a, b, c) = reads w in
        (ap settings_of a, ap config_at b, ap certificate_at c, ap certificate_backup_at c);
  }
