-- ===== src/Migration/Fqdn/Managers/Contract.antt =====
-- What one try of a backup and of a restore has done.
use ces_importer.Base.{
  subst, ap, sym, String, ◌≡◌, refl, Bool, Option, none, some, Error, arith, Result-cases,
  Option-cases, Bool-cases, inl, inr,
}
use ces_importer.Base.Dict.{Dict}
use ces_importer.Migration.Fqdn.{ConfigChange, SecretChange}
use ces_importer.Migration.Fqdn.Cluster.{Store, Repositories, IsStore, IsCluster}
use ces_importer.Migration.Fqdn.Managers.{
  get_and_update, create_or, update_fqdn_backup, backup_fqdn_once, restore_fqdn_once, update_secret,
  backup_certificate_once, restore_certificate_once, create_fqdn_backup, with_config_change,
  with_secret_change, config_change_of, secret_change_of, create_fqdn_backup_config_map,
  fqdn_backup_config_map_name, ecosystem_certificate_name, certificate_backup_name,
}
use ces_importer.Migration.Fqdn.Managers.Views.{
  mapped, live_fqdn, saved_fqdn, live_certificate, saved_certificate,
  config_change_of-with_config_change, config_change_of-create_fqdn_backup_config_map,
  secret_change_of-with_secret_change,
}
use ces_importer.Migration.Fqdn.Managers.Written.{
  get_and_update_lem, create_fqdn_backup_lem, update_fqdn_lem,
}

module _ {W C : Type 0} (r : Repositories W C) (global : W → String → Option String)
    (config_map secret : W → String → Option (Dict String))
    (cluster : IsCluster r global config_map secret) where
  create_or_lem :
      {V : Type 0} (store : Store W) (view : W → String → Option (Dict String))
      → IsStore store view
      → (k : Dict String → V) (v : V) (name a b : String) (m : Dict String)
        (f : W → Option Error × W) (w : W)
      → k m ≡ v
      → ((w' : W) → (f w').0 ≡ none → mapped k (view (f w').1 name) ≡ some v)
      → (create_or r store name a b m f w).0 ≡ none
      → mapped k (view (create_or r store name a b m f w).1 name) ≡ some v
  unfolding create_or
  create_or_lem store view is_store k v name a b m f w same set h =
      let created = store.create name m w in
      elim (Option-cases created.0) [
        | inl p ↦ ground (
          arith,
          p,
          subst (λ x. mapped k x ≡ some v) (sym (is_store.create_sets name m w p)) (ap some same),
        )
        | inr (e, p) ↦ elim (Bool-cases (r.is_already_exists e)) [
          | inr q ↦ ground (arith, p, q)
          | inl q ↦ elim (Option-cases (f created.1).0) [
            | inr (e1, t) ↦ ground (arith, p, q, t)
            | inl t ↦ ground (arith, p, q, t, set created.1 t)
          ]
        ]
      ]

  updated_lem :
      {V : Type 0} (k : Dict String → V) (v : V) (store : Store W)
      (view : W → String → Option (Dict String))
      → IsStore store view
      → (p : Error → Bool) (name a b : String) (change : Dict String → Dict String)
      → ((m : Dict String) → k (change m) ≡ v)
      → (w : W) → (r.on_error p (get_and_update store name a b change) w).0 ≡ none
      → mapped k (view (r.on_error p (get_and_update store name a b change) w).1 name) ≡ some v
  updated_lem k v store view is_store p name a b change same w h =
      let (m, q) =
        get_and_update_lem r global config_map secret cluster store view is_store p name a b change
          w h in
      subst (λ x. mapped k x ≡ some v) (sym q) (ap some (same m))

  pub backup_fqdn_once_lem :
      (w : W)
      → (backup_fqdn_once r w).0 ≡ none
      → saved_fqdn config_map (backup_fqdn_once r w).1 ≡ some (live_fqdn global w)
  unfolding backup_fqdn_once update_fqdn_backup
  backup_fqdn_once_lem w h = elim (Result-cases (r.get_global w).0) [
    | inr (e, p) ↦ ground (arith, p)
    | inl (c, p) ↦ elim (Result-cases (create_fqdn_backup r c)) [
      | inr (e, q) ↦ ground (arith, p, q)
      | inl (b, q) ↦
          let saved =
            create_or_lem r.config_maps config_map cluster.maps config_change_of b
              fqdn_backup_config_map_name "failed to create config map for fqdn backup"
              "failed to update backup for fqdn" (create_fqdn_backup_config_map b)
              (update_fqdn_backup r b) (r.get_global w).1
              (config_change_of-create_fqdn_backup_config_map b)
              (updated_lem config_change_of b r.config_maps config_map cluster.maps _ _ _ _
                (with_config_change b) (config_change_of-with_config_change b)) in
          ground (
            arith,
            p,
            q,
            create_fqdn_backup_lem r global config_map secret cluster w c b p q,
            saved,
          )
    ]
  ]

  pub restore_fqdn_once_lem :
      (w : W) (v : ConfigChange)
      → (restore_fqdn_once r w).0 ≡ none
      → saved_fqdn config_map w ≡ some v
      → live_fqdn global (restore_fqdn_once r w).1 ≡ v
  unfolding restore_fqdn_once
  restore_fqdn_once_lem w v h saved =
      elim (Result-cases (r.config_maps.get fqdn_backup_config_map_name w).0) [
        | inr (e, p) ↦ ground (arith, p)
        | inl (m, p) ↦
            let w1 = (r.config_maps.get fqdn_backup_config_map_name w).1 in
            let there = cluster.maps.get_reads fqdn_backup_config_map_name w m p in
            ground (
              arith,
              p,
              there,
              saved,
              update_fqdn_lem r global config_map secret cluster (config_change_of m) w1,
            )
      ]

  pub backup_certificate_once_lem :
      (w : W)
      → (backup_certificate_once r w).0 ≡ none
      → saved_certificate secret (backup_certificate_once r w).1 ≡ some (live_certificate secret w)
  unfolding backup_certificate_once update_secret
  backup_certificate_once_lem w h =
      elim (Result-cases (r.secrets.get ecosystem_certificate_name w).0) [
        | inr (e, p) ↦ ground (arith, p)
        | inl (m, p) ↦
            let c = secret_change_of m in
            let there = cluster.secrets.get_reads ecosystem_certificate_name w m p in
            let saved =
              create_or_lem r.secrets secret cluster.secrets (λ x. some (secret_change_of x))
                (some c) certificate_backup_name "failed to create secret for backup certificate"
                "failed to update backup for certificate" m
                (update_secret r certificate_backup_name c)
                (r.secrets.get ecosystem_certificate_name w).1 refl
                (updated_lem (λ x. some (secret_change_of x)) (some c) r.secrets secret
                  cluster.secrets _ _ _ _ (with_secret_change c)
                  (λ x. ap some (secret_change_of-with_secret_change c x))) in
            ground (arith, p, there, saved)
      ]

  pub restore_certificate_once_lem :
      (w : W) (v : Option SecretChange)
      → (restore_certificate_once r w).0 ≡ none
      → saved_certificate secret w ≡ some v
      → live_certificate secret (restore_certificate_once r w).1 ≡ v
  unfolding restore_certificate_once update_secret
  restore_certificate_once_lem w v h saved =
      elim (Result-cases (r.secrets.get certificate_backup_name w).0) [
        | inr (e, p) ↦ ground (arith, p)
        | inl (m, p) ↦
            let w1 = (r.secrets.get certificate_backup_name w).1 in
            let c = secret_change_of m in
            let there = cluster.secrets.get_reads certificate_backup_name w m p in
            let live =
              updated_lem secret_change_of c r.secrets secret cluster.secrets r.is_conflict
                ecosystem_certificate_name "failed to get secret for certificate"
                "failed to update secret for certificate" (with_secret_change c)
                (secret_change_of-with_secret_change c) w1 in
            ground (arith, p, there, saved, live)
      ]
