-- ===== src/Migration/Fqdn/Managers/Written.antt =====
-- What an update of an object and an update of the fqdn have written.
use ces_importer.Base.{
  subst, String, ◌≡◌, refl, ◌∙◌, Bool, Option, none, some, Error, ok, arith, Result-cases, inl, inr,
  str_dec,
}
use ces_importer.Base.Dict.{Dict}
use ces_importer.Migration.Fqdn.{ConfigChange}
use ces_importer.Migration.Fqdn.Cluster.{Store, Repositories, IsStore, IsCluster, Tries-keeps}
use ces_importer.Migration.Fqdn.Managers.{
  get_and_update, retriable, update_fqdn, create_fqdn_backup, with_fqdn,
}
use ces_importer.Migration.Fqdn.Managers.Views.{live_fqdn}

module _ {W C : Type 0} (r : Repositories W C) (global : W → String → Option String)
    (config_map secret : W → String → Option (Dict String))
    (cluster : IsCluster r global config_map secret) where
  -- An object that was read, changed and written back.
  pub get_and_update_lem :
      (store : Store W) (view : W → String → Option (Dict String))
      → IsStore store view
      → (p : Error → Bool) (name a b : String) (change : Dict String → Dict String) (w : W)
      → (r.on_error p (get_and_update store name a b change) w).0 ≡ none
      → (m : Dict String) × (view (r.on_error p (get_and_update store name a b change) w).1 name
          ≡ some (change m))
  unfolding get_and_update
  get_and_update_lem store view is_store p name a b change w h =
      let f = get_and_update store name a b change in
      let (_, w1, _, ended) =
        Tries-keeps p f (λ _. tt) w (r.on_error p f w) (λ _. refl) (cluster.tries p f w) in
      elim (Result-cases (store.get name w1).0) [
        | inr (e, q) ↦ ground (arith, ended, q)
        | inl (m, q) ↦ (
          m,
          ground (arith, ended, q, is_store.update_sets name (change m) (store.get name w1).1),
        )
      ]

  pub create_fqdn_backup_lem :
      (w : W) (c : C) (b : ConfigChange)
      → (r.get_global w).0 ≡ ok c
      → create_fqdn_backup r c ≡ ok b
      → live_fqdn global w ≡ b
  unfolding create_fqdn_backup
  create_fqdn_backup_lem w c b got h =
      let f1 = cluster.get_global_reads w c "fqdn" got in
      let f2 = cluster.get_global_reads w c "certificate/type" got in
      let f3 = cluster.get_global_reads w c "alternativeFQDNs" got in ground (arith, f1, f2, f3)

  set_fqdn_lem :
      (c c' : C) (x : ConfigChange)
      → with_fqdn r x c ≡ ok c'
      → (r.get_value c' "fqdn" ≡ some x.fqdn)
        × (r.get_value c' "alternativeFQDNs" ≡ some x.alternative_fqdns)
        × (r.get_value c' "certificate/type" ≡ some x.cert_type)
  unfolding with_fqdn str_dec
  set_fqdn_lem c c' x h = elim (Result-cases (r.set_value "fqdn" x.fqdn c)) [
    | inr (e, p) ↦ ground (arith, p)
    | inl (c1, p) ↦ elim (Result-cases (r.set_value "alternativeFQDNs" x.alternative_fqdns c1)) [
      | inr (e, q) ↦ ground (arith, p, q)
      | inl (c2, q) ↦ elim (Result-cases (r.set_value "certificate/type" x.cert_type c2)) [
        | inr (e, t) ↦ ground (arith, p, q, t)
        | inl (c3, t) ↦
            let s1 = cluster.set_value_reads "fqdn" x.fqdn c c1 in
            let s2 = cluster.set_value_reads "alternativeFQDNs" x.alternative_fqdns c1 c2 in
            let s3 = cluster.set_value_reads "certificate/type" x.cert_type c2 c3 in
            let same : c3 ≡ c' = ground (arith, h, p, q, t) in
            subst
              (λ y.
                (r.get_value y "fqdn" ≡ some x.fqdn)
                × (r.get_value y "alternativeFQDNs" ≡ some x.alternative_fqdns)
                × (r.get_value y "certificate/type" ≡ some x.cert_type))
              same
              (
                s3 "fqdn" t ∙ s2 "fqdn" q ∙ s1 "fqdn" p,
                s3 "alternativeFQDNs" t ∙ s2 "alternativeFQDNs" q,
                s3 "certificate/type" t,
              )
      ]
    ]
  ]

  -- An update that succeeds makes its change live.
  pub update_fqdn_lem :
      (x : ConfigChange) (w : W)
      → (update_fqdn r x w).0 ≡ none
      → live_fqdn global (update_fqdn r x w).1 ≡ x
  unfolding update_fqdn
  update_fqdn_lem x w h = elim (Result-cases (r.get_global w).0) [
    | inr (e, p) ↦ ground (arith, p)
    | inl (c, p) ↦ elim (Result-cases (with_fqdn r x c)) [
      | inr (e, q) ↦ ground (arith, p, q)
      | inl (c1, q) ↦
          let w1 = (r.get_global w).1 in
          let save = r.save_or_merge c1 in
          let (_, w2, _, ended) =
            Tries-keeps (retriable r) save (λ _. tt) w1 _ (λ _. refl)
              (cluster.tries (retriable r) save w1) in
          let (k1, k2, k3) = set_fqdn_lem c c1 x q in
          let s1 = cluster.save_sets c1 w2 "fqdn" x.fqdn in
          let s2 = cluster.save_sets c1 w2 "alternativeFQDNs" x.alternative_fqdns in
          let s3 = cluster.save_sets c1 w2 "certificate/type" x.cert_type in
          ground (arith, p, q, ended, k1, k2, k3, s1, s2, s3)
    ]
  ]
