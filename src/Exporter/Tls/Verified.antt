-- ===== src/Exporter/Tls/Verified.antt =====
-- What the exporter's certificate is verified with.
use ces_importer.Base.{
  String, ◌<>◌, ◌≡◌, ◌↔◌, refl, true, false, none, some, ok, arith, Result-cases, Bool-cases, inl,
  inr,
}
use ces_importer.Configuration.Types.{Api}
use ces_importer.Exporter.Tls.{
  Certificates, HttpClient, custom_ca_path, base_pool, skips_verification, roots,
  client_from_config, new_client, apply, with_insecure, with_custom_cas, get_transport_config,
}

module _ {P : Type 0} (certs : Certificates P) (cfg : Api) where
  -- The custom certificates could be read and added, and this is the store with them.
  abbrev pub Added : P → Type 0
  Added pool =
      (ca : String) × (certs.read_file (custom_ca_path <> cfg.tls_certificate_name) ≡ ok ca)
      × (certs.append_certs (base_pool certs) ca ≡ (true, pool))

  with_custom_cas-roots :
      (c : HttpClient P) (pool : P)
      → roots c ≡ none
      → (roots (with_custom_cas certs cfg c) ≡ some pool) ↔ Added pool
  unfolding with_custom_cas get_transport_config
  with_custom_cas-roots c pool h =
      elim (Result-cases (certs.read_file (custom_ca_path <> cfg.tls_certificate_name))) [
        | inr (e, p) ↦ (λ q. ground (arith, p, q, h), λ (ca, q, _). ground (arith, p, q))
        | inl (ca0, p) ↦
            let added = certs.append_certs (base_pool certs) ca0 in
            elim (Bool-cases added.0) [
              | inr f ↦ (λ q. ground (arith, p, q, h, f), λ (ca, q, r). ground (arith, p, q, r, f))
              | inl t ↦
                  (λ q. (ca0, p, ground (arith, p, q, t)), λ (ca, q, r). ground (arith, p, q, r, t))
            ]
      ]

  with_custom_cas-skips :
      (c : HttpClient P)
      → skips_verification c ≡ false
      → skips_verification (with_custom_cas certs cfg c) ≡ false
  unfolding with_custom_cas get_transport_config
  with_custom_cas-skips c h = ground (arith, h)

  -- The client of the exporter's API leaves the server's certificate unverified exactly if the configuration says so. It has a root store of its
  -- own exactly if it verifies and the file of the custom certificates can be read and has one that can be added, and then it is the
  -- system's store (a new one, if there is none) with these added.
  pub client_from_config-verifies :
      (skips_verification (client_from_config certs cfg).1 ≡ cfg.skip_tls_verify)
      × ((pool : P)
          → (roots (client_from_config certs cfg).1 ≡ some pool)
            ↔ ((cfg.skip_tls_verify ≡ false) × Added pool))
  unfolding client_from_config new_client apply with_insecure get_transport_config
  client_from_config-verifies = elim (Bool-cases cfg.skip_tls_verify) [
    | inl p ↦
        (ground (arith, p), λ pool. (λ q. ground (arith, p, q), λ (q, _). ground (arith, p, q)))
    | inr p ↦
        let empty : HttpClient P = record { transport_of = none } in
        let skips = with_custom_cas-skips empty refl in
        (
          ground (arith, p, skips),
          λ pool.
              let (there, back) = with_custom_cas-roots empty pool refl in
              (λ q. (p, there (ground (arith, p, q))), λ (_, a). ground (arith, p, back a)),
        )
  ]
