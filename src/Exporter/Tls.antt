-- ===== src/Exporter/Tls.antt =====
-- api/exporter/client.go and service.go: the HTTP client that the requests are made with. A root store is of a type `P`.
pub mod Verified
use ces_importer.Base.{
  String, ◌<>◌, ◌≡◌, ◌↔◌, refl, Bool, true, false, Option, none, some, List, [], ◌∷◌, Result, ok,
  err, if◌then◌else◌, arith, Result-cases, Bool-cases, inl, inr,
}
use ces_importer.Configuration.Types.{Api}
use ces_importer.Exporter.Client.{Client}

-- `tls.Config`; no roots are those of the system.
pub record TlsConfig (P : Type 0) : Type 0 where
  pub root_cas : Option P
  pub insecure_skip_verify : Bool

-- A transport is an `*http.Transport`, with its `TLSClientConfig`, or one that the caller made.
pub data Transport (P : Type 0) : Type 0 where
  transport : Option (TlsConfig P) → Transport P
  custom : Transport P

pub record HttpClient (P : Type 0) : Type 0 where
  pub transport_of : Option (Transport P)

-- The files and `crypto/x509`. `append_certs` tells whether a certificate was added.
pub record Certificates (P : Type 0) : Type 0 where
  pub read_file : String → Result String
  pub system_cert_pool : Result P
  pub new_cert_pool : P
  pub append_certs : P → String → Bool × P

abbrev pub custom_ca_path : String
custom_ca_path = "/etc/custom-certs/exporter/"

module _ {P : Type 0} where
  -- The TLS configuration of the transport that `getTransportConfig` gives.
  unfoldable pub get_transport_config : HttpClient P → Option (TlsConfig P)
  get_transport_config c = elim c.transport_of [
    | none ↦ none
    | some t ↦ elim t [ transport tls ↦ tls | custom ↦ none ]
  ]

  abbrev with_tls : TlsConfig P → HttpClient P
  with_tls tls = record { transport_of = some (transport (some tls)) }

  unfoldable pub with_insecure : HttpClient P → HttpClient P
  with_insecure c = elim (get_transport_config c) [
    | none ↦ with_tls (record { root_cas = none; insecure_skip_verify = true })
    | some tls ↦ with_tls (record tls { insecure_skip_verify = true })
  ]

  abbrev pub base_pool : Certificates P → P
  base_pool certs = elim certs.system_cert_pool [ ok pool ↦ pool | err _ ↦ certs.new_cert_pool ]

  unfoldable pub with_custom_cas : Certificates P → Api → HttpClient P → HttpClient P
  with_custom_cas certs cfg c =
      elim (certs.read_file (custom_ca_path <> cfg.tls_certificate_name)) [
        | err _ ↦ c
        | ok ca_cert ↦
            let (added, root_cas) = certs.append_certs (base_pool certs) ca_cert in
            if added
            then with_tls (record { root_cas = some root_cas; insecure_skip_verify = false })
            else c
      ]

  -- The loop over the options.
  unfoldable pub apply : List (HttpClient P → HttpClient P) → HttpClient P → HttpClient P
  apply [] c = c
  apply (option ∷ options) c = apply options (option c)

  unfoldable pub new_client :
      String → String → List (HttpClient P → HttpClient P) → Client × HttpClient P
  new_client host_name api_key options = (
    record { base_url = "https://" <> host_name <> "/ces-exporter"; api_key = api_key },
    apply options (record { transport_of = none }),
  )

  -- The client that `NewServiceFromConfig` makes.
  unfoldable pub client_from_config : Certificates P → Api → Client × HttpClient P
  client_from_config certs cfg =
      new_client cfg.exporter_host cfg.exporter_api_key
        (if cfg.skip_tls_verify then with_insecure ∷ [] else with_custom_cas certs cfg ∷ [])

  -- Whether requests of the client go out without a look at the server's certificate.
  abbrev pub skips_verification : HttpClient P → Bool
  skips_verification c = elim (get_transport_config c) [
    | none ↦ false
    | some tls ↦ tls.insecure_skip_verify
  ]

  abbrev pub roots : HttpClient P → Option P
  roots c = elim (get_transport_config c) [ none ↦ none | some tls ↦ tls.root_cas ]
