-- ===== src/Migration/Fqdn/Request.antt =====
-- The change that the exporter's global configuration asks for.
use ces_importer.Base.{
  of_eq, Bool-cases, str_dec, inl, inr, String, ◌==◌, ◌≡◌, ◌≢◌, ◌∙◌, refl, [], ◌∷◌, ok, arith, ◌↔◌,
  if◌then◌else◌,
}
use ces_importer.Migration.Types.{KeyValue, GlobalConfig}
use ces_importer.Migration.Fqdn.{
  Change, is_valid, trim_slash, take_over, take_over_all, empty_change, create_change_request,
}

-- The last value at a key, with or without a slash before it; `v` if there is none.
abbrev pub last_value : String → String → GlobalConfig → String
last_value key v [] = v
last_value key v (kv ∷ kvs) = last_value key (if trim_slash kv.key == key then kv.value else v) kvs

-- The change with the last value at each of the five keys.
abbrev pub requested : GlobalConfig → Change → Change
requested cfg c = record {
  config = record {
    fqdn = last_value "fqdn" c.config.fqdn cfg;
    cert_type = last_value "certificate/type" c.config.cert_type cfg;
    alternative_fqdns = last_value "alternativeFQDNs" c.config.alternative_fqdns cfg;
  };
  secret = record {
    certificate = last_value "certificate/server.crt" c.secret.certificate cfg;
    certificate_key = last_value "certificate/server.key" c.secret.certificate_key cfg;
  };
}

requested-take_over :
    (kv : KeyValue) (kvs : GlobalConfig) (c : Change)
    → requested kvs (take_over kv c) ≡ requested (kv ∷ kvs) c
unfolding take_over str_dec
requested-take_over kv kvs c = elim (Bool-cases (trim_slash kv.key == "fqdn")) [
  | inl p ↦ rw (of_eq p, take_over) refl
  | inr p1 ↦ elim (Bool-cases (trim_slash kv.key == "alternativeFQDNs")) [
    | inl p ↦ rw (of_eq p, take_over) refl
    | inr p2 ↦ elim (Bool-cases (trim_slash kv.key == "certificate/type")) [
      | inl p ↦ rw (of_eq p, take_over) refl
      | inr p3 ↦ elim (Bool-cases (trim_slash kv.key == "certificate/server.crt")) [
        | inl p ↦ rw (of_eq p, take_over) refl
        | inr p4 ↦ elim (Bool-cases (trim_slash kv.key == "certificate/server.key")) [
          | inl p ↦ rw (of_eq p, take_over) refl
          | inr p5 ↦ rw (p1, p2, p3, p4, p5, take_over) refl
        ]
      ]
    ]
  ]
]

take_over_all-requested : (cfg : GlobalConfig) (c : Change) → take_over_all cfg c ≡ requested cfg c
unfolding take_over_all
take_over_all-requested [] c = refl
take_over_all-requested (kv ∷ kvs) c =
    take_over_all-requested kvs (take_over kv c) ∙ requested-take_over kv kvs c

-- `createChangeRequest` takes, for each of its five keys, the last value of the configuration, whether or not the
-- key has a leading slash, and it succeeds exactly if none of these texts is empty but the alternative fqdns.
pub create_change_request-requested :
    (cfg : GlobalConfig) (c : Change)
    → (create_change_request cfg ≡ ok c) ↔ (
        (c ≡ requested cfg empty_change)
        × (c.config.fqdn ≢ "")
        × (c.config.cert_type ≢ "")
        × (c.secret.certificate ≢ "")
        × (c.secret.certificate_key ≢ ""))
unfolding create_change_request is_valid
create_change_request-requested cfg c = ground (arith, take_over_all-requested cfg empty_change)
