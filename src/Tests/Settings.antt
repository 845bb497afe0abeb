-- ===== src/Tests/Settings.antt =====
-- A configuration and its secrets.
use ces_importer.Base.{
  join, zero, suc, ◌||◌, Bool, wrap, join_one, join_two, Option-cases, Bool-cases, inl, inr, ℕ,
  String, ◌<>◌, ◌==◌, ◌&&◌, ◌≡◌, ◌↔◌, refl, arith, true, false, Option, none, some, [], ◌∷◌, ◌++◌,
  Error, plain, Result, ok, err, str_dec, if◌then◌else◌,
}
use ces_importer.Base.Dict
use ces_importer.Base.Dict.{Dict}
use ces_importer.Configuration.Types.{ResourceList, Api, Ssh, Smtp, JobConfig}
use ces_importer.Configuration.Secrets.{
  SecretGetter, validate_secrets, check_secrets, check_keys, secret_map_of, append_key,
}
use ces_importer.Configuration.Secrets.Present.{Answered, Retried, Wanted, validate_secrets-Wanted}
use ces_importer.Configuration.Validate.{
  is_none, is_alpha_num, k8s_secret_name, k8s_secret_data_key, starts_with_alpha_num,
  ends_with_alpha_num, alpha_numeric_with, match_string, match_from, match_here, many_then,
}
use ces_importer.Configuration.Validate.Unrestricted.{
  first_is, last_is, k8s_secret_name-unrestricted,
}
use ces_importer.Configuration.Reading.{
  Environment, Coordinator, Schema, globally_excluded_dogus, read_coordinator_config,
  read_job_config, with_base, and_read, read_config_yaml, general_of,
}
use ces_importer.Configuration.Reading.Agreement.{job_of, read_job_config-agrees}
use ces_importer.Migration.Fqdn.Cluster.{Tries, last, again}

abbrev validate_var : String → String → Option Error
validate_var s tag = none

-- A blank and a slash go through.
name_accepted : k8s_secret_name validate_var "a /b" ≡ true
unfolding k8s_secret_name starts_with_alpha_num ends_with_alpha_num alpha_numeric_with match_string
    match_from match_here many_then
name_accepted = refl

k8s_secret_name-unrestricted_example :
    (k8s_secret_name validate_var "a /b" ≡ (
      is_none (validate_var "a /b" "lowercase,max=253")
      && first_is is_alpha_num "a /b"
      && last_is is_alpha_num "a /b"))
    × (k8s_secret_data_key validate_var "a /b" ≡ (
        is_none (validate_var "a /b" "max=253")
        && first_is is_alpha_num "a /b"
        && last_is is_alpha_num "a /b"))
k8s_secret_name-unrestricted_example = k8s_secret_name-unrestricted validate_var "a /b"

abbrev api : Api
api = record {
  exporter_host = "old.example";
  exporter_api_key = "secret-key";
  skip_tls_verify = false;
  secret_name = "importer";
  secret_data_key = "apiKey";
  tls_certificate_name = "ca.crt";
  tls_certificate_config_map_name = "ca";
}

abbrev pub ssh : Ssh
ssh = record {
  user = "root";
  private_ssh_key_path = "/etc/ssh/key";
  secret_name = "importer";
  secret_data_key = "sshKey";
}

abbrev pub smtp : Smtp
smtp = record {
  enabled = false;
  server = "";
  port = 0;
  username = "";
  password = "";
  from = "";
  to = [];
  secret_name = "";
  secret_data_key = "";
  tls_mode = "";
  skip_tls_verify = false;
  tls_certificate_name = "";
}

abbrev secret : String → Option (Dict String)
secret n = if n == "importer" then some (("apiKey", "a") ∷ ("sshKey", "s") ∷ []) else none

abbrev found : Option (Dict String) → Result (Dict String)
found none = err (plain "not found")
found (some d) = ok d

-- Through all wrappings and joins of one error.
abbrev is_not_found : Error → Bool
is_not_found (wrap m e) = is_not_found e
is_not_found (join_one e) = is_not_found e
is_not_found (join_two e e') = is_not_found e || is_not_found e'
is_not_found (plain s) = s == "not found"
is_not_found _ = false

abbrev once : (Error → Bool) → (ℕ → Option Error × ℕ) → Option Error × ℕ → Option Error × ℕ
once retriable f (none, w) = (none, w)
once retriable f (some e, w) = if retriable e then f w else (some e, w)

abbrev first_fails : ℕ → Result (Dict String) → Result (Dict String)
first_fails zero r = err (plain "timeout")
first_fails (suc w) r = r

-- The API does not answer at first, and the check is retried once.
abbrev getter : SecretGetter ℕ
getter = record {
  on_error = λ retriable f w. once retriable f (f w);
  is_not_found = is_not_found;
  get = λ n w. (first_fails w (found (secret n)), suc w);
}

found-some : (o : Option (Dict String)) (d : Dict String) → found o ≡ ok d → o ≡ some d
found-some none d h = ground (arith, h)
found-some (some x) d h = ground (arith, h)

getter_sound :
    (n : String) (w : ℕ) (d : Dict String) → (getter.get n w).0 ≡ ok d → secret n ≡ some d
getter_sound n zero d h = ground (arith, h)
getter_sound n (suc w) d h = found-some (secret n) d h

once-Tries :
    (retriable : Error → Bool) (f : ℕ → Option Error × ℕ) (w : ℕ)
    → Tries retriable f w (once retriable f (f w))
once-Tries retriable f w = elim (Option-cases (f w).0) [
  | inl p ↦ last (ground (arith, p))
  | inr (e, p) ↦ elim (Bool-cases (retriable e)) [
    | inl q ↦ again e p q (last (ground (arith, p, q)))
    | inr q ↦ last (ground (arith, p, q))
  ]
]

abbrev attempt : ℕ → Option Error × ℕ
attempt = check_secrets getter (secret_map_of api ssh smtp) none

validate_secrets-Wanted_example :
    (w : ℕ) × Retried getter secret attempt 0 w
    × (validate_secrets getter api ssh smtp 0 ≡ attempt w)
    × (((validate_secrets getter api ssh smtp 0).0 ≡ none)
        ↔ (Answered getter secret (secret_map_of api ssh smtp) w × Wanted secret api ssh smtp))
validate_secrets-Wanted_example =
    validate_secrets-Wanted getter secret getter_sound once-Tries api ssh smtp 0

secrets_found : (validate_secrets getter api ssh smtp 0).0 ≡ none
unfolding validate_secrets check_secrets check_keys secret_map_of append_key str_dec Dict.insert
    Dict.lookup join
secrets_found = refl

abbrev schema : {T : Type 0} → T → Schema T
schema t = record { unmarshal = λ content. ok t; validate = λ x. [] }

abbrev resources : ResourceList
resources = record { cpu = "1"; memory = "1Gi" }

abbrev job_config : JobConfig
job_config = record {
  additional_excluded_dogus = "official/jenkins" ∷ [];
  checksum_dogus = [];
  additional_excluded_global_configuration_keys = [];
  excluded_dogu_configurations = [];
  dogu_volume_base_path = "/volumes";
  exclude = [];
  verbose = false;
}

abbrev env : Environment
env = record {
  new_validator = none;
  getenv = λ key. if key == "CONFIG_PATH" then "/config" else "ecosystem";
  path_join = λ base file. base <> "/" <> file;
  read_file = λ path. ok path;
  expand_env = λ t. t;
  error_text = λ e. "";
  logging = schema (record { level = "INFO" });
  api = schema api;
  migration = schema (record {
    regular_cron = "0 4 * * *";
    final_timestamp = "";
    change_fqdn = false;
    maintenance_mode_message = none;
    execute_preflight_check = true;
  });
  ssh = schema ssh;
  job_config = schema job_config;
  job_container = schema (record {
    job_config_map = "job";
    job_service_account = "job";
    image_registry = "registry.example";
    image_repository = "importer";
    image_tag = "1";
    image_pull_policy = "Always";
    image_pull_secrets = [];
    limits = resources;
    requests = resources;
    host_network = false;
  });
  smtp = schema smtp;
}

abbrev pub coordinator : Coordinator
coordinator = record {
  logging = record { level = "INFO" };
  api = api;
  migration = record {
    regular_cron = "0 4 * * *";
    final_timestamp = "";
    change_fqdn = false;
    maintenance_mode_message = none;
    execute_preflight_check = true;
  };
  ssh = ssh;
  job_config = job_config;
  job_container = record {
    job_config_map = "job";
    job_service_account = "job";
    image_registry = "registry.example";
    image_repository = "importer";
    image_tag = "1";
    image_pull_policy = "Always";
    image_pull_secrets = [];
    limits = resources;
    requests = resources;
    host_network = false;
  };
  smtp = smtp;
  general = general_of env "ecosystem" job_config;
}

coordinator_read : read_coordinator_config env ≡ ok coordinator
unfolding read_coordinator_config with_base and_read read_config_yaml str_dec
coordinator_read = refl

read_job_config-agrees_example :
    (read_job_config env ≡ ok (job_of coordinator))
    × (coordinator.general.excluded_dogus
        ≡ globally_excluded_dogus ++ coordinator.job_config.additional_excluded_dogus)
    × ((coordinator.general.namespace == "") ≡ false)
read_job_config-agrees_example = read_job_config-agrees env coordinator coordinator_read
