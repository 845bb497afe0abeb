-- ===== src/Tests/Logging.antt =====
-- The importer's logger with a file that can be opened.
use ces_importer.Base.{
  ℕ, String, ◌==◌, ◌≡◌, ◌≢◌, ◌↔◌, none, [], ◌∷◌, suc, plain, ok, err, if◌then◌else◌,
}
use ces_importer.Logging.{System, Global, init_log, path_app_log_file}
use ces_importer.Logging.Written.{configured, init_log-configured}

abbrev sys : System ℕ String String
sys = record {
  stdout = "stdout";
  open_file = λ file w. (ok file, suc w);
  parse_level = λ level.
      if level == "DEBUG" then ok "DEBUG" else err (plain "slog: level string: unknown name");
  info = "INFO";
}

abbrev before : Global ℕ String String
before = record {
  world = 0;
  writer = "stdout" ∷ [];
  handler = record { level = "INFO"; attributes = []; writer = "stdout" ∷ [] };
}

init_log-configured_example :
    (((init_log sys "DEBUG" before).0 ≡ none)
      ↔ (l : String) × (f : String) × (sys.parse_level "DEBUG" ≡ ok l)
        × ((sys.open_file path_app_log_file 0).0 ≡ ok f)
        × ((init_log sys "DEBUG" before).1 ≡ record {
          world = (sys.open_file path_app_log_file 0).1;
          writer = "stdout" ∷ f ∷ [];
          handler = configured sys l f;
        }))
    × ((init_log sys "DEBUG" before).0 ≢ none
        → (init_log sys "DEBUG" before).1.writer ≡ before.writer)
init_log-configured_example = init_log-configured sys "DEBUG" before
