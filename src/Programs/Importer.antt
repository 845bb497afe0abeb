-- ===== src/Programs/Importer.antt =====
-- cmd/ces-importer/main.go up to the start of the migrations. The construction of clients is a parameter; a migrator is of a type `M`.
pub mod Ready
use ces_importer.Base.{
  String, Bool, true, false, Option, none, some, Error, plain, wrap, Result, ok, err, if◌then◌else◌,
}
use ces_importer.Configuration.Reading.{Coordinator}
use ces_importer.Configuration.Types.{MaintenanceModeMessage}

-- The steps of `main` and of `createMigrator`, in their order. What takes the configuration gets it as an argument.
pub record Steps (W M : Type 0) : Type 0 where
  pub get_cluster_config : W → Option Error × W
  pub read_coordinator_config : W → Result Coordinator × W
  pub init_log : Coordinator → W → Option Error × W
  pub create_client_set : Coordinator → W → Option Error × W
  pub create_system_info_provider : W → Option Error × W
  pub run_preflight_check : Coordinator → W → Option Error × W
  pub set_message : MaintenanceModeMessage → W → W
  pub create_job_service : Coordinator → W → Option Error × W
  pub validate_secrets : Coordinator → W → Option Error × W
  pub create_mail_sender : Coordinator → W → Option Error × W
  pub new_migrator : Coordinator → M

-- How the start ends: with the migrator for the migration loops, or with a panic, which has an error or is that of the
-- runtime for a nil pointer.
pub data Outcome (M : Type 0) : Type 0 where
  running : Coordinator → M → Outcome M
  panics : Error → Outcome M
  nil_pointer : Outcome M

-- A step, and what follows if it has no error.
unfoldable pub step : {W A : Type 0} → (Error → A) → Option Error × W → (W → A × W) → A × W
step failed (some e, w) k = (failed e, w)
step failed (none, w) k = k w

abbrev outcome_of : {W M : Type 0} → Coordinator → Result M × W → Outcome M × W
outcome_of cfg (ok m, w) = (running cfg m, w)
outcome_of cfg (err e, w) = (panics (wrap "failed to create migrator" e), w)

module _ {W M : Type 0} (s : Steps W M) where
  -- After the message was set.
  unfoldable pub make_migrator : Coordinator → W → Result M × W
  make_migrator cfg w =
      step (λ e. err (plain "failed to create a new job service")) (s.create_job_service cfg w)
        (λ w1.
          step (λ e. err (wrap "found invalid secrets in configuration" e))
            (s.validate_secrets cfg w1)
            (λ w2.
              step (λ e. err (wrap "error creating mailSender" e)) (s.create_mail_sender cfg w2)
                (λ w3. (ok (s.new_migrator cfg), w3))))

  -- `createMigrator` reads the message's title and its text through a pointer.
  unfoldable pub create_migrator : Coordinator → W → Outcome M × W
  create_migrator cfg w = elim cfg.migration.maintenance_mode_message [
    | none ↦ (nil_pointer, w)
    | some message ↦ outcome_of cfg (make_migrator cfg (s.set_message message w))
  ]

  -- The preflight check, if it is configured.
  unfoldable pub check_first : Coordinator → W → Option Error × W
  check_first cfg w =
      if cfg.migration.execute_preflight_check then s.run_preflight_check cfg w else (none, w)

  -- From the configuration on.
  unfoldable pub start_with : Coordinator → W → Outcome M × W
  start_with cfg w =
      step (λ e. panics (wrap "failed to initialize logger" e)) (s.init_log cfg w)
        (λ w1.
          step (λ e. panics (plain "failed to create clients for kubernetes"))
            (s.create_client_set cfg w1)
            (λ w2.
              step (λ e. panics (wrap "failed to create systemInfo provider" e))
                (s.create_system_info_provider w2)
                (λ w3.
                  step (λ e. panics (wrap "preflight check failed" e)) (check_first cfg w3)
                    (create_migrator cfg))))

  unfoldable pub start_up : W → Outcome M × W
  start_up w =
      step (λ e. panics (wrap "failed to read kube config" e)) (s.get_cluster_config w)
        (λ w1.
          let (answer, w2) = s.read_coordinator_config w1 in
          elim answer [
            | err e ↦ (panics (wrap "failed to read config" e), w2)
            | ok cfg ↦ start_with cfg w2
          ])
