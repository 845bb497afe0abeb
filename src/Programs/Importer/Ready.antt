-- ===== src/Programs/Importer/Ready.antt =====
-- What has been checked when the migrations start.
use ces_importer.Base.{
  subst, ◌≡◌, ◌≢◌, refl, true, Option, none, some, Error, Result, ok, err, arith, Result-cases,
  Option-cases, inl, inr,
}
use ces_importer.Configuration.Reading.{Coordinator}
use ces_importer.Configuration.Types.{MaintenanceModeMessage}
use ces_importer.Programs.Importer.{
  Steps, Outcome, running, step, make_migrator, create_migrator, check_first, start_with, start_up,
  outcome_of,
}

-- A step that does not end in the error has none, and goes on.
step-runs :
    {W M : Type 0} (failed : Error → Outcome M) (r : Option Error × W) (k : W → Outcome M × W)
    (c : Coordinator) (m : M)
    → ((e : Error) → failed e ≢ running c m)
    → (step failed r k).0 ≡ running c m
    → (r.0 ≡ none) × ((k r.1).0 ≡ running c m)
unfolding step
step-runs failed (some e, w) k c m never h = elim (never e h) [ ]
step-runs failed (none, w) k c m never h = (refl, h)

module _ {W M : Type 0} (s : Steps W M) where
  -- The configuration was read, and then the preflight check passed, if it is configured, and after it the secrets were found valid; there is a message of the maintenance mode.
  pub record Ready (c : Coordinator) : Type 0 where
    pub before_config : W
    pub is_read : (s.read_coordinator_config before_config).0 ≡ ok c
    pub before_check : W
    pub checked :
        c.migration.execute_preflight_check ≡ true → (s.run_preflight_check c before_check).0 ≡ none
    pub before_secrets : W
    pub valid : (s.validate_secrets c before_secrets).0 ≡ none
    pub message : MaintenanceModeMessage
    pub has_message : c.migration.maintenance_mode_message ≡ some message

  record Created (c : Coordinator) : Type 0 where
    w_secrets : W
    secrets_valid : (s.validate_secrets c w_secrets).0 ≡ none
    message_set : MaintenanceModeMessage
    is_message : c.migration.maintenance_mode_message ≡ some message_set

  step-ok :
      {A : Type 0} (failed : Error → Result A) (r : Option Error × W) (k : W → Result A × W) (a : A)
      → ((e : Error) → failed e ≢ ok a)
      → (step failed r k).0 ≡ ok a
      → (r.0 ≡ none) × ((k r.1).0 ≡ ok a)
  unfolding step
  step-ok failed (some e, w) k a never h = elim (never e h) [ ]
  step-ok failed (none, w) k a never h = (refl, h)

  make_migrator-valid :
      (c : Coordinator) (w : W) (m : M)
      → (make_migrator s c w).0 ≡ ok m
      → (v : W) × ((s.validate_secrets c v).0 ≡ none)
  unfolding make_migrator
  make_migrator-valid c w m h =
      let (_, h1) = step-ok _ (s.create_job_service c w) _ m (λ e q. ground (arith, q)) h in
      let (valid, _) =
        step-ok _ (s.validate_secrets c (s.create_job_service c w).1) _ m (λ e q. ground (arith, q))
          h1 in
      ((s.create_job_service c w).1, valid)

  outcome_of-ok :
      (c' c : Coordinator) (m : M) (r : Result M × W)
      → (outcome_of c' r).0 ≡ running c m
      → (c' ≡ c) × (m' : M) × (r.0 ≡ ok m')
  outcome_of-ok c' c m (ok m', w) h = (ground (arith, h), m', refl)
  outcome_of-ok c' c m (err e, w) h = ground (arith, h)

  create_migrator-Created :
      (c' c : Coordinator) (m : M) (w : W)
      → (create_migrator s c' w).0 ≡ running c m
      → (c' ≡ c) × Created c'
  unfolding create_migrator
  create_migrator-Created c' c m w h = elim (Option-cases c'.migration.maintenance_mode_message) [
    | inl p ↦ ground (arith, p, h)
    | inr (message, p) ↦
        let (same, m', made) =
          outcome_of-ok c' c m (make_migrator s c' (s.set_message message w))
            (ground (arith, p, h)) in
        let (v, valid) = make_migrator-valid c' (s.set_message message w) m' made in
        (
          same,
          record { w_secrets = v; secrets_valid = valid; message_set = message; is_message = p },
        )
  ]

  start_with-Ready :
      (c' c : Coordinator) (m : M) (w w0 : W)
      → (s.read_coordinator_config w0).0 ≡ ok c'
      → (start_with s c' w).0 ≡ running c m
      → (c' ≡ c) × Ready c'
  unfolding start_with check_first
  start_with-Ready c' c m w w0 is_read h =
      let (_, h1) = step-runs _ (s.init_log c' w) _ c m (λ e q. ground (arith, q)) h in
      let w1 = (s.init_log c' w).1 in
      let (_, h2) = step-runs _ (s.create_client_set c' w1) _ c m (λ e q. ground (arith, q)) h1 in
      let w2 = (s.create_client_set c' w1).1 in
      let (_, h3) =
        step-runs _ (s.create_system_info_provider w2) _ c m (λ e q. ground (arith, q)) h2 in
      let w3 = (s.create_system_info_provider w2).1 in
      let (checked, h4) =
        step-runs _ (check_first s c' w3) (create_migrator s c') c m (λ e q. ground (arith, q))
          h3 in
      let (same, created) = create_migrator-Created c' c m _ h4 in
      (
        same,
        record {
          before_config = w0;
          is_read = is_read;
          before_check = w3;
          checked = λ q. ground (arith, q, checked);
          before_secrets = created.w_secrets;
          valid = created.secrets_valid;
          message = created.message_set;
          has_message = created.is_message;
        },
      )

  -- If the start of the importer gets as far as the migrations, then the configuration that it runs with was read, the preflight check passed if the configuration asks for it, the secrets were found
  -- valid, and there is a message of the maintenance mode. So without such a message the importer does not start, not even if no final migration is configured.
  pub start_up-Ready : (w : W) (c : Coordinator) (m : M) → (start_up s w).0 ≡ running c m → Ready c
  unfolding start_up
  start_up-Ready w c m h =
      let (_, h1) = step-runs _ (s.get_cluster_config w) _ c m (λ e q. ground (arith, q)) h in
      let w1 = (s.get_cluster_config w).1 in
      elim (Result-cases (s.read_coordinator_config w1).0) [
        | inr (e, p) ↦ ground (arith, p, h1)
        | inl (c', p) ↦
            let (same, ready) =
              start_with-Ready c' c m (s.read_coordinator_config w1).1 w1 p
                (ground (arith, p, h1)) in
            subst Ready same ready
      ]
