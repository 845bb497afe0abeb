-- ===== src/Configuration/Reading/Agreement.antt =====
-- The importer and its job read the same configuration.
use ces_importer.Base.{
  String, ◌≡◌, refl, ◌==◌, false, none, ◌++◌, Result, ok, err, arith, Option-cases, Bool-cases, inl,
  inr, subst, ◌∙◌,
}
use ces_importer.Configuration.Reading.{
  Environment, Coordinator, Job, globally_excluded_dogus, and_read, with_base, general_of,
  read_coordinator_config, read_job_config,
}

-- What the coordinator has of the job's configuration.
abbrev pub job_of : Coordinator → Job
job_of c = record {
  logging = c.logging;
  api = c.api;
  ssh = c.ssh;
  job_config = c.job_config;
  general = c.general;
}

and_read-ok :
    {T A : Type 0} (what : String) (r : Result T) (k : T → Result A) (a : A)
    → and_read what r k ≡ ok a
    → (t : T) × (r ≡ ok t) × (k t ≡ ok a)
unfolding and_read
and_read-ok what (err e) k a h = ground arith
and_read-ok what (ok t) k a h = (t, refl, h)

ok_and_read :
    {T A : Type 0} (what : String) (r : Result T) (k : T → Result A) (t : T)
    → r ≡ ok t
    → and_read what r k ≡ k t
unfolding and_read
ok_and_read what r k t p = ground (arith, p)

ok-injective : {A : Type 0} {a b : A} → ok a ≡ ok b → a ≡ b
ok-injective p = ground (arith, p)

module _ (env : Environment) where
  abbrev Based : Type 0
  Based =
      (env.new_validator ≡ none)
      × ((env.getenv "CONFIG_PATH" == "") ≡ false)
      × ((env.getenv "IMPORTER_NAMESPACE" == "") ≡ false)

  with_base-ok :
      {A : Type 0} (k : String → String → Result A) (a : A)
      → with_base env k ≡ ok a
      → Based × (k (env.getenv "CONFIG_PATH") (env.getenv "IMPORTER_NAMESPACE") ≡ ok a)
  unfolding with_base
  with_base-ok k a h = elim (Option-cases env.new_validator) [
    | inr (e, p) ↦ ground (arith, p, h)
    | inl p ↦ elim (Bool-cases (env.getenv "CONFIG_PATH" == "")) [
      | inl q ↦ ground (arith, p, q, h)
      | inr q ↦ elim (Bool-cases (env.getenv "IMPORTER_NAMESPACE" == "")) [
        | inl r ↦ ground (arith, p, q, r, h)
        | inr r ↦ ((p, q, r), ground (arith, p, q, r, h))
      ]
    ]
  ]

  based_ok :
      {A : Type 0} (k : String → String → Result A)
      → Based
      → with_base env k ≡ k (env.getenv "CONFIG_PATH") (env.getenv "IMPORTER_NAMESPACE")
  unfolding with_base
  based_ok k (p, q, r) = ground (arith, p, q, r)

  -- If the importer can read its configuration, an import job with the same files and the same environment can read its own, and it has the logging, the API, the SSH access, the
  -- job configuration, the excluded dogus and the namespace of the importer. The excluded dogus are those that are always excluded, followed by the configured ones, and the namespace is not
  -- empty.
  pub read_job_config-agrees :
      (c : Coordinator)
      → read_coordinator_config env ≡ ok c
      → (read_job_config env ≡ ok (job_of c))
        × (c.general.excluded_dogus
            ≡ globally_excluded_dogus ++ c.job_config.additional_excluded_dogus)
        × ((c.general.namespace == "") ≡ false)
  unfolding read_coordinator_config read_job_config
  read_job_config-agrees c h =
      let (based, h1) = with_base-ok _ c h in
      let (logging, p1, h2) = and_read-ok _ _ _ c h1 in
      let (api, p2, h3) = and_read-ok _ _ _ c h2 in
      let (migration, p3, h4) = and_read-ok _ _ _ c h3 in
      let (ssh, p4, h5) = and_read-ok _ _ _ c h4 in
      let (job_config, p5, h6) = and_read-ok _ _ _ c h5 in
      let (job_container, p6, h7) = and_read-ok _ _ _ c h6 in
      let (smtp, p7, h8) = and_read-ok _ _ _ c h7 in
      let read : read_job_config env
          ≡ ok (record {
            logging = logging;
            api = api;
            ssh = ssh;
            job_config = job_config;
            general = general_of env (env.getenv "IMPORTER_NAMESPACE") job_config;
          }) =
        based_ok _ based
        ∙ ok_and_read _ _ _ logging p1
        ∙ ok_and_read _ _ _ api p2
        ∙ ok_and_read _ _ _ ssh p4
        ∙ ok_and_read _ _ _ job_config p5 in
      subst
        (λ x.
          (read_job_config env ≡ ok (job_of x))
          × (x.general.excluded_dogus
              ≡ globally_excluded_dogus ++ x.job_config.additional_excluded_dogus)
          × ((x.general.namespace == "") ≡ false))
        (ok-injective h8) (read, refl, based.2)
