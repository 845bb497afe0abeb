-- ===== src/Programs/Job.antt =====
-- cmd/import-job/main.go. The construction of the executer's parts is a parameter.
pub mod Completed
use ces_importer.Base.{ℕ, Option, none, some, Error, Result, ok, err}
use ces_importer.Configuration.Reading.{Job}
use ces_importer.Migration.Context.{Context}

pub record Steps (W : Type 0) : Type 0 where
  pub read_job_config : W → Result Job × W
  pub init_log : Job → W → Option Error × W
  pub get_cluster_config : W → Option Error × W
  pub create_client_set : Job → W → Option Error × W
  -- `Start` of the import executer
  pub start : Job → Context → W → Option Error × W
  -- `SetTriggerFQDNChangeFromEnv` of the background context
  pub context : Context

-- The exit code of a failed step is 1.
unfoldable pub then_ : {W : Type 0} → Option Error × W → (W → ℕ × W) → ℕ × W
then_ (some e, w) k = (1, w)
then_ (none, w) k = k w

unfoldable pub run : {W : Type 0} → Steps W → W → ℕ × W
run s w =
    let (answer, w1) = s.read_job_config w in
    elim answer [
      | err e ↦ (1, w1)
      | ok job_config ↦ then_ (s.init_log job_config w1) (λ w2.
          then_ (s.get_cluster_config w2) (λ w3.
            then_ (s.create_client_set job_config w3)
              (λ w4. then_ (s.start job_config s.context w4) (λ w5. (0, w5)))))
    ]
