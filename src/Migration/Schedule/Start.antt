-- ===== src/Migration/Schedule/Start.antt =====
-- Which migrations run, and how they leave the flag.
use ces_importer.Base.{
  ℕ, String, ◌≤◌, ◌≡◌, refl, ◌↔◌, ◌≢◌, Bool, true, false, ◌&&◌, ◌||◌, not, Option, none, Error,
  Result, ok, arith, if◌then◌else◌,
}
use ces_importer.Migration.Context.{
  Context, is_final_migration, set_final_migration, set_trigger_fqdn_change, trigger_fqdn_change,
}
use ces_importer.Migration.Timestamp.{
  FinalTimestamp, is_zero, expired, is_blank, parse_final_timestamp,
}
use ces_importer.Migration.Schedule.{
  Shared, Runner, run_delta_migration, run_final_migration, deltas_and_final, run,
}

module _ {W : Type 0} (ft : FinalTimestamp) (now : ℕ) (runner : Runner W) (ctx : Context)
    (s : Shared W) where
  -- A delta migration acts on the world exactly as the runner does if no migration is running and the final
  -- timestamp is not set or not passed, and else not at all. It leaves the flag clear, unless the
  -- flag was set before: then it leaves it set.
  run_delta_migration-world :
      let (_, _, s') = run_delta_migration ft now runner ctx s in
      (s'.migration_running ≡ s.migration_running)
      × (s'.world ≡ (
          if not s.migration_running && (is_zero ft || not (expired ft now))
          then (runner ctx s.world).1
          else s.world))
  unfolding run_delta_migration
  run_delta_migration-world = ground arith

-- A final migration runs in a context that marks it as final, and that asks for the change of the FQDN if
-- it is configured; the flag stays as it is, also if it is clear.
run_final_migration_lem :
    {W : Type 0} (runner : Runner W) (change_fqdn : Bool) (ctx : Context) (s : Shared W)
    → trigger_fqdn_change ctx ≡ false
    → (final : Context) × (run_final_migration runner change_fqdn ctx s
        ≡ ((runner final s.world).0, record s { world = (runner final s.world).1 }))
      × (is_final_migration final ≡ true)
      × (trigger_fqdn_change final ≡ change_fqdn)
unfolding run_final_migration is_final_migration trigger_fqdn_change set_final_migration
    set_trigger_fqdn_change
run_final_migration_lem runner true ctx s h = (_, refl, refl, refl)
run_final_migration_lem runner false ctx s h = (_, refl, refl, h)

-- `Run` schedules a final migration exactly for a timestamp that is not blank, can be read, is not the zero
-- time and has not passed, if the cron expression is valid.
pub run-final :
    (parse : String → Result ℕ) (now : ℕ) (cron : Option Error) (timestamp : String)
    (ft : FinalTimestamp)
    → (run parse now cron timestamp ≡ deltas_and_final ft) ↔ (
        (cron ≡ none)
        × (is_blank timestamp ≡ false)
        × (parse timestamp ≡ ok ft)
        × (now ≤ ft)
        × (ft ≢ 0))
unfolding run parse_final_timestamp
run-final parse now cron timestamp ft = ground arith
