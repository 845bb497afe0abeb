-- ===== src/Migration/Schedule.antt =====
-- migration/run.go: the delta migrations that cron triggers and the final migration, each run in turn. What
-- their threads do to one another is in `Schedule.Threads`.
pub mod Start
pub mod Threads
use ces_importer.Base.{
  ℕ, String, Bool, true, false, ◌&&◌, not, Option, none, some, Error, wrap, expired_timestamp,
  Result, ok, err, if◌then◌else◌,
}
use ces_importer.Migration.Context.{Context, set_final_migration, set_trigger_fqdn_change}
use ces_importer.Migration.Timestamp.{FinalTimestamp, is_zero, expired, parse_final_timestamp}

-- `migrationRunning` and the world on which migrations act
pub record Shared (W : Type 0) : Type 0 where
  pub migration_running : Bool
  pub world : W

-- `RunMigration` of a `migrationRunner`
abbrev pub Runner : Type 0 → Type 0
Runner W = Context → W → Option Error × W

abbrev pub final_context : Bool → Context → Context
final_context change_fqdn ctx =
    let final = set_final_migration ctx in
    if change_fqdn then set_trigger_fqdn_change final else final

module _ {W : Type 0} where
  -- The closure of `runDeltaMigration`: the flag is set while it runs and cleared on every way out.
  unfoldable pub run_delta_migration :
      FinalTimestamp → ℕ → Runner W → Context → Shared W → ℕ × Option Error × Shared W
  unfolding is_zero expired
  run_delta_migration ft now runner ctx s =
      let (result, w) = runner ctx s.world in
      if s.migration_running
      then (0, none, s)
      else if not (is_zero ft) && expired ft now
      then (0, none, record s { migration_running = false })
      else elim result [
        | none ↦ (0, none, record { migration_running = false; world = w })
        | some e ↦ (
          1,
          some (wrap "failed to run delta migration" e),
          record { migration_running = false; world = w },
        )
      ]

  -- `runFinalMigration` after its wait. It does not set the flag.
  unfoldable pub run_final_migration :
      Runner W → Bool → Context → Shared W → Option Error × Shared W
  run_final_migration runner change_fqdn ctx s =
      let (result, w) = runner (final_context change_fqdn ctx) s.world in
      (result, record s { world = w })

-- What `Run` starts: nothing if the timestamp has expired; the loop of delta migrations; and the final
-- migration if there is a timestamp. A text that is no timestamp counts as none.
pub data Started : Type 0 where
  nothing : Started
  cron_refused : Error → Started
  deltas : Started
  deltas_and_final : FinalTimestamp → Started

abbrev pub schedule : FinalTimestamp → Started
schedule ft = if is_zero ft then deltas else deltas_and_final ft

-- `cron` is the answer of `cron.New` on the expression.
unfoldable pub start_cron : Option Error → FinalTimestamp → Started
start_cron none ft = schedule ft
start_cron (some e) ft = cron_refused (wrap "failed to create cron looper for expression" e)

unfoldable pub run : (String → Result ℕ) → ℕ → Option Error → String → Started
unfolding start_cron is_zero
run parse now cron timestamp = elim (parse_final_timestamp parse now timestamp) [
  | ok ft ↦ start_cron cron ft
  | err expired_timestamp ↦ nothing
  | err _ ↦ start_cron cron 0
]

-- The end of `Run` after a final migration was started: what happens first decides.
pub data FinalEnd : Type 0 where
  context_done : Error → FinalEnd
  finished : Option Error → FinalEnd

unfoldable pub await_final : FinalEnd → Option Error
await_final (context_done e) =
    some (wrap "received shutdown signal before final migration has been completed" e)
await_final (finished none) = none
await_final (finished (some e)) = some (wrap "failed to run final migration" e)
