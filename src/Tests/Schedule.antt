-- ===== src/Tests/Schedule.antt =====
-- Schedules, waits and the threads that share the flag, at concrete instants and states.
use ces_importer.Base.{
  ℕ, suc, ◌+◌, ◌*◌, ◌<◌, ◌≤◌, String, ◌≡◌, ◌≢◌, ◌↔◌, ◌⊎◌, refl, Bool, true, false, not, ◌&&◌,
  Option, none, some, List, [], ◌∷◌, Error, plain, Result, ok, if◌then◌else◌, arith, nat_eq,
}
use ces_importer.Migration.Context.{background, is_final_migration, trigger_fqdn_change}
use ces_importer.Migration.Timestamp.{
  is_zero, expired, wait_until, wait_until_ready, tick_duration, is_blank,
}
use ces_importer.Migration.Timestamp.Waiting.{wait_until_ready-first}
use ces_importer.Migration.Schedule.{Shared, Runner, run, deltas_and_final}
use ces_importer.Migration.Schedule.Start.{run-final}
use ces_importer.Migration.Schedule.Threads.{
  Threads, Reach, start, more, delta_load, idle, loaded, migrating, final_migrating, initial,
  overlap, orderly_exclusive,
}
use ces_importer.Migration.Manual.{
  added, config_map, Event, Connection, opened, refused, closed, start_watcher,
}
use ces_importer.Migration.Manual.Laws.{serve, all_requests, start_watcher-serve}

-- No migration runs from two minutes after the final timestamp.
abbrev ready : ℕ → Bool
ready t = nat_eq t (50 + 2 * tick_duration)

start_at_50 : wait_until 50 none 10 ≡ 50
unfolding wait_until is_zero
start_at_50 = refl

busy : (i : ℕ) → i < 2 → ready (wait_until 50 none 10 + i * tick_duration) ≡ false
busy i h = rw start_at_50 (ground arith)

free : ready (wait_until 50 none 10 + 2 * tick_duration) ≡ true
free = rw start_at_50 refl

wait_until_ready-first_example :
    wait_until_ready 3 50 none ready 10 ≡ some (wait_until 50 none 10 + 2 * tick_duration)
wait_until_ready-first_example = wait_until_ready-first 2 3 50 none ready 10 busy free (omega arith)

-- A migration counts itself in the world; every second one fails.
abbrev runner : Runner ℕ
runner ctx w = (if is_final_migration ctx then none else some (plain "failed"), suc w)

abbrev resting : Shared ℕ
resting = record { migration_running = false; world = 7 }

not_triggered : trigger_fqdn_change background ≡ false
unfolding trigger_fqdn_change
not_triggered = refl

run-final_example : (run (λ _. ok 50) 10 none "2026-01-01T00:00:00Z" ≡ deltas_and_final 50) ↔ (
    (◌≡◌ {A = Option Error} none none)
    × (is_blank "2026-01-01T00:00:00Z" ≡ false)
    × (◌≡◌ {A = Result ℕ} (ok 50) (ok 50))
    × (10 ≤ 50)
    × (◌≢◌ {A = ℕ} 50 0))
run-final_example = run-final (λ _. ok 50) 10 none "2026-01-01T00:00:00Z" 50

in_time : (not (is_zero 50) && expired 50 10) ≡ false
unfolding is_zero expired
in_time = refl

overlap_example :
    (t : Threads) × Reach 50 (initial 10) t × (t.delta ≡ migrating) × (t.manual ≡ migrating)
overlap_example = overlap 50 (initial 10) refl refl refl in_time

abbrev migrating_finally : Threads
migrating_finally = record (initial 60) { final = final_migrating }

orderly_exclusive_example : (◌≡◌ loaded idle) ⊎ (◌≡◌ idle idle)
orderly_exclusive_example =
    orderly_exclusive 50 10 (record (initial 10) { delta = loaded })
      (more (initial 10) start (delta_load refl refl refl) ((λ _. refl), (λ h. ground arith)))

abbrev delete : String → ℕ → Option Error × ℕ
delete name w = (some (plain "not found"), w)

abbrev request : Event
request = record { type = added; object = config_map "start-migration" }

abbrev connections : List (Option Error × Connection)
connections =
    (none, opened (request ∷ request ∷ []) closed) ∷ (none, refused (plain "no watch")) ∷ []

start_watcher-serve_example :
    (start_watcher delete runner background connections resting).1 ≡ record {
      migration_running = false;
      world = serve delete runner background (all_requests connections) 7;
    }
start_watcher-serve_example = start_watcher-serve delete runner background connections 7

abbrev flagged : Shared ℕ
flagged = record { migration_running = true; world = 7 }
