-- ===== src/Migration/Manual.antt =====
-- migration/manual/manual.go: migrations that a labelled config map starts. A connection of the watch is the
-- list of the events that it delivers before it closes or the context is done.
pub mod Laws
use ces_importer.Base.{
  ℕ, String, Bool, true, false, Option, none, some, List, [], ◌∷◌, Error, plain, wrap, Result, ok,
  err, if◌then◌else◌,
}
use ces_importer.Migration.Context.{Context}
use ces_importer.Migration.Schedule.{Shared, Runner}

pub data EventType : Type 0 where
  added modified deleted bookmark error_event : EventType

-- `event.Object`: a config map by its name, or an object of another type
pub data Object : Type 0 where
  config_map : String → Object
  other_object : Object

pub record Event : Type 0 where
  pub type : EventType
  pub object : Object

-- How a connection ends.
pub data Ending : Type 0 where
  closed : Ending
  context_done : Error → Ending

-- What `client.Watch` answers.
pub data Connection : Type 0 where
  refused : Error → Connection
  opened : List Event → Ending → Connection

-- `delete` is the client's `Delete`, whose error is only logged.
module _ {W : Type 0} (delete : String → W → Option Error × W) (runner : Runner W)
    (ctx : Context) where
  -- The flag was found clear: it is set for the run and cleared after it, and the run's error is logged.
  abbrev guarded_run : Shared W → Shared W
  guarded_run s =
      let (_, w) = runner ctx s.world in
      if s.migration_running then s else record { migration_running = false; world = w }

  unfoldable pub start_manual_migration : Event → Shared W → Shared W
  start_manual_migration event s = elim event.object [
    | other_object ↦ s
    | config_map name ↦ guarded_run (record s { world = (delete name s.world).1 })
  ]

  unfoldable pub handle_event : Event → Shared W → Shared W
  handle_event event s = elim event.type [ added ↦ start_manual_migration event s | _ ↦ s ]

  abbrev end_error : Ending → Error
  end_error closed = plain "watch channel closed"
  end_error (context_done e) = e

  -- It has no way to return nil.
  unfoldable pub handle_watch_events : List Event → Ending → Shared W → Error × Shared W
  handle_watch_events [] ending s = (end_error ending, s)
  handle_watch_events (event ∷ events) ending s =
      handle_watch_events events ending (handle_event event s)

  -- The answer of the non-blocking look at the context before each connection; the connections that are
  -- made one after the other. `none` means that the list ended and the watcher still runs.
  unfoldable pub start_watcher :
      List (Option Error × Connection) → Shared W → Option Error × Shared W
  start_watcher [] s = (none, s)
  start_watcher ((some e, _) ∷ rest) s = (some e, s)
  start_watcher ((none, refused e) ∷ rest) s =
      (some (wrap "failed to create manual migration starter ConfigMap watcher" e), s)
  start_watcher ((none, opened events ending) ∷ rest) s =
      start_watcher rest (handle_watch_events events ending s).1
