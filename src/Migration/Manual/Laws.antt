-- ===== src/Migration/Manual/Laws.antt =====
-- Which manual migrations run.
use ces_importer.Base.{
  String, ◌≡◌, refl, ◌∙◌, ap, sym, true, false, Option, none, some, List, [], ◌∷◌, ◌++◌, Error,
  arith,
}
use ces_importer.Migration.Context.{Context}
use ces_importer.Migration.Schedule.{Shared, Runner}
use ces_importer.Migration.Manual.{
  added, config_map, other_object, Event, Ending, Connection, refused, opened, handle_event,
  start_manual_migration, handle_watch_events, start_watcher,
}

-- The config map that an event adds, if any.
abbrev pub request : Event → List String
request e = elim e.type [
  | added ↦ elim e.object [ config_map name ↦ name ∷ [] | other_object ↦ [] ]
  | _ ↦ []
]

-- The config maps that the events add.
abbrev pub requests : List Event → List String
requests [] = []
requests (e ∷ es) = request e ++ requests es

-- The connections up to the first look at the context that finds it done, or the first refused connection.
abbrev pub all_requests : List (Option Error × Connection) → List String
all_requests [] = []
all_requests ((some e, _) ∷ rest) = []
all_requests ((none, refused e) ∷ rest) = []
all_requests ((none, opened events ending) ∷ rest) = requests events ++ all_requests rest

module _ {W : Type 0} (delete : String → W → Option Error × W) (runner : Runner W)
    (ctx : Context) where
  -- Each request deletes its config map and then runs one migration, in their order.
  abbrev pub serve : List String → W → W
  serve [] w = w
  serve (name ∷ names) w = serve names (runner ctx (delete name w).1).1

  abbrev clear : W → Shared W
  clear w = record { migration_running = false; world = w }

  serve-append : (xs ys : List String) (w : W) → serve (xs ++ ys) w ≡ serve ys (serve xs w)
  serve-append [] ys w = refl
  serve-append (x ∷ xs) ys w = serve-append xs ys _

  handle_event-serve :
      (e : Event) (w : W) → handle_event delete runner ctx e (clear w) ≡ clear (serve (request e) w)
  unfolding handle_event start_manual_migration
  handle_event-serve e w = ground arith

  handle_watch_events-serve :
      (events : List Event) (ending : Ending) (w : W)
      → (handle_watch_events delete runner ctx events ending (clear w)).1
        ≡ clear (serve (requests events) w)
  unfolding handle_watch_events
  handle_watch_events-serve [] ending w = refl
  handle_watch_events-serve (e ∷ es) ending w =
      ap (λ s. (handle_watch_events delete runner ctx es ending s).1) (handle_event-serve e w)
      ∙ handle_watch_events-serve es ending (serve (request e) w)
      ∙ ap clear (sym (serve-append (request e) (requests es) w))

  -- If no other thread uses the flag and it is clear at first, the watcher serves each config map that is
  -- added over all its connections once and in order: it deletes the map, whether or not that
  -- fails, and runs a migration, whatever its result. The flag is clear again at the end.
  pub start_watcher-serve :
      (connections : List (Option Error × Connection)) (w : W)
      → (start_watcher delete runner ctx connections (clear w)).1
        ≡ clear (serve (all_requests connections) w)
  unfolding start_watcher
  start_watcher-serve [] w = refl
  start_watcher-serve ((some e, _) ∷ rest) w = refl
  start_watcher-serve ((none, refused e) ∷ rest) w = refl
  start_watcher-serve ((none, opened events ending) ∷ rest) w =
      ap (λ s. (start_watcher delete runner ctx rest s).1)
        (handle_watch_events-serve events ending w)
      ∙ start_watcher-serve rest (serve (requests events) w)
      ∙ ap clear (sym (serve-append (requests events) (all_requests rest) w))

  -- While another migration runs, a request only deletes its config map: no migration follows later.
  handle_event-running :
      (e : Event) (s : Shared W)
      → s.migration_running ≡ true
      → (handle_event delete runner ctx e s ≡ record s {
        world = elim e.type [
          | added ↦ elim e.object [
            | config_map name ↦ (delete name s.world).1
            | other_object ↦ s.world
          ]
          | _ ↦ s.world
        ];
      })
  unfolding handle_event start_manual_migration
  handle_event-running e s h = ground arith
