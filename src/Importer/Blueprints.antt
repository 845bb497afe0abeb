-- ===== src/Importer/Blueprints.antt =====
-- api/importer/blueprintClient.go. The blueprint client is a parameter: functions on a world.
pub mod RoundTrip
use ces_importer.Base.{
  String, ◌<>◌, Bool, true, false, Option, none, some, List, [], ◌∷◌, ◌++◌, Error, wrap, Result, ok,
  err, if◌then◌else◌,
}
use ces_importer.Importer.{Answer, found, missing, unavailable}

-- `BlueprintInterface`; a blueprint is its `Spec.Stopped`, which may be nil.
pub record BlueprintInterface (W : Type 0) : Type 0 where
  pub list : W → Result (List String) × W
  pub get : String → W → Answer (Option Bool) × W
  -- the merge patch that sets `spec.stopped`
  pub patch : String → Bool → W → Option Error × W

-- The world and the control's `stoppedBlueprints`.
pub record BlueprintControl (W : Type 0) : Type 0 where
  pub world : W
  pub stopped_blueprints : List String

-- ptr.Deref(p, false)
abbrev pub deref : Option Bool → Bool
deref none = false
deref (some b) = b

abbrev pub same : Bool → Bool → Bool
same true b = b
same false b = if b then false else true

module _ {W : Type 0} (client : BlueprintInterface W) where
  unfoldable pub start_stop : String → Bool → W → Result Bool × W
  start_stop name should_stop w =
      let (answer, w') = client.get name w in
      let (patched, w'') = client.patch name should_stop w' in
      elim answer [
        | missing ↦ (ok false, w')
        | unavailable e ↦ (err (wrap ("failed to get blueprint " <> name) e), w')
        | found stopped ↦
            if same (deref stopped) should_stop then (ok false, w') else elim patched [
              | none ↦ (ok true, w'')
              | some e ↦ (err (wrap ("failed to patch blueprint " <> name) e), w'')
            ]
      ]

  -- The loop of `StopBlueprint`.
  unfoldable pub stop_loop : List String → BlueprintControl W → Option Error × BlueprintControl W
  stop_loop [] s = (none, s)
  stop_loop (name ∷ names) s =
      let (result, w) = start_stop name true s.world in
      elim result [
        | err e ↦ (some (wrap "failed to stop blueprint" e), record s { world = w })
        | ok false ↦ stop_loop names (record s { world = w })
        | ok true ↦
            stop_loop names
              (record { world = w; stopped_blueprints = s.stopped_blueprints ++ name ∷ [] })
      ]

  unfoldable pub stop_blueprint : BlueprintControl W → Option Error × BlueprintControl W
  stop_blueprint s =
      let (listed, w) = client.list s.world in
      elim listed [
        | err e ↦ (some (wrap "failed to list all blueprints" e), record s { world = w })
        | ok names ↦ stop_loop names (record s { world = w })
      ]

  -- The loop of `StartBlueprint`.
  unfoldable pub start_loop : List String → W → Option Error × W
  start_loop [] w = (none, w)
  start_loop (name ∷ names) w =
      let (result, w') = start_stop name false w in
      elim result [
        | err e ↦ (some (wrap "failed to start blueprint" e), w')
        | ok _ ↦ start_loop names w'
      ]

  unfoldable pub start_blueprint : BlueprintControl W → Option Error × BlueprintControl W
  start_blueprint s =
      let (failure, w) = start_loop s.stopped_blueprints s.world in
      elim failure [
        | some e ↦ (some e, record s { world = w })
        | none ↦ (none, record { world = w; stopped_blueprints = [] })
      ]
