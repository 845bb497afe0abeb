-- ===== src/Importer/Dogus.antt =====
-- api/importer/doguClient.go. The clients, the parser of qualified names and the timer are parameters. The
-- loop that polls the pods takes its number of rounds as fuel; `none` is a run out of fuel.
pub mod Stopping
use ces_importer.Base.{
  ℕ, zero, suc, ◌+◌, String, ◌<>◌, Bool, true, false, Option, none, some, List, [], ◌∷◌, Error,
  wrap, Result, ok, err, if◌then◌else◌, nat_eq,
}
use ces_importer.Importer.{Answer, found, missing, unavailable}
use ces_importer.Importer.Blueprints.{same}
use ces_importer.SystemInfo.Names.{NameParser, QualifiedName}

pub data Phase : Type 0 where
  pending running succeeded failed unknown : Phase

-- `DoguInterface`, `PodInterface` and the timer. A dogu is its `Spec.Stopped`. `now` is in seconds.
pub record DoguControl (W : Type 0) : Type 0 where
  pub parse : NameParser
  -- the names in the specs of the dogus
  pub list : W → Result (List String) × W
  pub get : String → W → Answer Bool × W
  -- `UpdateSpecWithRetry` with the function that sets `Stopped`
  pub update_stopped : String → Bool → W → Option Error × W
  -- the pods with the dogu's label
  pub list_pods : String → W → Result (List Phase) × W
  -- the `select` between the deadline, whose error it gives, and the timer of a poll's interval
  pub await_poll : ℕ → W → Option Error × W
  pub now : W → ℕ

-- `stopTimeout` and `stopPollInterval` in seconds
abbrev pub stop_timeout : ℕ
stop_timeout = 300

abbrev pub stop_poll_interval : ℕ
stop_poll_interval = 2

unfoldable pub count_not_terminated_pods : List Phase → ℕ
count_not_terminated_pods [] = 0
count_not_terminated_pods (phase ∷ pods) =
    let rest = count_not_terminated_pods pods in
    elim phase [ succeeded ↦ rest | failed ↦ rest | _ ↦ suc rest ]

module _ {W : Type 0} (dc : DoguControl W) where
  unfoldable pub start_stop : String → Bool → W → Option Error × W
  start_stop full_name should_stop w = elim (dc.parse full_name) [
    | err e ↦ (some e, w)
    | ok name ↦
        let (answer, w') = dc.get name.simple_name w in
        let (failure, w'') = dc.update_stopped name.simple_name should_stop w' in
        elim answer [
          | missing ↦ (none, w')
          | unavailable e ↦ (
            some (wrap ("failed to get dogu " <> name.namespace <> "/" <> name.simple_name) e),
            w',
          )
          | found stopped ↦ if same stopped should_stop then (none, w') else elim failure [
            | none ↦ (none, w'')
            | some e ↦ (
              some (
                  wrap
                    ("failed to update dogu "
                      <> name.namespace
                      <> "/"
                      <> name.simple_name
                      <> (if should_stop then " (shouldStop: true)" else " (shouldStop: false)"))
                    e),
              w'',
            )
          ]
        ]
  ]

  abbrev wrapped : String → Option Error × W → Option Error × W
  wrapped message (none, w) = (none, w)
  wrapped message (some e, w) = (some (wrap message e), w)

  unfoldable pub stop_dogu : String → W → Option Error × W
  stop_dogu name w = wrapped "failed to stop dogu" (start_stop name true w)

  unfoldable pub start_dogu : String → W → Option Error × W
  start_dogu name w = wrapped "failed to start dogu" (start_stop name false w)

  unfoldable pub stop_each : List String → W → Option Error × W
  stop_each [] w = (none, w)
  stop_each (name ∷ names) w =
      let (failure, w') = stop_dogu name w in
      elim failure [
        | some e ↦ (some (wrap "failed to stop dogu" e), w')
        | none ↦ stop_each names w'
      ]

  unfoldable pub start_each : List String → W → Option Error × W
  start_each [] w = (none, w)
  start_each (name ∷ names) w =
      let (failure, w') = start_stop name false w in
      elim failure [
        | some e ↦ (some (wrap "failed to start dogu" e), w')
        | none ↦ start_each names w'
      ]

  unfoldable pub start_all : W → Option Error × W
  start_all w =
      let (listed, w') = dc.list w in
      elim listed [
        | err e ↦ (some (wrap "failed to list all dogus" e), w')
        | ok names ↦ start_each names w'
      ]

  -- The loop of `waitForDoguPodsTerminated`.
  unfoldable pub poll_pods : ℕ → ℕ → String → W → Option (Option Error × W)
  poll_pods zero deadline name w = none
  poll_pods (suc fuel) deadline name w =
      let (pods, w') = dc.list_pods name w in
      let (done, w'') = dc.await_poll deadline w' in
      elim pods [
        | err e ↦ some (some (wrap ("failed to list pods of dogu " <> name) e), w')
        | ok phases ↦
            if nat_eq (count_not_terminated_pods phases) 0 then some (none, w') else elim done [
              | some e ↦
                  some
                    (some (wrap ("pods of dogu " <> name <> " did not terminate in time") e), w'')
              | none ↦ poll_pods fuel deadline name w''
            ]
      ]

  unfoldable pub wait_for_dogu_pods_terminated : ℕ → String → W → Option (Option Error × W)
  wait_for_dogu_pods_terminated fuel full_name w = elim (dc.parse full_name) [
    | err e ↦ some (some e, w)
    | ok name ↦ poll_pods fuel (dc.now w + stop_timeout) name.simple_name w
  ]

  unfoldable pub wait_each : ℕ → List String → W → Option (Option Error × W)
  wait_each fuel [] w = some (none, w)
  wait_each fuel (name ∷ names) w = elim (wait_for_dogu_pods_terminated fuel name w) [
    | none ↦ none
    | some (some e, w') ↦ some (some (wrap "failed to wait for dogu to stop" e), w')
    | some (none, w') ↦ wait_each fuel names w'
  ]

  unfoldable pub stop_all : ℕ → W → Option (Option Error × W)
  stop_all fuel w =
      let (listed, w') = dc.list w in
      elim listed [
        | err e ↦ some (some (wrap "failed to list all dogus" e), w')
        | ok names ↦
            let (failure, w'') = stop_each names w' in
            elim failure [ some e ↦ some (some e, w'') | none ↦ wait_each fuel names w'' ]
      ]
