-- ===== src/Migration/Job/Service.antt =====
-- migration/jobService.go: the run of the import job and the watch over it. The cluster's clients, the retries and
-- the log writer are parameters. The events of a watcher are the list of those that its channel
-- delivers before it is closed. The logs are streamed in a goroutine that `Run` waits for when the watch ends
-- with no error; the model puts all of its effects at that point.
pub mod Watching
use ces_importer.Base.{
  ℕ, String, ◌<>◌, ◌==◌, Bool, true, false, Option, none, some, List, [], ◌∷◌, Error, plain, wrap,
  Result, ok, err, if◌then◌else◌, ltb,
}
use ces_importer.Migration.Job.Provider.{
  Job, Env, JobProviderDependencies, new_job_provider, create_import_job,
}
use ces_importer.Migration.Context.{Context}

pub data EventType : Type 0 where
  added modified deleted bookmark error_event : EventType

-- `event.Object`: a job with the counts of its succeeded and failed pods, a status, or another type by its name.
pub data Object : Type 0 where
  job : String → ℕ → ℕ → Object
  status : String → Object
  other : String → Object

pub record Event : Type 0 where
  pub type : EventType
  pub object : Object

-- `%T` of an object
abbrev type_name : Object → String
type_name (job _ _ _) = "*v1.Job"
type_name (status _) = "*v1.Status"
type_name (other t) = t

unfoldable pub handle_watch_error : Object → Error
handle_watch_error (status message) = plain message
handle_watch_error (job n s f) =
    plain ("failed to cast event object to status: " <> type_name (job n s f))
handle_watch_error (other t) =
    plain ("failed to cast event object to status: " <> type_name (other t))

-- The body of the loop of `watchEvents` for an event that is neither an error nor a deletion: `none` goes on
-- with the next event, and `some` leaves the loop with the error.
unfoldable pub judge : Object → String → Option (Option Error)
judge (job name succeeded failed) job_name =
    if name == job_name
    then (if ltb 0 succeeded
        then some none
        else if ltb 0 failed
        then some (some (plain ("job " <> name <> " failed")))
        else none)
    else some none
judge (status m) job_name =
    some (
      some (plain ("received unexpected event type during watch of job: " <> type_name (status m))))
judge (other t) job_name =
    some
      (some (plain ("received unexpected event type during watch of job: " <> type_name (other t))))

unfoldable pub watch_events : List Event → String → Option Error
watch_events [] job_name = none
watch_events (event ∷ events) job_name =
    let rest = watch_events events job_name in
    elim event.type [
      | error_event ↦ some (handle_watch_error event.object)
      | deleted ↦ some (plain ("job has been deleted during migration: " <> job_name))
      | _ ↦ elim (judge event.object job_name) [ some outcome ↦ outcome | none ↦ rest ]
    ]

pub record Pod : Type 0 where
  pub name : String
  pub is_running : Bool

-- What the service calls; a log streamer is the name of its pod.
pub record JobService (W : Type 0) : Type 0 where
  pub create_import_job : W → Result Job × W
  -- `jobClient.Create` yields the resource's name
  pub create : Job → W → Result String × W
  -- the jobs with the name in a list of jobs, then the retry watcher
  pub list_jobs : String → W → Result (List String) × W
  pub watch : String → W → Result (List Event) × W
  pub list_pods : String → W → Result (List Pod) × W
  -- `retry.OnError` with the backoff for the log streamer
  pub retry : (W → Result String × W) → W → Result String × W
  -- `Stream`, `io.Copy` and `Close`
  pub copy_logs : String → W → W

module _ {W : Type 0} (j : JobService W) where
  unfoldable pub get_streamer : String → W → Result String × W
  get_streamer job_name w =
      let (listed, w') = j.list_pods job_name w in
      (
        elim listed [
          | err e ↦ err (wrap ("failed to list pods for job " <> job_name) e)
          | ok [] ↦ err (plain ("no pods found for job " <> job_name))
          | ok (pod ∷ _) ↦
              if pod.is_running
              then ok pod.name
              else err (plain ("pod " <> pod.name <> " is not yet running"))
        ],
        w',
      )

  unfoldable pub get_watcher : String → W → Result (List Event) × W
  get_watcher job_name w =
      let (listed, w') = j.list_jobs job_name w in
      let watched = j.watch job_name w' in
      elim listed [
        | err e ↦ (err (plain "error getting migration job while trying to create job watcher"), w')
        | ok [] ↦ (
          err (
              plain
                ("migration job " <> job_name <> " not found while trying to create job watcher")),
          w',
        )
        | ok (_ ∷ _) ↦ watched
      ]

  -- The error of a single try is wrapped; that of the last one is only logged.
  abbrev try_streamer : String → W → Result String × W
  try_streamer job_name w =
      let (r, w') = get_streamer job_name w in
      (
        elim r [ ok s ↦ ok s | err e ↦ err (wrap ("failed to get logs for job " <> job_name) e) ],
        w',
      )

  unfoldable pub stream_logs : String → W → W
  stream_logs job_name w =
      let (streamer, w') = j.retry (try_streamer job_name) w in
      elim streamer [ err _ ↦ w' | ok s ↦ j.copy_logs s w' ]

  unfoldable pub run : W → Option Error × W
  run w =
      let (created, w1) = j.create_import_job w in
      elim created [
        | err e ↦ (some (wrap "failed to create import job" e), w1)
        | ok import_job ↦
            let (submitted, w2) = j.create import_job w1 in
            elim submitted [
              | err e ↦ (some (wrap "failed to create import job resource" e), w2)
              | ok name ↦
                  let (watcher, w3) = get_watcher name w2 in
                  elim watcher [
                    | err e ↦ (some (wrap ("failed to create watcher for job " <> name) e), w3)
                    | ok events ↦ elim (watch_events events name) [
                      | some e ↦ (some (wrap "received error while watching job" e), w3)
                      | none ↦ (none, stream_logs name w3)
                    ]
                  ]
            ]
      ]

-- `NewJobService`, with the clients and the log writer as the fields of `clients`; the context is that of the migration.
unfoldable pub new_job_service :
    {W Q : Type 0}
    → Env W Q
    → JobProviderDependencies
    → JobService W
    → Result (Context → JobService W)
new_job_service env deps clients = elim (new_job_provider env deps) [
  | err e ↦ err (wrap "failed to create job provider" e)
  | ok provider ↦
      ok (λ ctx. record clients { create_import_job = create_import_job env provider ctx })
]
