-- ===== src/Migration/Job/Service/Watching.antt =====
-- What a watch without an error tells of the job.
use ces_importer.Base.{
  Result-cases, ◌<◌, String, ◌≡◌, ◌≢◌, refl, none, List, [], ◌∷◌, ok, arith, ◌↔◌, ◌⊎◌, inl, inr,
}
use ces_importer.Migration.Job.Provider.{Job}
use ces_importer.Migration.Job.Service.{
  deleted, error_event, job, Event, JobService, judge, watch_events, get_watcher, stream_logs, run,
}

-- The ways to end a watch with no error: the channel is closed, or there is an event of another job, or one with a
-- succeeded pod of the job; all before are of the job, with no pod that failed.
abbrev pub Finished : String → List Event → Type 0
Finished job_name [] = Unit
Finished job_name (event ∷ events) =
    (event.type ≢ error_event) × (event.type ≢ deleted) × elim event.object [
      | job name succeeded failed ↦
          (name ≢ job_name) ⊎ (0 < succeeded) ⊎ ((failed ≡ 0) × Finished job_name events)
      | _ ↦ ⊥
    ]

-- `watchEvents` returns nil exactly if the events end the watch like that. An event of another job ends the
-- watch with no error, and so does a channel that is closed before the job is done.
pub watch_events-eq-none :
    (events : List Event) (job_name : String)
    → (watch_events events job_name ≡ none) ↔ Finished job_name events
unfolding watch_events judge
watch_events-eq-none [] job_name = (λ _. tt, λ _. refl)
watch_events-eq-none (event ∷ events) job_name =
    ground (arith, watch_events-eq-none events job_name)

-- The calls of a run without an error: the job was made, submitted and watched to its end, and then its logs copied.
pub record Ran {W : Type 0} (j : JobService W) (w w' : W) : Type 0 where
  pub import_job : Job
  pub name : String
  pub events : List Event
  pub made : (j.create_import_job w).0 ≡ ok import_job
  pub submitted : (j.create import_job (j.create_import_job w).1).0 ≡ ok name
  pub watched : (get_watcher j name (j.create import_job (j.create_import_job w).1).1).0 ≡ ok events
  pub finished : Finished name events
  pub streamed :
      stream_logs j name (get_watcher j name (j.create import_job (j.create_import_job w).1).1).1
      ≡ w'

-- If `Run` returns nil, then it created the job, submitted it once, got a watcher whose events end without an
-- error, and waited for the logs.
pub run-Ran : {W : Type 0} (j : JobService W) (w w' : W) → run j w ≡ (none, w') → Ran j w w'
unfolding run
run-Ran j w w' h = elim (Result-cases (j.create_import_job w).0) [
  | inr (e, p) ↦ ground arith
  | inl (import_job, p) ↦ elim (Result-cases (j.create import_job (j.create_import_job w).1).0) [
    | inr (e, q) ↦ ground arith
    | inl (name, q) ↦
        elim (Result-cases
          (get_watcher j name (j.create import_job (j.create_import_job w).1).1).0) [
            | inr (e, r) ↦ ground arith
            | inl (events, r) ↦ record {
              import_job = import_job;
              name = name;
              events = events;
              made = p;
              submitted = q;
              watched = r;
              finished = (watch_events-eq-none events name).0 (ground arith);
              streamed = ground arith;
            }
          ]
  ]
]
